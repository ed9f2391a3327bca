-- ===== src/Ramdisk/Tests.antt =====
-- drivers/ramdisk/ramdisk.c run on inputs, and its theorems at inputs.
use osdev_course.Common.{ℕ, ◌+◌, ◌<◌, ◌≤◌, ◌≡◌, refl, ◌⊎◌, inl, inr, some, arith}
use osdev_course.Kstring.{Memory}
use osdev_course.Ramdisk.{Disk, DriverData, ramdisk_read, ramdisk_write}
use osdev_course.Ramdisk.Access.{moved, IsRamdisk, ramdisk_read-bytes, ramdisk_read-ramdisk_write}

-- A disk of 100 bytes at 1000, each byte its own address.
abbrev disk : Disk
disk = record { driver = 1; driver_data = 16 }

abbrev words : DriverData
words = record { memory = λ _. 1000; size = λ _. 100 }

abbrev bytes : Memory
bytes z = z

fits : IsRamdisk disk words
fits = record { inside = omega arith }

-- At the end of the disk only the last ten bytes are read.
short_read : (ramdisk_read (some disk) 5000 90 20 words bytes).0 ≡ 10
unfolding ramdisk_read
short_read = refl

ramdisk_read-bytes_example :
    let (n, mem') = ramdisk_read (some disk) 5000 90 20 words bytes in
    (n ≡ moved 100 90 20)
    × ((i : ℕ) → i < n → mem' (5000 + i) ≡ bytes (1000 + 90 + i))
    × ((z : ℕ) → (z < 5000) ⊎ (5000 + n ≤ z) → mem' z ≡ bytes z)
ramdisk_read-bytes_example =
    ramdisk_read-bytes disk words 5000 90 20 bytes fits (omega arith) (inr (omega arith))

ramdisk_read-ramdisk_write_example :
    let (n, mem1) = ramdisk_write (some disk) 5000 90 20 words bytes in
    let (m, mem2) = ramdisk_read (some disk) 6000 90 20 words mem1 in
    (m ≡ n) × ((i : ℕ) → i < n → mem2 (6000 + i) ≡ bytes (5000 + i))
ramdisk_read-ramdisk_write_example =
    ramdisk_read-ramdisk_write disk words 5000 6000 90 20 bytes fits (omega arith)
      (inl (omega arith)) (inr (omega arith))
