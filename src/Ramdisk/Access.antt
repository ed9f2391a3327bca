-- ===== src/Ramdisk/Access.antt =====
-- Transfers to and from the disk of drivers/ramdisk/ramdisk.c.
use osdev_course.Common.{
  ℕ, ◌+◌, ◌-◌, ◌^◌, ◌<◌, ◌≤◌, ◌≡◌, refl, sym, ◌∙◌, ◌⊎◌, inl, inr, false, some, arith, leb, ltb,
  if◌then◌else◌, Bool-cases, add32, add64, wrap32,
}
use osdev_course.Kstring.{Memory, kmemcpy}
use osdev_course.Kstring.Copy.{Apart, kmemcpy-copies}
use osdev_course.Ramdisk.{Disk, DriverData, clamp, ramdisk_read, ramdisk_write}

-- The bytes that a transfer of `size` bytes at `offset` moves on a disk of `total` bytes.
abbrev pub up_to : (total offset size : ℕ) → ℕ
up_to total offset size = if leb (offset + size) total then size else total - offset

abbrev pub moved : (total offset size : ℕ) → ℕ
moved total offset size = if leb total offset then 0 else up_to total offset size

module _ (disk : Disk) (words : DriverData) where
  abbrev start : ℕ
  start = words.memory disk.driver_data

  abbrev total : ℕ
  total = words.size disk.driver_data

  -- A disk that lies in the address space.
  pub record IsRamdisk : Type 0 where
    pub inside : start + total < 2 ^ 32

  clamp-up_to :
      (offset size : ℕ)
      → offset < total
      → total < 2 ^ 32
      → offset + size < 2 ^ 64
      → clamp total offset size ≡ up_to total offset size
  unfolding clamp
  clamp-up_to offset size h small fits = ground arith

  read-copy :
      (buf offset size : ℕ) (mem : Memory)
      → offset < total
      → IsRamdisk
      → offset + size < 2 ^ 64
      → ramdisk_read (some disk) buf offset size words mem
        ≡ (up_to total offset size, (kmemcpy buf (start + offset) (up_to total offset size) mem).1)
  unfolding ramdisk_read
  read-copy buf offset size mem h v fits =
      let inside : leb total offset ≡ false = ground arith in
      let from : add32 start offset ≡ start + offset = omega (arith, v.inside) in
      let cut = clamp-up_to offset size h (omega (arith, v.inside)) fits in
      let len : wrap32 (up_to total offset size) ≡ up_to total offset size =
        ground (arith, v.inside) in
      rw (inside, from, cut, len) refl

  write-copy :
      (buf offset size : ℕ) (mem : Memory)
      → offset < total
      → IsRamdisk
      → offset + size < 2 ^ 64
      → ramdisk_write (some disk) buf offset size words mem
        ≡ (up_to total offset size, (kmemcpy (start + offset) buf (up_to total offset size) mem).1)
  unfolding ramdisk_write
  write-copy buf offset size mem h v fits =
      let inside : leb total offset ≡ false = ground arith in
      let to : add32 start offset ≡ start + offset = omega (arith, v.inside) in
      let cut = clamp-up_to offset size h (omega (arith, v.inside)) fits in
      let len : wrap32 (up_to total offset size) ≡ up_to total offset size =
        ground (arith, v.inside) in
      rw (inside, to, cut, len) refl

  up_to-bounds :
      (offset size : ℕ)
      → offset < total
      → (offset + up_to total offset size ≤ total) × (up_to total offset size ≤ size)
  up_to-bounds offset size h = ground arith

  -- A read of a disk that lies in the address space, at an offset with which the size does not
  -- wrap, returns the number of bytes up to the disk's end at most, and puts exactly these bytes
  -- into the buffer; no other byte of memory changes. The buffer is apart from the disk.
  pub ramdisk_read-bytes :
      (buf offset size : ℕ) (mem : Memory)
      → IsRamdisk
      → offset + size < 2 ^ 64
      → Apart buf size start total
      → let (n, mem') = ramdisk_read (some disk) buf offset size words mem in
        (n ≡ moved total offset size)
        × ((i : ℕ) → i < n → mem' (buf + i) ≡ mem (start + offset + i))
        × ((z : ℕ) → (z < buf) ⊎ (buf + n ≤ z) → mem' z ≡ mem z)
  unfolding ramdisk_read
  ramdisk_read-bytes buf offset size mem v fits apart = elim (Bool-cases (leb total offset)) [
    | inl out ↦ rw out (refl, λ i h. absurd (omega arith), λ z h. refl)
    | inr inside ↦
        let low : offset < total = ground arith in
        let bounds = up_to-bounds offset size low in
        let (_, copied, rest) =
          kmemcpy-copies buf (start + offset) (up_to total offset size) mem
            (ground (arith, bounds)) in
        rw (read-copy buf offset size mem low v fits, inside) (refl, copied, rest)
  ]

  ramdisk_write-bytes :
      (buf offset size : ℕ) (mem : Memory)
      → IsRamdisk
      → offset + size < 2 ^ 64
      → Apart start total buf size
      → let (n, mem') = ramdisk_write (some disk) buf offset size words mem in
        (n ≡ moved total offset size)
        × ((i : ℕ) → i < n → mem' (start + offset + i) ≡ mem (buf + i))
        × ((z : ℕ) → (z < start + offset) ⊎ (start + offset + n ≤ z) → mem' z ≡ mem z)
  unfolding ramdisk_write
  ramdisk_write-bytes buf offset size mem v fits apart = elim (Bool-cases (leb total offset)) [
    | inl out ↦ rw out (refl, λ i h. absurd (omega arith), λ z h. refl)
    | inr inside ↦
        let low : offset < total = ground arith in
        let bounds = up_to-bounds offset size low in
        let (_, copied, rest) =
          kmemcpy-copies (start + offset) buf (up_to total offset size) mem
            (ground (arith, bounds)) in
        rw (write-copy buf offset size mem low v fits, inside) (refl, copied, rest)
  ]

  -- What is written to a disk that lies in the address space is read back from the same offset, as
  -- many bytes as were written. Neither buffer overlaps the disk, and the size does not wrap with
  -- the offset.
  pub ramdisk_read-ramdisk_write :
      (buf buf' offset size : ℕ) (mem : Memory)
      → IsRamdisk
      → offset + size < 2 ^ 64
      → Apart start total buf size
      → Apart buf' size start total
      → let (n, mem1) = ramdisk_write (some disk) buf offset size words mem in
        let (m, mem2) = ramdisk_read (some disk) buf' offset size words mem1 in
        (m ≡ n) × ((i : ℕ) → i < n → mem2 (buf' + i) ≡ mem (buf + i))
  ramdisk_read-ramdisk_write buf buf' offset size mem v fits apart apart' =
      let written = ramdisk_write (some disk) buf offset size words mem in
      let (n, put, _) = ramdisk_write-bytes buf offset size mem v fits apart in
      let (m, got, _) = ramdisk_read-bytes buf' offset size written.1 v fits apart' in
      (m ∙ sym n, λ i h. got i (rw (m ∙ sym n) h) ∙ put i h)

  -- A size that wraps with the offset is not cut down to the disk's end, where the offset lies on
  -- the disk.
  pub ramdisk_read_wraps :
      (buf offset size : ℕ) (mem : Memory)
      → offset < total
      → size < 2 ^ 64
      → 2 ^ 64 ≤ offset + size
      → (ramdisk_read (some disk) buf offset size words mem).0 ≡ size
  unfolding ramdisk_read clamp
  ramdisk_read_wraps buf offset size mem h small wraps =
      let inside : leb total offset ≡ false = ground arith in
      let uncut : ltb total (add64 offset size) ≡ false = ground arith in rw (inside, uncut) refl
