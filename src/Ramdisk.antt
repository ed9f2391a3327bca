-- ===== src/Ramdisk.antt =====
-- drivers/ramdisk/ramdisk.c: a disk in memory. A device is NULL or the two words of a struct
-- DISK_DEVICE; the driver's own data are the words at the address that it holds.
pub mod Access
mod Tests
use osdev_course.Common.{
  ℕ, zero, suc, ◌+◌, ◌-◌, ◌^◌, ◌%◌, Bool, true, false, Option, none, some, ◌==◌, leb, ltb,
  if◌then◌else◌, add32, add64, sub64, wrap32, update, Run, ok, out_of_fuel,
}
use osdev_course.Kstring.{Memory, kmemcpy}
use osdev_course.Kmalloc.{Kmalloc, kmalloc, kfree}

-- `struct DISK_DEVICE`
pub record Disk : Type 0 where
  pub driver : ℕ
  pub driver_data : ℕ

-- The fields `memory` and `size` of each struct RAMDISK_DRIVER_DATA, by its address.
pub record DriverData : Type 0 where
  pub memory : ℕ → ℕ
  pub size : ℕ → ℕ

module _ {M : Type 0} (mmap : (mem paddr size flag : ℕ) → M → M) where
  -- `ramdisk_open` with the address and the size in its options, `none` for NULL. The driver's data
  -- take 12 bytes.
  unfoldable pub ramdisk_open :
      (fuel driver : ℕ)
      → Option Disk
      → Option (ℕ × ℕ)
      → DriverData
      → Kmalloc M
      → Run (Bool × Option Disk × DriverData × Kmalloc M)
  unfolding kmalloc
  ramdisk_open fuel driver (some device) (some (memory, size)) words k =
      let opened : Run (Bool × Option Disk × DriverData × Kmalloc M) =
        elim (kmalloc mmap fuel 12 k) [
          | none ↦ out_of_fuel
          | some (p, k') ↦ ok (
            true,
            some (record { driver = driver; driver_data = p }),
            record { memory = update words.memory p memory; size = update words.size p size },
            k',
          )
        ] in
      if driver == 0 then ok (false, some device, words, k) else opened
  ramdisk_open fuel driver device options words k = ok (false, device, words, k)

-- `ramdisk_close`
unfoldable pub ramdisk_close :
    {M : Type 0} → Option Disk → Kmalloc M → Bool × Option Disk × Kmalloc M
unfolding kfree
ramdisk_close none k = (false, none, k)
ramdisk_close (some device) k =
    (true, some (record { driver = 0; driver_data = 0 }), kfree device.driver_data k)

-- `ramdisk_get_disksize`
unfoldable pub ramdisk_get_disksize : Option Disk → DriverData → ℕ
ramdisk_get_disksize none words = 0
ramdisk_get_disksize (some device) words = words.size device.driver_data

-- The size that a transfer of `size` bytes from `offset` on a disk of `total` bytes gets.
unfoldable pub clamp : (total offset size : ℕ) → ℕ
clamp total offset size = if ltb total (add64 offset size) then sub64 total offset else size

-- `ramdisk_read` returns the bits of its result, a number of 64 bits, and memory. A pointer and a
-- length have 32 bits.
unfoldable pub ramdisk_read : Option Disk → (buf offset size : ℕ) → DriverData → Memory → ℕ × Memory
unfolding clamp kmemcpy
ramdisk_read none buf offset size words mem = (2 ^ 64 - 1, mem)
ramdisk_read (some device) buf offset size words mem =
    let total = words.size device.driver_data in
    let size' = clamp total offset size in
    let from = add32 (words.memory device.driver_data) offset in
    if leb total offset then (0, mem) else (size', (kmemcpy buf from (wrap32 size') mem).1)

-- `ramdisk_write`
unfoldable pub ramdisk_write :
    Option Disk → (buf offset size : ℕ) → DriverData → Memory → ℕ × Memory
unfolding clamp kmemcpy
ramdisk_write none buf offset size words mem = (2 ^ 64 - 1, mem)
ramdisk_write (some device) buf offset size words mem =
    let total = words.size device.driver_data in
    let size' = clamp total offset size in
    let to = add32 (words.memory device.driver_data) offset in
    if leb total offset then (0, mem) else (size', (kmemcpy to buf (wrap32 size') mem).1)
