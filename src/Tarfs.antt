-- ===== src/Tarfs.antt =====
-- drivers/tarfs/tarfs.c: the files of a tar archive on a disk. The disk is a parameter, as the driver
-- sees it through struct DISK_DRIVER: its size, and a read of bytes into memory. The pointers to the
-- device, the name and the results are not NULL.
pub mod Octal
pub mod Search
mod Tests
use osdev_course.Common.{
  ℕ, zero, suc, ◌+◌, ◌-◌, ◌*◌, ◌/◌, ◌^◌, ◌%◌, Bool, true, false, Option, none, some, ◌==◌, leb, ltb,
  if◌then◌else◌, add64, sub64, Run, ok, out_of_fuel, ◌>>=◌,
}
use osdev_course.Kstring.{Memory, kstrcmp}

-- `struct FS_DEVICE`
pub record FsDevice : Type 0 where
  pub driver : ℕ
  pub driver_data : ℕ
  pub disk : ℕ

-- `tarfs_open`, on a device that may be NULL
unfoldable pub tarfs_open : (driver : ℕ) → Option FsDevice → (disk : ℕ) → Bool × Option FsDevice
tarfs_open driver none disk = (false, none)
tarfs_open driver (some device) disk =
    if driver == 0
    then (false, some device)
    else (true, some (record { driver = driver; driver_data = 0; disk = disk }))

-- `tarfs_close`
unfoldable pub tarfs_close : Option FsDevice → Bool × Option FsDevice
tarfs_close none = (false, none)
tarfs_close (some device) = (true, some (record { driver = 0; driver_data = 0; disk = 0 }))

-- `tarfs_dir_entry` and `tarfs_write` are not supported: the results are false and -1.
abbrev pub tarfs_dir_entry : Bool
tarfs_dir_entry = false

abbrev pub tarfs_write : ℕ
tarfs_write = 2 ^ 64 - 1

-- `*s - '0'` as a number of 64 bits, from a `char` with its sign.
abbrev pub octal_digit : ℕ → ℕ
octal_digit c = if ltb c 128 then sub64 c 48 else sub64 c 304

-- The loop of `oct2uint64`.
unfoldable pub octal_loop : (fuel r s : ℕ) → Memory → Run ℕ
octal_loop zero r s mem = out_of_fuel
octal_loop (suc fuel) r s mem =
    let rest = octal_loop fuel (add64 (r * 8 % 2 ^ 64) (octal_digit (mem s))) (s + 1) mem in
    if mem s == 0 then ok r else rest

-- `oct2uint64`
unfoldable pub oct2uint64 : (fuel s : ℕ) → Memory → Run ℕ
unfolding octal_loop
oct2uint64 fuel s mem = octal_loop fuel 0 s mem

-- The length of a file in whole blocks.
abbrev pub padded : ℕ → ℕ
padded filelen = add64 filelen 511 / 2 ^ 9 * 2 ^ 9

-- Where `filelen` stands in struct TAR_HEADER.
abbrev pub filelen_field : ℕ
filelen_field = 124

module _ (disksize : ℕ) (read : (buf offset size : ℕ) → Memory → ℕ × Memory) where
  -- The loop of `tarfs_fstat` and of `tarfs_read` over the headers, from `cursor` on: the position
  -- and the length of the first file of the name, or `none` at the end of the disk or when nothing
  -- can be read. `header` is the address of the local struct TAR_HEADER.
  unfoldable pub find_file :
      (fuel header filename cursor : ℕ) → Memory → Run (Option (ℕ × ℕ) × Memory)
  unfolding oct2uint64 kstrcmp
  find_file zero header filename cursor mem = out_of_fuel
  find_file (suc fuel) header filename cursor mem =
      let (got, mem') = read header cursor 511 mem in
      let compared = do
        filelen ← oct2uint64 (suc fuel) (header + filelen_field) mem'
        d ← kstrcmp (suc fuel) header filename mem'
        let rest = find_file fuel header filename (add64 (add64 cursor (padded filelen)) 512) mem'
        if d == 0 then ok (some (cursor, filelen), mem') else rest
      in if leb disksize cursor
        then ok (none, mem)
        else if got == 0
        then ok (none, mem')
        else compared

  -- `tarfs_fstat`: the file's length, `none` if the result is false.
  unfoldable pub tarfs_fstat : (fuel header filename : ℕ) → Memory → Run (Option ℕ × Memory)
  unfolding find_file
  tarfs_fstat fuel header filename mem = find_file fuel header filename 0 mem >>= λ (r, mem').
      ok (elim r [ none ↦ none | some (cursor, filelen) ↦ some filelen ], mem')

  -- The bytes of a file that was found.
  unfoldable pub read_file : (buf offset size : ℕ) → Option (ℕ × ℕ) → Memory → ℕ × Memory
  read_file buf offset size none mem = (0, mem)
  read_file buf offset size (some (cursor, filelen)) mem =
      let size' = if ltb filelen (add64 offset size) then sub64 filelen offset else size in
      if leb filelen offset then (0, mem) else read buf (add64 (add64 cursor 512) offset) size' mem

  -- `tarfs_read`
  unfoldable pub tarfs_read : (fuel header filename buf offset size : ℕ) → Memory → Run (ℕ × Memory)
  unfolding find_file read_file
  tarfs_read fuel header filename buf offset size mem =
      find_file fuel header filename 0 mem >>= λ (r, mem'). ok (read_file buf offset size r mem')
