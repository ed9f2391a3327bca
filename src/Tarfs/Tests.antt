-- ===== src/Tarfs/Tests.antt =====
-- drivers/tarfs/tarfs.c run on inputs, and its theorems at inputs.
use osdev_course.Common.{
  ℕ, ◌+◌, ◌-◌, ◌^◌, ◌<◌, ◌≤◌, ◌≡◌, refl, ◌⊎◌, inl, none, some, [], ◌∷◌, arith, ◌==◌, leb, ltb,
  if◌then◌else◌, update, ok,
}
use osdev_course.Kstring.{Memory}
use osdev_course.Kstring.Text.{IsString}
use osdev_course.Tarfs.{tarfs_fstat, tarfs_read}
use osdev_course.Tarfs.Search.{
  File, IsHeader, Archive, lookup, tarfs_fstat-lookup, tarfs_read-lookup,
}

-- A disk with the file "a" of 3 bytes.
abbrev disk : ℕ → ℕ
disk i = if i == 0 then 97 else if i == 124 then 51 else if leb 512 i then 7 else 0

abbrev read : (buf offset size : ℕ) → Memory → ℕ × Memory
read buf offset size m = (
  size,
  λ z. if leb buf z then (if ltb z (buf + size) then disk (offset + (z - buf)) else m z) else m z,
)

abbrev a : File
a = record { name = 97 ∷ []; digits = 51 ∷ [] }

-- The header's buffer is at 4096, and the name "a" at 100.
a-IsHeader : IsHeader 1024 read 4096 0 a
a-IsHeader = record {
  got = λ m. omega arith;
  name = λ m. (refl, omega arith, omega arith, refl);
  digits = λ m. (refl, omega arith, omega arith, refl);
  octal = ((omega arith, omega arith), tt);
  outside = λ m z k. ground arith;
}

archive : Archive 1024 read 4096 0 (a ∷ [])
archive = (omega arith, omega arith, a-IsHeader, omega arith)

abbrev memory : Memory
memory = update (λ _. 0) 100 97

named : IsString memory 100 (97 ∷ [])
named = (refl, omega arith, omega arith, refl)

tarfs_fstat-lookup_example :
    (m' : Memory) × (tarfs_fstat 1024 read 2 4096 100 memory ≡ ok (some 3, m'))
    × ((z : ℕ) → (z < 4096) ⊎ (4096 + 511 ≤ z) → m' z ≡ memory z)
tarfs_fstat-lookup_example =
    tarfs_fstat-lookup 1024 read 4096 2 100 memory (97 ∷ []) (a ∷ []) archive
      (omega arith, omega arith, omega arith) named (inl (omega arith))

tarfs_read-lookup_example :
    (m' : Memory) × ((z : ℕ) → (z < 4096) ⊎ (4096 + 511 ≤ z) → m' z ≡ memory z)
    × (lookup (97 ∷ []) 0 (a ∷ []) ≡ none
        → tarfs_read 1024 read 2 4096 100 8192 1 5 memory ≡ ok (0, m'))
    × ((cursor len : ℕ)
        → lookup (97 ∷ []) 0 (a ∷ []) ≡ some (cursor, len)
        → cursor + 512 + 1 < 2 ^ 64
        → len < 2 ^ 64
        → tarfs_read 1024 read 2 4096 100 8192 1 5 memory
          ≡ ok (
              if leb len 1
              then (0, m')
              else read 8192 (cursor + 512 + 1) (if leb (1 + 5) len then 5 else len - 1) m'))
tarfs_read-lookup_example =
    tarfs_read-lookup 1024 read 4096 2 100 8192 1 5 memory (97 ∷ []) (a ∷ []) archive
      (omega arith, omega arith, omega arith) named (inl (omega arith)) (omega arith)
