-- ===== src/Loader/Segments.antt =====
-- `load_segments` of kernel/ld.cpp: the bytes of the file at the addresses of the segments.
use osdev_course.Common.{ℕ, ◌+◌, ◌/◌, Bool, ◌<◌, ◌≤◌, ◌≡◌, true, All, ok}
use osdev_course.Kstring.{Memory}
use osdev_course.Loader.Elf.{Phdr}
use osdev_course.Loader.{Segment, Machine, load_segments}
use osdev_course.Loader.Image.{header, header_count, IsLoad, IsOutside, IsImage}

-- The segments lie where the file says.
abbrev pub IsFixed : Segment → Type 0
IsFixed seg = seg.base ≡ seg.vaddr

-- One segment in memory: bytes of the file, then zeros.
pub record IsCopied (buffer : ℕ) (ph : Phdr) (mem mem' : Memory) : Type 0 where
  pub copied : (k : ℕ) → k < ph.p_filesz → mem' (ph.p_vaddr + k) ≡ mem (buffer + ph.p_offset + k)
  pub zeros : (k : ℕ) → ph.p_filesz ≤ k → k < ph.p_memsz → mem' (ph.p_vaddr + k) ≡ 0

-- What the loader relies on: after a call of mmap, a write to the pages asked for ends.
abbrev pub Opens : {M : Type 0} → ((mem paddr size flag : ℕ) → M → M) → (M → ℕ → Bool) → Type 0
Opens {M} mmap writable =
    (mem size a : ℕ) (m : M)
    → mem / 4096 ≤ a / 4096
    → a / 4096 < mem / 4096 + size / 4096
    → writable (mmap mem 0 size 6 m) a ≡ true

-- The segments of the headers from `i` to `count`, in memory.
pub record IsLoaded (file : Memory) (buffer i count : ℕ) (mem mem' : Memory) : Type 0 where
  pub segments :
      (j : ℕ)
      → i ≤ j
      → j < count
      → IsLoad (header file buffer j)
      → IsCopied buffer (header file buffer j) file mem'
  pub others :
      (z : ℕ)
      → ((j : ℕ)
          → i ≤ j
          → j < count
          → IsLoad (header file buffer j)
          → IsOutside (header file buffer j) z)
      → mem' z ≡ mem z

module _ {M : Type 0} (mmap : (mem paddr size flag : ℕ) → M → M) (writable : M → ℕ → Bool)
    (opens : Opens mmap writable) (file : Memory) (buffer n : ℕ)
    (image : IsImage file buffer n) where
  abbrev count : ℕ
  count = header_count file buffer

  abbrev Loads : (fuel i : ℕ) → Machine M → Type 0
  Loads fuel i s =
      (s' : Machine M) × ((load_segments mmap writable fuel buffer i s ≡ ok (true, s'))
        × IsLoaded file buffer i count s.memory s'.memory
        × (All IsFixed s.loader.segments → All IsFixed s'.loader.segments))
