-- ===== src/Loader/Image.antt =====
-- The program headers of kernel/ld.cpp: what they ask for, and that they stay while other memory changes.
use osdev_course.Common.{ℕ, ◌+◌, ◌*◌, ◌/◌, ◌%◌, ◌^◌, ◌<◌, ◌≤◌, ◌≡◌, ◌⊎◌, refl, arith}
use osdev_course.Kstring.{Memory}
use osdev_course.Kstring.Copy.{Apart}
use osdev_course.Loader.Elf.{ehdr, Phdr, phdr, read16, read32, pt_load}

-- Two states of memory agree on `n` bytes from `a` on.
abbrev pub Agree : (a n : ℕ) → Memory → Memory → Type 0
Agree a n mem mem' = (z : ℕ) → a ≤ z → z < a + n → mem' z ≡ mem z

read16-same :
    (a n at : ℕ) (mem mem' : Memory)
    → Agree a n mem mem'
    → a ≤ at
    → at + 2 ≤ a + n
    → read16 mem' at ≡ read16 mem at
read16-same a n at mem mem' same low high =
    rw (same at low (omega arith), same (at + 1) (omega arith) (omega arith)) refl

read32-same :
    (a n at : ℕ) (mem mem' : Memory)
    → Agree a n mem mem'
    → a ≤ at
    → at + 4 ≤ a + n
    → read32 mem' at ≡ read32 mem at
read32-same a n at mem mem' same low high =
    let l = read16-same a n at mem mem' same low (omega arith) in
    let h = read16-same a n (at + 2) mem mem' same (omega arith) (omega arith) in
    λ i. l i + 2 ^ 16 * h i

pub ehdr-same :
    (a n : ℕ) (mem mem' : Memory) → Agree a n mem mem' → 52 ≤ n → ehdr mem' a ≡ ehdr mem a
ehdr-same a n mem mem' same fits =
    let r16 : (k : ℕ) → k + 2 ≤ n → read16 mem' (a + k) ≡ read16 mem (a + k) =
      λ k h. read16-same a n (a + k) mem mem' same (omega arith) (omega arith) in
    let r32 : (k : ℕ) → k + 4 ≤ n → read32 mem' (a + k) ≡ read32 mem (a + k) =
      λ k h. read32-same a n (a + k) mem mem' same (omega arith) (omega arith) in
    λ i. record {
      e_ident0 = read32-same a n a mem mem' same (omega arith) (omega arith) i;
      e_type = r16 16 (omega arith) i;
      e_machine = r16 18 (omega arith) i;
      e_entry = r32 24 (omega arith) i;
      e_phoff = r32 28 (omega arith) i;
      e_shoff = r32 32 (omega arith) i;
      e_phentsize = r16 42 (omega arith) i;
      e_phnum = r16 44 (omega arith) i;
      e_shentsize = r16 46 (omega arith) i;
      e_shnum = r16 48 (omega arith) i;
    }

pub phdr-same :
    (a n at : ℕ) (mem mem' : Memory)
    → Agree a n mem mem'
    → a ≤ at
    → at + 32 ≤ a + n
    → phdr mem' at ≡ phdr mem at
phdr-same a n at mem mem' same low high =
    let r32 : (k : ℕ) → k + 4 ≤ 32 → read32 mem' (at + k) ≡ read32 mem (at + k) =
      λ k h. read32-same a n (at + k) mem mem' same (omega arith) (omega arith) in
    λ i. record {
      p_type = read32-same a n at mem mem' same low (omega arith) i;
      p_offset = r32 4 (omega arith) i;
      p_vaddr = r32 8 (omega arith) i;
      p_filesz = r32 16 (omega arith) i;
      p_memsz = r32 20 (omega arith) i;
    }

-- The program header of a number.
abbrev pub header : Memory → (buffer j : ℕ) → Phdr
header mem buffer j =
    phdr mem (buffer + (ehdr mem buffer).e_phoff + j * (ehdr mem buffer).e_phentsize)

abbrev pub header_count : Memory → (buffer : ℕ) → ℕ
header_count mem buffer = (ehdr mem buffer).e_phnum

-- The header asks for a segment.
abbrev pub IsLoad : Phdr → Type 0
IsLoad ph = ph.p_type ≡ pt_load

-- An address that is not the segment's.
abbrev pub IsOutside : Phdr → ℕ → Type 0
IsOutside ph z = (z < ph.p_vaddr) ⊎ (ph.p_vaddr + ph.p_memsz ≤ z)

-- The segment ends in the pages that the loader maps, which are counted from its first page but for
-- its size only: a segment that does not begin a page may need one more.
pub record HasPages (ph : Phdr) : Type 0 where
  pub below : ph.p_vaddr + ph.p_memsz + 4095 < 2 ^ 32
  pub pages : ph.p_vaddr % 4096 + ph.p_memsz ≤ (ph.p_memsz + 4095) / 4096 * 4096

-- A file of `n` bytes in the buffer whose headers and segments are in the file, and whose segments
-- lie apart from each other and from the buffer.
pub record IsImage (mem : Memory) (buffer n : ℕ) : Type 0 where
  pub header_fits : 52 ≤ n
  pub in_memory : buffer + n < 2 ^ 32
  pub room :
      (j : ℕ)
      → j < header_count mem buffer
      → IsLoad (header mem buffer j)
      → HasPages (header mem buffer j)
  pub table_fits :
      (j : ℕ)
      → j < header_count mem buffer
      → (ehdr mem buffer).e_phoff + j * (ehdr mem buffer).e_phentsize + 32 ≤ n
  pub sizes :
      (j : ℕ)
      → j < header_count mem buffer
      → IsLoad (header mem buffer j)
      → (header mem buffer j).p_filesz ≤ (header mem buffer j).p_memsz
  pub bytes_fit :
      (j : ℕ)
      → j < header_count mem buffer
      → IsLoad (header mem buffer j)
      → (header mem buffer j).p_offset + (header mem buffer j).p_filesz ≤ n
  pub off_buffer :
      (j : ℕ)
      → j < header_count mem buffer
      → IsLoad (header mem buffer j)
      → Apart (header mem buffer j).p_vaddr (header mem buffer j).p_memsz buffer n
  pub apart :
      (i j : ℕ)
      → i < j
      → j < header_count mem buffer
      → IsLoad (header mem buffer i)
      → IsLoad (header mem buffer j)
      → Apart
          (header mem buffer i).p_vaddr
          (header mem buffer i).p_memsz
          (header mem buffer j).p_vaddr
          (header mem buffer j).p_memsz
