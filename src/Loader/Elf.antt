-- ===== src/Loader/Elf.antt =====
-- kernel/elf.h: the structures of an ELF file that the loader reads, in memory as bytes.
use osdev_course.Common.{ℕ, ◌+◌, ◌*◌, ◌/◌, ◌%◌, ◌^◌, update}
use osdev_course.Kstring.{Memory}

-- The numbers of elf.h that the loader tests.
abbrev pub et_exec : ℕ
et_exec = 2

abbrev pub em_386 : ℕ
em_386 = 3

abbrev pub pt_load : ℕ
pt_load = 1

abbrev pub sht_rel : ℕ
sht_rel = 9

abbrev pub sht_synsym : ℕ
sht_synsym = 11

abbrev pub r_386_32 : ℕ
r_386_32 = 1

abbrev pub r_386_pc32 : ℕ
r_386_pc32 = 2

abbrev pub r_386_relative : ℕ
r_386_relative = 8

-- Numbers in memory, with the low byte first.
abbrev pub read16 : Memory → ℕ → ℕ
read16 mem a = mem a + 2 ^ 8 * mem (a + 1)

abbrev pub read32 : Memory → ℕ → ℕ
read32 mem a = read16 mem a + 2 ^ 16 * read16 mem (a + 2)

abbrev pub write32 : ℕ → ℕ → Memory → Memory
write32 a v mem =
    update
      (update (update (update mem a (v % 2 ^ 8)) (a + 1) (v / 2 ^ 8 % 2 ^ 8)) (a + 2)
        (v / 2 ^ 16 % 2 ^ 8))
      (a + 3) (v / 2 ^ 24 % 2 ^ 8)

-- `struct ELF32_EHDR`, at an address: the fields that the loader reads.
pub record Ehdr : Type 0 where
  pub e_ident0 : ℕ
  pub e_type : ℕ
  pub e_machine : ℕ
  pub e_entry : ℕ
  pub e_phoff : ℕ
  pub e_shoff : ℕ
  pub e_phentsize : ℕ
  pub e_phnum : ℕ
  pub e_shentsize : ℕ
  pub e_shnum : ℕ

abbrev pub ehdr : Memory → ℕ → Ehdr
ehdr mem a = record {
  e_ident0 = read32 mem a;
  e_type = read16 mem (a + 16);
  e_machine = read16 mem (a + 18);
  e_entry = read32 mem (a + 24);
  e_phoff = read32 mem (a + 28);
  e_shoff = read32 mem (a + 32);
  e_phentsize = read16 mem (a + 42);
  e_phnum = read16 mem (a + 44);
  e_shentsize = read16 mem (a + 46);
  e_shnum = read16 mem (a + 48);
}

-- `struct ELF32_PHDR`
pub record Phdr : Type 0 where
  pub p_type : ℕ
  pub p_offset : ℕ
  pub p_vaddr : ℕ
  pub p_filesz : ℕ
  pub p_memsz : ℕ

abbrev pub phdr : Memory → ℕ → Phdr
phdr mem a = record {
  p_type = read32 mem a;
  p_offset = read32 mem (a + 4);
  p_vaddr = read32 mem (a + 8);
  p_filesz = read32 mem (a + 16);
  p_memsz = read32 mem (a + 20);
}

-- `struct ELF32_SHDR`
pub record Shdr : Type 0 where
  pub sh_type : ℕ
  pub sh_offset : ℕ
  pub sh_size : ℕ

abbrev pub shdr : Memory → ℕ → Shdr
shdr mem a = record {
  sh_type = read32 mem (a + 4);
  sh_offset = read32 mem (a + 16);
  sh_size = read32 mem (a + 20);
}

-- `struct ELF32_SYM` and `struct ELF32_REL`
pub record Sym : Type 0 where
  pub st_name : ℕ
  pub st_value : ℕ

abbrev pub sym_at : Memory → ℕ → Sym
sym_at mem a = record { st_name = read32 mem a; st_value = read32 mem (a + 4) }

pub record Rel : Type 0 where
  pub r_offset : ℕ
  pub r_info : ℕ

abbrev pub rel_at : Memory → ℕ → Rel
rel_at mem a = record { r_offset = read32 mem a; r_info = read32 mem (a + 4) }
