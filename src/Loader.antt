-- ===== src/Loader.antt =====
-- kernel/ld.cpp and ld.h: the loader of programs. A file is read into a buffer from kmalloc,
-- its segments are copied to their addresses, and its relocations are applied. The file system is a
-- parameter: the results of fstat and read. Memory is bytes by their addresses; the pages of a segment
-- are mapped by the memory manager, whose state is kept with kmalloc's. The vectors of segments and
-- symbols are lists, and the output of kdebug is left out.
pub mod Elf
pub mod Image
pub mod Segments
mod Tests
use osdev_course.Common.{
  ℕ, zero, suc, ◌+◌, ◌-◌, ◌*◌, ◌/◌, ◌%◌, ◌^◌, Bool, true, false, Option, none, some, List, [], ◌∷◌,
  ◌++◌, ◌==◌, leb, ltb, if◌then◌else◌, add32, sub32, shr, shl32, update, Run, ok, fault,
  out_of_fuel, ◌>>=◌,
}
use osdev_course.Kstring.{Memory, kmemcpy, kmemset, kstrcmp}
use osdev_course.Kmalloc.{Kmalloc, kmalloc, kfree}
use osdev_course.Loader.Elf.{
  et_exec, em_386, pt_load, sht_rel, sht_synsym, r_386_32, r_386_pc32, r_386_relative, read16,
  read32, write32, Ehdr, ehdr, Phdr, phdr, Shdr, shdr, Sym, sym_at, Rel, rel_at,
}

-- `SEGMENT` and `SYMBOL`
pub record Segment : Type 0 where
  pub vaddr : ℕ
  pub base : ℕ
  pub size : ℕ

pub record Symbol : Type 0 where
  pub name : ℕ
  pub addr : ℕ

-- `ProgramLoader`
pub record Loader : Type 0 where
  pub segments : List Segment
  pub symbols : List Symbol
  pub entrypoint : ℕ

-- Whether an address is in a segment, by the loader's test.
abbrev pub covers : Segment → ℕ → Bool
covers seg v = if leb seg.vaddr v then leb v (add32 seg.vaddr seg.size) else false

-- `get_base`
pub get_base : List Segment → ℕ → ℕ
get_base [] v = 0
get_base (seg ∷ segs) v = if covers seg v then sub32 seg.base seg.vaddr else get_base segs v

-- `translate_addr`
pub translate_addr : List Segment → ℕ → ℕ
translate_addr [] v = 0
translate_addr (seg ∷ segs) v =
    if covers seg v then add32 (sub32 v seg.vaddr) seg.base else translate_addr segs v

-- `get_addr`
unfoldable pub get_addr : (fuel : ℕ) → List Symbol → (symbol : ℕ) → Memory → Run ℕ
unfolding kstrcmp
get_addr fuel [] symbol mem = ok 0
get_addr fuel (s ∷ symbols) symbol mem =
    let rest = get_addr fuel symbols symbol mem in
    kstrcmp fuel s.name symbol mem >>= λ r. if r == 0 then ok s.addr else rest

-- What the calls below change: the loader, memory, and the allocator with the memory manager.
pub record Machine (M : Type 0) : Type 0 where
  pub loader : Loader
  pub memory : Memory
  pub kernel : Kmalloc M

-- `writable m a` says that a write to the address ends, be it by way of a page fault that is served;
-- otherwise the page fault handler halts.
module _ {M : Type 0} (mmap : (mem paddr size flag : ℕ) → M → M) (writable : M → ℕ → Bool) where
  unfoldable pub all_writable : (a n : ℕ) → M → Bool
  all_writable a zero m = true
  all_writable a (suc n) m = if writable m a then all_writable (a + 1) n m else false

  -- A segment of the type PT_LOAD: its pages are mapped, the bytes of the file are copied, and the
  -- rest is filled with zeros.
  unfoldable pub place_segment : (buffer : ℕ) → Phdr → Machine M → Machine M
  unfolding kmemcpy kmemset
  place_segment buffer ph s =
      let base = ph.p_vaddr in
      let size = shl32 (shr (add32 ph.p_memsz 4095) 12) 12 in
      let l = record s.loader {
        segments = s.loader.segments ++ record { vaddr = base; base = base; size = size } ∷ [];
      } in
      let mem = (kmemcpy base (buffer + ph.p_offset) ph.p_filesz s.memory).1 in
      let filled = (kmemset (base + ph.p_filesz) 0 (ph.p_memsz - ph.p_filesz) mem).1 in
      record {
        loader = l;
        memory = if ltb ph.p_filesz ph.p_memsz then filled else mem;
        kernel = record s.kernel { mmu = mmap base 0 size 6 s.kernel.mmu };
      }

  -- The same, where the writes to the segment end.
  unfoldable pub load_segment : (buffer : ℕ) → Phdr → Machine M → Run (Machine M)
  unfolding place_segment all_writable
  load_segment buffer ph s =
      let s' = place_segment buffer ph s in
      if all_writable ph.p_vaddr ph.p_memsz s'.kernel.mmu then ok s' else fault

  -- A turn of the loop along the program headers: the count of headers, the i-th header, and the
  -- turns that follow.
  unfoldable pub load_turn :
      (buffer i phnum : ℕ)
      → Phdr
      → (Machine M → Run (Bool × Machine M))
      → Machine M
      → Run (Bool × Machine M)
  unfolding load_segment
  load_turn buffer i phnum ph rest s =
      let loaded = load_segment buffer ph s >>= rest in
      if ltb i phnum
      then (if ph.p_type == pt_load
          then (if ltb ph.p_memsz ph.p_filesz then ok (false, s) else loaded)
          else rest s)
      else ok (true, s)

  -- The loop. The header in the buffer is read in each turn.
  unfoldable pub load_segments : (fuel buffer i : ℕ) → Machine M → Run (Bool × Machine M)
  unfolding load_turn
  load_segments zero buffer i s = out_of_fuel
  load_segments (suc fuel) buffer i s =
      let eh = ehdr s.memory buffer in
      let ph = phdr s.memory (buffer + eh.e_phoff + i * eh.e_phentsize) in
      load_turn buffer i eh.e_phnum ph (load_segments fuel buffer (i + 1)) s

-- The tables that `relocate` looks for: the symbols, their count and their names, and the relocations.
pub record Tables : Type 0 where
  pub elf_sym : ℕ
  pub elf_sym_count : ℕ
  pub elf_sym_name : ℕ
  pub elf_rel : ℕ
  pub elf_rel_count : ℕ

-- The loop along the section headers, with the number of those left.
unfoldable pub find_tables : (left buffer at step : ℕ) → Memory → Tables → Tables
find_tables zero buffer at step mem t = t
find_tables (suc left) buffer at step mem t =
    let sh = shdr mem at in
    let symbols = record t {
      elf_sym = buffer + sh.sh_offset;
      elf_sym_count = sh.sh_size / 16;
      elf_sym_name = buffer + sh.sh_offset + sh.sh_size;
    } in
    let relocations = record t {
      elf_rel = buffer + sh.sh_offset;
      elf_rel_count = sh.sh_size / 8;
    } in
    find_tables left buffer (at + step) step mem (
      if sh.sh_type == sht_synsym
      then symbols
      else if sh.sh_type == sht_rel
      then relocations
      else t)

-- One relocation: the patched memory, or `none` where `relocate` returns false.
unfoldable pub patch : (fuel : ℕ) → Loader → Tables → Rel → Memory → Run (Option Memory)
unfolding get_addr
patch fuel l t rel mem =
    let kind = rel.r_info % 2 ^ 8 in
    let symbol = shr rel.r_info 8 in
    let sym = sym_at mem (t.elf_sym + symbol * 16) in
    let at = translate_addr l.segments rel.r_offset in
    let value = translate_addr l.segments sym.st_value in
    let named =
      if sym.st_value == 0
      then get_addr fuel l.symbols (t.elf_sym_name + sym.st_name) mem
      else ok value in
    let absolute =
      if value == 0 then none else some (write32 at (add32 (read32 mem at) value) mem) in
    let relative = named >>= λ value.
    ok (if value == 0 then none else some (write32 at (sub32 value (add32 at 4)) mem)) in
    let based = some (write32 at (add32 (read32 mem at) (get_base l.segments rel.r_offset)) mem) in
    if kind == r_386_32
    then (if leb t.elf_sym_count symbol then ok none else if at == 0 then ok none else ok absolute)
    else if kind == r_386_pc32
    then (if leb t.elf_sym_count symbol then ok none else if at == 0 then ok none else relative)
    else if kind == r_386_relative
    then (if at == 0 then ok none else ok based)
    else ok none

-- The loop along the relocations, with the number of those left.
unfoldable pub patch_all :
    (fuel left : ℕ) → Loader → Tables → (at : ℕ) → Memory → Run (Bool × Memory)
unfolding patch
patch_all fuel zero l t at mem = ok (true, mem)
patch_all fuel (suc left) l t at mem = patch fuel l t (rel_at mem at) mem >>= λ r. elim r [
  | none ↦ ok (false, mem)
  | some mem' ↦ patch_all fuel left l t (at + 8) mem'
]

-- The loop along the symbols that have names.
unfoldable pub find_symbols : (left : ℕ) → List Segment → (names at : ℕ) → Memory → List Symbol
find_symbols zero segs names at mem = []
find_symbols (suc left) segs names at mem =
    let sym = sym_at mem at in
    let rest = find_symbols left segs names (at + 16) mem in
    if sym.st_name == 0
    then rest
    else record { name = names + sym.st_name; addr = translate_addr segs sym.st_value } ∷ rest

-- `relocate`
unfoldable pub relocate : (fuel buffer : ℕ) → Loader → Memory → Run (Bool × Loader × Memory)
unfolding find_tables patch_all find_symbols
relocate fuel buffer l mem =
    let eh = ehdr mem buffer in
    let none_yet : Tables = record {
      elf_sym = 0;
      elf_sym_count = 0;
      elf_sym_name = 0;
      elf_rel = 0;
      elf_rel_count = 0;
    } in
    let t = find_tables eh.e_shnum buffer (buffer + eh.e_shoff) eh.e_shentsize mem none_yet in
    patch_all fuel t.elf_rel_count l t t.elf_rel mem >>= λ (done, mem).
    let symbols =
      l.symbols ++ find_symbols t.elf_sym_count l.segments t.elf_sym_name t.elf_sym mem in
    ok (done, if done then record l { symbols = symbols } else l, mem)

-- The tests on the header.
abbrev pub is_program : Ehdr → Bool
is_program eh =
    if eh.e_ident0 == 0x464C457F
    then (if eh.e_machine == em_386 then eh.e_type == et_exec else false)
    else false

module _ {M : Type 0} (mmap : (mem paddr size flag : ℕ) → M → M) (writable : M → ℕ → Bool) where
  -- The buffer goes back, whether the program was loaded or not.
  unfoldable pub release : (buffer : ℕ) → Bool → Machine M → Bool × Machine M
  unfolding kfree
  release buffer done s = (done, record s { kernel = kfree buffer s.kernel })

  -- `load_program`, once the file is in the buffer. The result of `relocate` is not tested.
  unfoldable pub load_file : (fuel buffer : ℕ) → Machine M → Run (Bool × Machine M)
  unfolding load_segments relocate release
  load_file fuel buffer s =
      let go = load_segments mmap writable fuel buffer 0 s >>= λ (done, s).
      let linked = relocate fuel buffer s.loader s.memory >>= λ (_, l, mem).
      let entry = translate_addr l.segments (ehdr mem buffer).e_entry in
      ok (
        release buffer true
          (record s { loader = record l { entrypoint = entry }; memory = mem })) in
      if done then linked else ok (release buffer false s) in
      if is_program (ehdr s.memory buffer) then go else ok (release buffer false s)

  module _ (vfs_fstat : (pathname : ℕ) → Memory → Bool × ℕ)
      (vfs_read : (pathname buffer offset size : ℕ) → Memory → ℕ × Memory) where
    -- `load_program`
    unfoldable pub load_program : (fuel pathname : ℕ) → Machine M → Run (Bool × Machine M)
    unfolding load_file kmalloc
    load_program fuel pathname s =
        let (found, filelen) = vfs_fstat pathname s.memory in
        let read : ℕ × Kmalloc M → Run (Bool × Machine M) = λ (buffer, k).
          let s = record s { kernel = k } in
          let (n, mem) = vfs_read pathname buffer 0 filelen s.memory in
          let s' = record s { memory = mem } in
          let file = load_file fuel buffer s' in
          if buffer == 0
          then ok (false, s)
          else if n == filelen
          then file
          else ok (release buffer false s') in
        let got : Run (Bool × Machine M) = elim (kmalloc mmap fuel filelen s.kernel) [
          | none ↦ out_of_fuel
          | some r ↦ read r
        ] in
        if found then got else ok (false, s)

-- `get_entrypoint`
pub get_entrypoint : Loader → ℕ
get_entrypoint l = l.entrypoint

-- `~ProgramLoader` gives the names back.
unfoldable pub unload : {M : Type 0} → List Symbol → Kmalloc M → Kmalloc M
unfolding kfree
unload [] k = k
unload (s ∷ symbols) k = unload symbols (if s.name == 0 then k else kfree s.name k)
