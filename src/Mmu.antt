-- ===== src/Mmu.antt =====
-- kernel/arch/i686/mmu.c and mmu.h: the memory manager. It keeps a stack of free frames, and sees the
-- page tables of the address space in use through the directory's last entry, which is the
-- directory itself: the words from MMU_PT_VMA on are the entries of all pages, and the directory's
-- own words are the last 1024 of them. A frame and an entry are words. Interrupts are off while the
-- stack changes, so a call is one step; the cache of translations that INVLPG drops is not modelled.
pub mod Masks
pub mod Tables
pub mod Mark
pub mod Map
pub mod Fault
pub mod Owner
pub mod Release
pub mod Demand
pub mod Reserve
pub mod Unmap
pub mod Clone
pub mod Pool
pub mod Push
pub mod Range
pub mod Init
mod Tests
use osdev_course.Common.{
  ℕ, zero, suc, ◌+◌, ◌-◌, ◌*◌, ◌/◌, ◌%◌, ◌^◌, Bool, true, false, Option, none, some, List, [], ◌∷◌,
  bit_and, bit_or, ◌==◌, leb, ltb, ◌&&◌, if◌then◌else◌, add32, sub32, add64, wrap32, shr, shl64,
  update, Run, ok, fault, out_of_fuel, ◌>>=◌,
}
use osdev_course.Kstring.{Memory}

abbrev pub prot_present : ℕ
prot_present = 0x0001

abbrev pub prot_rw : ℕ
prot_rw = 0x0002

abbrev pub prot_user : ℕ
prot_user = 0x0004

abbrev pub prot_mask : ℕ
prot_mask = 0x0006

abbrev pub page_ondemand : ℕ
page_ondemand = 0x0100

abbrev pub page_noalloc : ℕ
page_noalloc = 0x0200

abbrev pub munmap_norelease : ℕ
munmap_norelease = 1

-- `MMU_PMA2VMA` and `MMU_VMA2PMA`
abbrev pub mmu_pma2vma : ℕ → ℕ
mmu_pma2vma pma = add32 pma 0xF0000000

abbrev pub mmu_vma2pma : ℕ → ℕ
mmu_vma2pma p = sub32 p 0xF0000000

-- The entries by the page's number, the directory MMU_PD of the boot while another one is in use
-- (`on_boot` tells whether it is in use itself), the stack of frames, and the bytes of memory.
pub record Mmu : Type 0 where
  pub entry : ℕ → ℕ
  pub boot_pd : ℕ → ℕ
  pub on_boot : Bool
  pub frames : ℕ → ℕ
  pub frames_index : ℕ
  pub memory : Memory

-- The number of the word that MMU_PT_PTR and MMU_PT_INDEX lead to, and that of MMU_PD_PTR's word.
abbrev pub tables : ℕ
tables = 0xFFC00

abbrev pub page_of : ℕ → ℕ
page_of addr = shr addr 12

abbrev pub table_of : ℕ → ℕ
table_of page = tables + page / 1024 % 1024

-- `mmu_alloc`; 0 when there is no frame.
unfoldable pub mmu_alloc : Mmu → ℕ × Mmu
mmu_alloc s =
    let index = s.frames_index - 1 in
    if ltb 0 s.frames_index then (s.frames index, record s { frames_index = index }) else (0, s)

-- A page is filled with zeros: the bytes of memory, or the 1024 entries that a page of the tables
-- holds.
unfoldable pub zero_page : ℕ → Mmu → Mmu
zero_page page s =
    if leb tables page
    then record s { entry = λ p. if p / 1024 == page - tables then 0 else s.entry p }
    else record s { memory = λ a. if a / 4096 == page then 0 else s.memory a }

-- `MMU_PD[i] = pd[i]` from the middle of the directory on.
unfoldable pub share_entry : ℕ → Mmu → Mmu
share_entry i s =
    if leb 512 i
    then (if s.on_boot then s else record s { boot_pd = update s.boot_pd i (s.entry (tables + i)) })
    else s

-- What `INT_0E` does for a page that is there on demand: a frame is taken from the stack, mapped
-- with the protection of the page, and filled with zeros. Without a frame left it is the frame at
-- address 0. Pages that share it are still apart here, so the theorems on calls that may need several
-- frames ask for as many free ones.
unfoldable pub serve_page : (page : ℕ) → Mmu → Mmu
unfolding mmu_alloc zero_page share_entry
serve_page page s =
    let (frame, s) = mmu_alloc s in
    let prot = bit_and (s.entry page) prot_mask in
    let e = bit_or (bit_or frame prot) prot_present in
    share_entry (page / 1024 % 1024) (zero_page page (record s { entry = update s.entry page e }))

-- `INT_0E` for an address in the page, whose page table is there. The two dead ends halt.
unfoldable pub page_fault : (code page : ℕ) → Mmu → Run Mmu
unfolding serve_page
page_fault code page s =
    if bit_and code 1 == 0
    then (if bit_and (s.entry page) page_ondemand == 0 then fault else ok (serve_page page s))
    else fault

-- The kernel reads or writes the entry of a page. If the page table is not there, that is a page
-- fault on the entry's address, in the page of the tables that the directory's word maps.
unfoldable pub touch : ℕ → Mmu → Run Mmu
unfolding page_fault
touch page s =
    let table = table_of page in
    if bit_and (s.entry table) prot_present == 0 then page_fault 0 table s else ok s

-- `INT_0E`
unfoldable pub int_0e : (code addr : ℕ) → Mmu → Run Mmu
unfolding touch page_fault
int_0e code addr s = touch (page_of addr) s >>= λ s. page_fault code (page_of addr) s

-- `mmu_mark` first makes sure that there can be a page table.
unfoldable pub demand_table : ℕ → Mmu → Mmu
demand_table page s =
    let table = table_of page in
    if bit_and (s.entry table) (bit_or prot_present page_ondemand) == 0
    then record s { entry = update s.entry table (bit_or (bit_or page_ondemand prot_rw) prot_user) }
    else s

-- The new entry of `mmu_mark`, if it does not fail.
unfoldable pub marked : (old paddr flag : ℕ) → Option ℕ
marked old paddr flag =
    if bit_and old prot_present == 0
    then (if bit_and flag page_noalloc == 0
        then some (bit_or page_ondemand (bit_and flag prot_mask))
        else some (bit_or (bit_or paddr (bit_and flag prot_mask)) prot_present))
    else (if bit_and flag page_noalloc == 0
        then some (bit_or (bit_and old 0xFFFFFFF9) (bit_and flag prot_mask))
        else none)

unfoldable pub set_entry : ℕ → Option ℕ → Mmu → Bool × Mmu
set_entry page none s = (false, s)
set_entry page (some e) s = (true, record s { entry = update s.entry page e })

-- `mmu_mark`
unfoldable pub mmu_mark : (addr paddr flag : ℕ) → Mmu → Run (Bool × Mmu)
unfolding demand_table touch marked set_entry
mmu_mark addr paddr flag s =
    let page = page_of addr in
    touch page (demand_table page s) >>= λ s.
    ok (set_entry page (marked (s.entry page) paddr flag) s)

-- `mmu_mmap`, from the offset that its loop has reached.
unfoldable pub mmap_from : (fuel mem paddr size flag off : ℕ) → Mmu → Run (Bool × Mmu)
unfolding mmu_mark
mmap_from zero mem paddr size flag off s = out_of_fuel
mmap_from (suc fuel) mem paddr size flag off s =
    let go = mmu_mark (add32 mem off) (add32 paddr off) flag s >>= λ (done, s).
    let rest = mmap_from fuel mem paddr size flag (add32 off 4096) s in
    if done then rest else ok (false, s) in
    if ltb off size then go else ok (true, s)

unfoldable pub mmu_mmap : (fuel mem paddr size flag : ℕ) → Mmu → Run (Bool × Mmu)
unfolding mmap_from
mmu_mmap fuel mem paddr size flag s = mmap_from fuel mem paddr size flag 0 s

-- The processor reads or writes a word of a page.
unfoldable pub read_page : ℕ → Mmu → Run Mmu
unfolding touch page_fault
read_page page s = touch page s >>= λ s.
    if bit_and (s.entry page) prot_present == 0 then page_fault 0 page s else ok s

-- `MMU_FRAMEPOOL_VMA`
abbrev pub framepool_vma : ℕ
framepool_vma = 0xFF800000

-- `MMU_frames[MMU_frames_index] = addr; MMU_frames_index++;`, with the word that is written.
abbrev pub put_back : (at addr : ℕ) → Mmu → Mmu
put_back at addr s = record s {
  frames = update s.frames at addr;
  frames_index = add32 s.frames_index 1;
}

-- `mmu_free`. The write may raise a page fault in the pool, which takes a frame off the stack. Behind
-- the pool's 4 MiB are the page tables; a write there is a dead end of the model.
unfoldable pub mmu_free : ℕ → Mmu → Run Mmu
unfolding read_page
mmu_free addr s =
    let at = s.frames_index in
    let freed =
      read_page (page_of (add32 framepool_vma (at * 4))) s >>= λ s. ok (put_back at addr s) in
    if ltb at (2 ^ 20) then freed else fault

-- One page of `mmu_munmap`: its entry is cleared, and its frame goes back to the stack.
unfoldable pub unmark : (page flag : ℕ) → Mmu → Run Mmu
unfolding mmu_free
unmark page flag s =
    let e = s.entry page in
    let frame = bit_and e 0xFFFFF000 in
    let cleared = record s { entry = update s.entry page 0 } in
    let freed = mmu_free frame cleared in
    if bit_and e prot_present == 0
    then ok cleared
    else if bit_and flag munmap_norelease == 0
    then (if frame == 0 then ok cleared else freed)
    else ok cleared

unfoldable pub munmap_from : (fuel mem size flag off : ℕ) → Mmu → Run (Bool × Mmu)
unfolding touch unmark
munmap_from zero mem size flag off s = out_of_fuel
munmap_from (suc fuel) mem size flag off s =
    let page = page_of (add32 mem off) in
    let go = touch page s >>= λ s.
    unmark page flag s >>= λ s. munmap_from fuel mem size flag (add32 off 4096) s in
    if ltb off size then go else ok (true, s)

-- `mmu_munmap`
unfoldable pub mmu_munmap : (fuel mem size flag : ℕ) → Mmu → Run (Bool × Mmu)
unfolding munmap_from
mmu_munmap fuel mem size flag s = munmap_from fuel mem size flag 0 s

-- A word of MMU_PD.
abbrev pub boot_entry : Mmu → ℕ → ℕ
boot_entry s i = if s.on_boot then s.entry (tables + i) else s.boot_pd i

-- `KADDR_CLONDPD`
abbrev pub kaddr_clonepd : ℕ
kaddr_clonepd = 0xEFFFF000

-- The words that `mmu_clone_pagedir` writes into the frame of the new directory.
unfoldable pub clone_words : ℕ → Mmu → ℕ → ℕ
clone_words frame s i = if i == 1023 then add32 frame 3 else if leb 512 i then boot_entry s i else 0

-- `mmu_clone_pagedir`, once it has a frame: the frame and its words, `none` where it returns 0.
unfoldable pub clone_into : (fuel frame : ℕ) → Mmu → Run (Option (ℕ × (ℕ → ℕ)) × Mmu)
unfolding mmu_free mmu_mmap mmu_munmap clone_words
clone_into fuel frame s = mmu_mmap fuel kaddr_clonepd frame 4096 page_noalloc s >>= λ (done, s).
    let fill = mmu_munmap fuel kaddr_clonepd 4096 munmap_norelease s >>= λ (_, s').
    ok (some (frame, clone_words frame s), s') in
    let failed = mmu_free frame s >>= λ s. ok (none, s) in if done then fill else failed

-- `mmu_clone_pagedir`
unfoldable pub mmu_clone_pagedir : (fuel : ℕ) → Mmu → Run (Option (ℕ × (ℕ → ℕ)) × Mmu)
unfolding mmu_alloc clone_into
mmu_clone_pagedir fuel s =
    let (frame, s) = mmu_alloc s in
    let go = clone_into fuel frame s in if frame == 0 then ok (none, s) else go

-- `struct MULTIBOOT_BOOTINFO_MMAP`
pub record MmapEntry : Type 0 where
  pub addr : ℕ
  pub len : ℕ
  pub kind : ℕ

-- `MMU_frames[MMU_frames_index] = (uint32_t)start; MMU_frames_index++;`
abbrev pub put_frame : (start : ℕ) → Mmu → Mmu
put_frame start s = record s {
  frames = update s.frames s.frames_index (wrap32 start);
  frames_index = add32 s.frames_index 1;
}

-- One turn of the inner loop of `mmu_init`, for a frame that is not skipped: the pool first grows
-- by a page where the stack needs one. `pt_index` is the last page of the pool that is there.
unfoldable pub push_frame : (start pt_index : ℕ) → Mmu → Run (ℕ × Mmu)
unfolding mmu_mark read_page
push_frame start pt_index s =
    let used = shr s.frames_index 10 in
    let at = add32 framepool_vma (s.frames_index * 4) in
    let grown = mmu_mark at 0 page_ondemand s >>= λ (_, s). read_page (page_of at) s in
    (if pt_index == used then ok s else grown) >>= λ s. ok (used, put_frame start s)

-- The frames from `start` to `end`, without those below the kernel's end and those from 4 GiB on.
unfoldable pub add_range : (fuel kend start end pt_index : ℕ) → Mmu → Run (ℕ × Mmu)
unfolding push_frame
add_range zero kend start end pt_index s = out_of_fuel
add_range (suc fuel) kend start end pt_index s =
    let skipped = add_range fuel kend (add64 start 4096) end pt_index s in
    let pushed = push_frame start pt_index s >>= λ (pt_index, s).
    add_range fuel kend (add64 start 4096) end pt_index s in
    if ltb start end
    then (if ltb start kend then skipped else if leb (2 ^ 32) start then skipped else pushed)
    else ok (pt_index, s)

-- The outer loop, along the map that the boot loader passes.
unfoldable pub add_ranges : (fuel kend : ℕ) → List MmapEntry → ℕ → Mmu → Run (ℕ × Mmu)
unfolding add_range
add_ranges fuel kend [] pt_index s = ok (pt_index, s)
add_ranges fuel kend (m ∷ map) pt_index s =
    let start = shl64 (shr (add64 m.addr 4095) 12) 12 in
    let end = shl64 (shr (add64 m.addr m.len) 12) 12 in
    let skipped = add_ranges fuel kend map pt_index s in
    let added = add_range fuel kend start end pt_index s >>= λ (pt_index, s).
    add_ranges fuel kend map pt_index s in
    if m.kind == 1 then added else skipped

module _ (mmu_pd framepool_pt framepool_firstpage kernel_end : ℕ) where
  -- The first part of `mmu_init`: the directory maps itself and the pool, which has one page. The
  -- parameters are the addresses of MMU_PD, of the pool's table and page, and of `_kernel_end`.
  unfoldable pub install : Mmu → Mmu
  install s =
      let e = update s.entry (tables + 1023) (add32 (mmu_vma2pma mmu_pd) 3) in
      let e = update e (tables + 1022) (add32 (mmu_vma2pma framepool_pt) 3) in
      record s {
        entry = update e (page_of framepool_vma) (add32 (mmu_vma2pma framepool_firstpage) 3);
        on_boot = true;
        frames_index = 0;
      }

  -- `mmu_init`
  unfoldable pub mmu_init : (fuel : ℕ) → List MmapEntry → Mmu → Run (Bool × Mmu)
  unfolding install add_ranges
  mmu_init fuel map s =
      let kend = add32 (mmu_vma2pma kernel_end) 4096 in
      add_ranges fuel kend map 0 (install s) >>= λ (_, s). ok (true, s)
