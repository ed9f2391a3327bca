-- ===== src/Bga.antt =====
-- drivers/bga/bga.c: the display of the Bochs graphics adapter, in three modes of 32 bits per pixel.
-- The ports are parameters, as for the PCI driver, with outw beside them; the address space comes
-- from vma_alloc, and its pages are mapped by the memory manager. No device, driver or mode pointer
-- is NULL here; a driver is its address.
pub mod Screen
pub mod Mode
mod Tests
use osdev_course.Common.{
  ℕ, zero, suc, ◌+◌, ◌-◌, ◌*◌, ◌/◌, ◌%◌, ◌^◌, Bool, true, false, Option, none, some, List, [], ◌∷◌,
  bit_and, bit_or, ◌==◌, leb, ltb, if◌then◌else◌, add32, shl32, wrap32, update, get_elem?, Run, ok,
  fault, ◌>>=◌,
}
use osdev_course.Heap.{Heap, vma_alloc}
use osdev_course.Pci.{PciAddr, PciInfo, pci_get_bar}
use osdev_course.Mmu.{Mmu, mmu_mmap, mmu_munmap, munmap_norelease, page_noalloc}

-- `struct DISPLAY_MODEINFO`
pub record ModeInfo : Type 0 where
  pub mode : ℕ
  pub width : ℕ
  pub height : ℕ
  pub bpp : ℕ
  pub pitch : ℕ

-- `struct DISPLAY_DEVICE`
pub record Display : Type 0 where
  pub driver : ℕ
  pub pci_driver : ℕ
  pub pci_addr : PciAddr
  pub pci_info : PciInfo
  pub info : ModeInfo
  pub frame_buffer : ℕ
  pub frame_buffer_size : ℕ

abbrev pub no_mode : ModeInfo
no_mode = record { mode = 0; width = 0; height = 0; bpp = 0; pitch = 0 }

-- `__bga_allowed_mode`
abbrev pub allowed_mode : List ModeInfo
allowed_mode =
    record { mode = 0; width = 640; height = 480; bpp = 32; pitch = 640 * 4 }
    ∷ record { mode = 1; width = 800; height = 600; bpp = 32; pitch = 800 * 4 }
    ∷ record { mode = 2; width = 1024; height = 768; bpp = 32; pitch = 1024 * 4 }
    ∷ []

-- `bga_get_maxmode`
abbrev pub bga_get_maxmode : ℕ
bga_get_maxmode = 2

-- `bga_open`
unfoldable pub bga_open :
    (driver : ℕ) → Display → (pci_driver : ℕ) → PciAddr → PciInfo → Bool × Display
bga_open driver device pci_driver addr info =
    let opened : Display = record {
      driver = driver;
      pci_driver = pci_driver;
      pci_addr = addr;
      pci_info = info;
      info = no_mode;
      frame_buffer = 0;
      frame_buffer_size = 0;
    } in
    if info.class_code == 3
    then (if info.subclass_code == 0
        then (if info.device_id == 0x1111
            then (if info.vendor_id == 0x1234 then (true, opened) else (false, device))
            else (false, device))
        else (false, device))
    else (false, device)

-- `bga_close`
unfoldable pub bga_close : Display → Bool × Display
bga_close device = (
  true,
  record {
    driver = 0;
    pci_driver = 0;
    pci_addr = record { bus_id = 0; slot_id = 0; func_id = 0 };
    pci_info = record {
      device_id = 0;
      vendor_id = 0;
      class_code = 0;
      subclass_code = 0;
      revision_id = 0;
    };
    info = no_mode;
    frame_buffer = 0;
    frame_buffer_size = 0;
  },
)

-- `bga_get_modeinfo`: what `*info` holds then.
unfoldable pub bga_get_modeinfo : (mode : ℕ) → ModeInfo → Bool × ModeInfo
bga_get_modeinfo mode info =
    let found : ModeInfo = elim (get_elem? allowed_mode mode) [ none ↦ info | some i ↦ i ] in
    if ltb bga_get_maxmode mode then (false, info) else (true, found)

module _ {S : Type 0} (outw : ℕ → ℕ → S → S) where
  -- One register of the adapter.
  abbrev pub set_register : (index value : ℕ) → S → S
  set_register index value s = outw 0x01CF value (outw 0x01CE index s)

  -- The registers of a mode: the display is off while they change.
  unfoldable pub set_registers : ModeInfo → S → S
  set_registers i s =
      let s = set_register 1 (i.width % 2 ^ 16) (set_register 4 0 s) in
      let s = set_register 3 (i.bpp % 2 ^ 16) (set_register 2 (i.height % 2 ^ 16) s) in
      set_register 4 0x41 s

-- The bytes that a mode's frame buffer is given.
unfoldable pub frame_buffer_bytes : ModeInfo → ℕ
frame_buffer_bytes i = wrap32 (i.pitch * i.height * (i.bpp / 8))

-- The frame buffer of the mode before is unmapped.
unfoldable pub unmap_previous : (fuel : ℕ) → Display → Mmu → Run (Display × Mmu)
unfolding mmu_munmap
unmap_previous fuel d m =
    let unmapped =
      mmu_munmap fuel d.frame_buffer d.frame_buffer_size munmap_norelease m >>= λ (_, m).
      ok (record d { frame_buffer_size = 0 }, m) in
    if d.frame_buffer_size == 0 then ok (d, m) else unmapped

module _ (mmap : (mem paddr size flag : ℕ) → Mmu → Mmu) where
  -- The frame buffer gets an address, if it has none.
  unfoldable pub place_buffer : (bytes : ℕ) → Display → Heap → Mmu → Display × Heap × Mmu
  unfolding vma_alloc
  place_buffer bytes d heap m =
      let (at, heap', m') = vma_alloc mmap heap bytes m in
      if d.frame_buffer == 0 then (record d { frame_buffer = at }, heap', m') else (d, heap, m)

  -- The frame buffer of the adapter, at `bar`, is mapped.
  unfoldable pub map_buffer :
      (fuel bar size : ℕ) → Display → Heap → Mmu → Run (Bool × Display × Heap × Mmu)
  unfolding unmap_previous place_buffer frame_buffer_bytes mmu_mmap
  map_buffer fuel bar size d heap m = do
    (d, m) ← unmap_previous fuel d m
    let bar = bit_and bar 0xFFFFFFF0
    let bytes = frame_buffer_bytes d.info
    let size = if ltb bytes size then bytes else size
    let (d, heap, m) = place_buffer bytes d heap m
    let d = record d { frame_buffer_size = size }
    (done, m) ← mmu_mmap fuel d.frame_buffer bar size page_noalloc m
    ok (done, d, heap, m)

module _ {S : Type 0} (mmap : (mem paddr size flag : ℕ) → Mmu → Mmu) where
  -- The end of `bga_set_mode`, with what `get_bar` returned.
  unfoldable pub use_bar :
      (fuel : ℕ)
      → Display
      → Bool × Option ℕ × Option ℕ × S
      → Heap
      → Mmu
      → Run (Bool × Display × S × Heap × Mmu)
  unfolding map_buffer
  use_bar fuel d (false, bar, size, s) heap m = ok (false, d, s, heap, m)
  use_bar fuel d (true, some bar, some size, s) heap m =
      map_buffer mmap fuel bar size d heap m >>= λ (done, d, heap, m). ok (done, d, s, heap, m)
  use_bar fuel d (true, bar, size, s) heap m = fault

module _ {S : Type 0} (inl : ℕ → S → ℕ × S) (outl outw : ℕ → ℕ → S → S)
    (mmap : (mem paddr size flag : ℕ) → Mmu → Mmu) where
  -- `bga_set_mode` with the result of `bga_get_modeinfo`.
  unfoldable pub change_mode :
      (fuel mode : ℕ)
      → Bool × ModeInfo
      → Display
      → S
      → Heap
      → Mmu
      → Run (Bool × Display × S × Heap × Mmu)
  unfolding set_registers pci_get_bar use_bar
  change_mode fuel mode (false, info) d s heap m = ok (false, d, s, heap, m)
  change_mode fuel mode (true, info) d s heap m =
      use_bar mmap fuel (record d { info = record info { mode = mode } })
        (pci_get_bar inl outl d.pci_addr 0 true (set_registers outw info s)) heap m

  -- `bga_set_mode`, with the kernel's heap of addresses.
  unfoldable pub bga_set_mode :
      (fuel mode : ℕ) → Display → S → Heap → Mmu → Run (Bool × Display × S × Heap × Mmu)
  unfolding bga_get_modeinfo change_mode
  bga_set_mode fuel mode d s heap m =
      change_mode fuel mode (bga_get_modeinfo mode d.info) d s heap m

-- The colour of a pixel.
unfoldable pub colour : ModeInfo → (x y : ℕ) → ℕ
colour i x y =
    let all = add32 (wrap32 (i.width * i.width)) (wrap32 (i.height * i.height)) in
    let r = wrap32 (255 * x) / i.width in
    let g = wrap32 (255 * y) / i.height in
    let b = wrap32 (255 * add32 (wrap32 (x * x)) (wrap32 (y * y))) / all in
    bit_or (bit_or (bit_or 0xFF000000 (shl32 r 16)) (shl32 g 8)) b

-- The inner loop, for the pixels left in a line. Memory is words here, by their addresses.
unfoldable pub clear_line : (left : ℕ) → ModeInfo → (x y p : ℕ) → (ℕ → ℕ) → ℕ × (ℕ → ℕ)
unfolding colour
clear_line zero i x y p words = (p, words)
clear_line (suc left) i x y p words =
    clear_line left i (x + 1) y (add32 p 4) (update words p (colour i x y))

-- The outer loop, for the lines left.
unfoldable pub clear_lines : (left : ℕ) → ModeInfo → (y p : ℕ) → (ℕ → ℕ) → ℕ → ℕ
unfolding clear_line
clear_lines zero i y p words = words
clear_lines (suc left) i y p words =
    let (p, words) = clear_line i.width i 0 y p words in clear_lines left i (y + 1) p words

-- `bga_clear_screen`
unfoldable pub bga_clear_screen : Display → (ℕ → ℕ) → Bool × (ℕ → ℕ)
unfolding clear_lines
bga_clear_screen d words = (true, clear_lines d.info.height d.info 0 d.frame_buffer words)
