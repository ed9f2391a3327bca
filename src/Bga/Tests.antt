-- ===== src/Bga/Tests.antt =====
-- drivers/bga/bga.c run on inputs, and its theorems at inputs.
use osdev_course.Common.{ℕ, ◌+◌, ◌*◌, ◌≡◌, refl, true, ◌==◌, if◌then◌else◌, arith, ok}
use osdev_course.Heap.{kheap_vmaalloc}
use osdev_course.Pci.{PciAddr, PciInfo}
use osdev_course.Mmu.{Mmu}
use osdev_course.Mmu.Owner.{IsOwned}
use osdev_course.Bga.{
  ModeInfo, Display, no_mode, bga_open, bga_get_modeinfo, frame_buffer_bytes, bga_set_mode,
  bga_clear_screen,
}
use osdev_course.Bga.Mode.{mapped_bytes, IsShown, bga_set_mode-IsShown}
use osdev_course.Bga.Screen.{IsPicture, bga_clear_screen-IsPicture}

abbrev adapter : PciInfo
adapter = record {
  device_id = 0x1111;
  vendor_id = 0x1234;
  class_code = 3;
  subclass_code = 0;
  revision_id = 0;
}

abbrev slot : PciAddr
slot = record { bus_id = 0; slot_id = 2; func_id = 0 }

abbrev closed : Display
closed = record {
  driver = 0;
  pci_driver = 0;
  pci_addr = slot;
  pci_info = adapter;
  info = no_mode;
  frame_buffer = 0;
  frame_buffer_size = 0;
}

abbrev opened : Display
opened = record closed { driver = 1; pci_driver = 2 }

opens : bga_open 1 closed 2 slot adapter ≡ (true, opened)
unfolding bga_open
opens = refl

abbrev small : ModeInfo
small = record { mode = 0; width = 640; height = 480; bpp = 32; pitch = 2560 }

-- The adapter has 16 MB at 0xFD000000: the first read gives the address, the second the mask.
abbrev adapter_inl : ℕ → ℕ → ℕ × ℕ
adapter_inl port n = (if n == 0 then 0xFD000008 else 0xFF000000, n + 1)

abbrev silent : ℕ → ℕ → ℕ → ℕ
silent port value n = n

-- Only the directory is mapped, in the kernel's image, which ends at 0x3000.
abbrev nothing_mapped : Mmu
nothing_mapped = record {
  entry = λ p. if p == 0xFFFFF then 0x1003 else 0;
  boot_pd = λ i. 0;
  on_boot = true;
  frames = λ i. (i + 16) * 4096;
  frames_index = 2000;
  memory = λ a. 0;
}

nothing_mapped-IsOwned : IsOwned 0x3000 nothing_mapped
nothing_mapped-IsOwned = record {
  directory = refl;
  aligned = λ i lt. omega arith;
  above = λ i lt. omega arith;
  stacked = λ i j lt lj e. omega (arith, e);
  unused = λ i p lt lp m e. ground (arith, m.here, e, lt);
  once = λ p q lp lq mp mq own e. ground (arith, mp.here, mq.here);
}

abbrev keep : ℕ → ℕ → ℕ → ℕ → Mmu → Mmu
keep mem paddr size flag m = m

bga_set_mode-IsShown_example :
    (d' : Display) × (m' : Mmu) × ((bga_set_mode adapter_inl silent silent keep 2000 0 opened 0
          kheap_vmaalloc nothing_mapped
        ≡ ok (true, d', 2, record kheap_vmaalloc { ptr = frame_buffer_bytes small }, m'))
      × (d'.info ≡ small)
      × IsShown keep 0xFD000 (mapped_bytes 0x1000000 small) nothing_mapped d' m')
unfolding bga_get_modeinfo frame_buffer_bytes bga_set_mode
bga_set_mode-IsShown_example =
    bga_set_mode-IsShown adapter_inl silent silent keep 0x3000 2000 0 0xFD000008 0xFD000 0x1000000
      small opened 0 2 nothing_mapped refl refl refl refl (omega arith) (omega arith) (omega arith)
      (omega arith) (λ p lt. ground arith) nothing_mapped-IsOwned (omega arith)
      (λ p a b m. ground (arith, m.here))

-- A screen of two pixels by two.
abbrev tiny : Display
tiny = record opened {
  info = record { mode = 0; width = 2; height = 2; bpp = 32; pitch = 8 };
  frame_buffer = 0x1000;
}

corner : (bga_clear_screen tiny (λ a. 0)).1 0x100C ≡ 0xFF7F7F3F
unfolding bga_clear_screen
corner = refl

bga_clear_screen-IsPicture_example :
    ((bga_clear_screen tiny (λ a. 0)).0 ≡ true)
    × IsPicture tiny.info 2 0 0x1000 (λ a. 0) (bga_clear_screen tiny (λ a. 0)).1
bga_clear_screen-IsPicture_example = bga_clear_screen-IsPicture tiny (λ a. 0) (omega arith)
