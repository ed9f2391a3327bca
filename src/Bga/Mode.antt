-- ===== src/Bga/Mode.antt =====
-- `bga_set_mode` of drivers/bga/bga.c: the frame buffer of the adapter in the kernel's address space.
use osdev_course.Common.{
  ℕ, zero, suc, ◌+◌, ◌-◌, ◌*◌, ◌/◌, ◌^◌, ◌<◌, ◌≤◌, ◌≡◌, refl, sym, ap, Bool, true, false, some,
  ◌==◌, ltb, leb, add32, if◌then◌else◌, arith, Run, ok,
}
use osdev_course.Heap.{kheap_vmaalloc}
use osdev_course.Pci.{pci_get_bar}
use osdev_course.Mmu.{Mmu, mmu_mmap, page_noalloc}
use osdev_course.Mmu.Masks.{and-bar}
use osdev_course.Mmu.Tables.{IsMapped}
use osdev_course.Mmu.Map.{IsWords, pages, IsReserved}
use osdev_course.Mmu.Owner.{IsOwned}
use osdev_course.Mmu.Reserve.{mmu_mmap-IsReserved}
use osdev_course.Bga.{
  ModeInfo, Display, bga_get_modeinfo, set_registers, frame_buffer_bytes, unmap_previous,
  place_buffer, map_buffer, bga_set_mode,
}

-- The bytes that are mapped.
abbrev pub mapped_bytes : (size : ℕ) → ModeInfo → ℕ
mapped_bytes size i = if ltb (frame_buffer_bytes i) size then frame_buffer_bytes i else size

-- Free pages take the frames.
mapped_all :
    (f bytes : ℕ) (m : Mmu) (run : Run (Bool × Mmu)) (done : Bool) (m' : Mmu)
    → run ≡ ok (done, m')
    → IsReserved 0xE0000 f 0xE0000 (0xE0000 + pages bytes) page_noalloc m done m'
    → done ≡ true
    → (m' : Mmu) × ((run ≡ ok (true, m'))
        × IsReserved 0xE0000 f 0xE0000 (0xE0000 + pages bytes) page_noalloc m true m')
mapped_all f bytes m run false m' e r h = absurd (ground arith)
mapped_all f bytes m run true m' e r h = (m', (e, r))

map_free :
    (kend f bytes fuel : ℕ) (m : Mmu)
    → bytes < 1024 * 1024 * 64
    → f + pages bytes ≤ 2 ^ 20
    → pages bytes < fuel
    → IsWords m
    → IsOwned kend m
    → pages bytes ≤ m.frames_index
    → ((p : ℕ) → 0xE0000 ≤ p → p < 0xE0000 + pages bytes → ¬ IsMapped m p)
    → (m' : Mmu) × ((mmu_mmap fuel (0xE0000 * 4096) (f * 4096) bytes page_noalloc m ≡ ok (true, m'))
        × IsReserved 0xE0000 f 0xE0000 (0xE0000 + pages bytes) page_noalloc m true m')
map_free kend f bytes fuel m small below enough w o left free =
    let (done, m', (e, r, _)) =
      mmu_mmap-IsReserved kend 0xE0000 f bytes page_noalloc (omega arith) below fuel m enough w o
        left in
    mapped_all f bytes m (mmu_mmap fuel (0xE0000 * 4096) (f * 4096) bytes page_noalloc m) done m' e
      r (r.succeeds free)

module _ (mmap : (mem paddr size flag : ℕ) → Mmu → Mmu) where
  -- The first frame buffer lies where the kernel's addresses begin.
  place_first :
      (bytes : ℕ) (d : Display) (m : Mmu)
      → bytes < 1024 * 1024 * 64
      → d.frame_buffer ≡ 0
      → place_buffer mmap bytes d kheap_vmaalloc m
        ≡ (record d { frame_buffer = 0xE0000000 }, record kheap_vmaalloc { ptr = bytes }, m)
  unfolding place_buffer
  place_first bytes d m small none_yet =
      let t : (d.frame_buffer == 0) ≡ true = ground arith in
      let room : leb 0x4000000 (add32 0 bytes) ≡ false = ground arith in
      let e : add32 0 bytes ≡ bytes = omega arith in rw (t, room, e) refl

  nothing_before :
      (fuel : ℕ) (d : Display) (m : Mmu)
      → d.frame_buffer_size ≡ 0
      → unmap_previous fuel d m ≡ ok (d, m)
  unfolding unmap_previous
  nothing_before fuel d m e =
      let t : (d.frame_buffer_size == 0) ≡ true = ground arith in rw (t) refl

  -- The adapter's memory appears page by page.
  pub record IsShown (f size : ℕ) (m : Mmu) (d' : Display) (m' : Mmu) : Type 0 where
    pub buffer : d'.frame_buffer ≡ 0xE0000000
    pub buffer_size : d'.frame_buffer_size ≡ size
    pub pages_shown :
        (p : ℕ)
        → 0xE0000 ≤ p
        → p < 0xE0000 + pages size
        → m'.entry p ≡ (f + (p - 0xE0000)) * 4096 + 1
    pub reserved : IsReserved 0xE0000 f 0xE0000 (0xE0000 + pages size) page_noalloc m true m'

  map_buffer-IsShown :
      (kend fuel bar f size : ℕ) (d : Display) (m : Mmu)
      → d.frame_buffer ≡ 0
      → d.frame_buffer_size ≡ 0
      → frame_buffer_bytes d.info < 1024 * 1024 * 64
      → bar < 2 ^ 32
      → bar / 16 * 16 ≡ f * 4096
      → f + pages (mapped_bytes size d.info) ≤ 2 ^ 20
      → pages (mapped_bytes size d.info) < fuel
      → IsWords m
      → IsOwned kend m
      → pages (mapped_bytes size d.info) ≤ m.frames_index
      → ((p : ℕ) → 0xE0000 ≤ p → p < 0xE0000 + pages (mapped_bytes size d.info) → ¬ IsMapped m p)
      → (d' : Display) × (m' : Mmu) × ((map_buffer mmap fuel bar size d kheap_vmaalloc m
            ≡ ok (true, d', record kheap_vmaalloc { ptr = frame_buffer_bytes d.info }, m'))
          × (d'.info ≡ d.info)
          × IsShown f (mapped_bytes size d.info) m d' m')
  unfolding map_buffer
  map_buffer-IsShown kend fuel bar f size d m none_yet nothing small word at below enough w o left
        free =
      let bytes = mapped_bytes size d.info in
      let less : bytes ≤ frame_buffer_bytes d.info = ground arith in
      let placed = record d { frame_buffer = 0xE0000000; frame_buffer_size = bytes } in
      let (m', (e, r)) =
        map_free kend f bytes fuel m (omega (arith, less, small)) below enough w o left free in
      (
        placed,
        m',
        (
          rw
              (
                nothing_before fuel d m nothing,
                and-bar bar word,
                at,
                place_first (frame_buffer_bytes d.info) d m small none_yet,
                e,
              )
              refl,
          refl,
          record {
            buffer = refl;
            buffer_size = refl;
            pages_shown = λ p a b. omega (arith, r.exact refl refl p a b);
            reserved = r;
          },
        ),
      )

-- Each mode's frame buffer fits the kernel's addresses.
mode_bytes :
    (mode : ℕ) (info info' : ModeInfo)
    → bga_get_modeinfo mode info ≡ (true, info')
    → frame_buffer_bytes info' < 1024 * 1024 * 64
unfolding bga_get_modeinfo frame_buffer_bytes
mode_bytes zero info info' e = let i = ap (λ r. r.1) e in rw (sym i) (omega arith)
mode_bytes (suc zero) info info' e = let i = ap (λ r. r.1) e in rw (sym i) (omega arith)
mode_bytes (suc (suc zero)) info info' e = let i = ap (λ r. r.1) e in rw (sym i) (omega arith)
mode_bytes (suc (suc (suc n))) info info' e =
    absurd (
      let t : ltb 2 (suc (suc (suc n))) ≡ true = ground arith in ground (arith, t, ap (λ r. r.0) e))

module _ {S : Type 0} (inl_ : ℕ → S → ℕ × S) (outl outw : ℕ → ℕ → S → S)
    (mmap : (mem paddr size flag : ℕ) → Mmu → Mmu) where
  -- On a display without a frame buffer, for one of the modes and an adapter whose memory register
  -- gives an address of whole pages and a size, bga_set_mode succeeds with more fuel than pages:
  -- the first address of the kernel's heap of addresses is the buffer's, and from there each page
  -- shows the adapter's memory in order, as many bytes as the mode asks for or the adapter has.
  -- The pages there were free, the entries are words, every frame from the end of the kernel's
  -- image on has one owner at most, there are as many free frames as pages, and the adapter's
  -- memory lies below 4 GiB.
  pub bga_set_mode-IsShown :
      (kend fuel mode bar f size : ℕ) (info : ModeInfo) (d : Display) (s s' : S) (m : Mmu)
      → bga_get_modeinfo mode d.info ≡ (true, info)
      → pci_get_bar inl_ outl d.pci_addr 0 true (set_registers outw info s)
        ≡ (true, some bar, some size, s')
      → d.frame_buffer ≡ 0
      → d.frame_buffer_size ≡ 0
      → bar < 2 ^ 32
      → bar / 16 * 16 ≡ f * 4096
      → f + pages (mapped_bytes size info) ≤ 2 ^ 20
      → pages (mapped_bytes size info) < fuel
      → IsWords m
      → IsOwned kend m
      → pages (mapped_bytes size info) ≤ m.frames_index
      → ((p : ℕ) → 0xE0000 ≤ p → p < 0xE0000 + pages (mapped_bytes size info) → ¬ IsMapped m p)
      → (d' : Display) × (m' : Mmu) × ((bga_set_mode inl_ outl outw mmap fuel mode d s
              kheap_vmaalloc m
            ≡ ok (true, d', s', record kheap_vmaalloc { ptr = frame_buffer_bytes info }, m'))
          × (d'.info ≡ record info { mode = mode })
          × IsShown mmap f (mapped_bytes size info) m d' m')
  unfolding bga_set_mode
  bga_set_mode-IsShown kend fuel mode bar f size info d s s' m valid found none_yet nothing word at
        below enough w o left free =
      let d1 = record d { info = record info { mode = mode } } in
      let (d', m', (e, i, shown)) =
        map_buffer-IsShown mmap kend fuel bar f size d1 m none_yet nothing
          (mode_bytes mode d.info info valid) word at below enough w o left free in
      (d', m', (rw (valid, found, e) refl, i, shown))
