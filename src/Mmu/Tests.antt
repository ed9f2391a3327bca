-- ===== src/Mmu/Tests.antt =====
-- kernel/arch/i686/mmu.c run on inputs, and its theorems at inputs.
use osdev_course.Common.{
  ℕ, ◌+◌, ◌*◌, ◌/◌, ◌%◌, ◌^◌, ◌<◌, ◌≡◌, ◌⊎◌, refl, Bool, true, false, List, [], ◌∷◌, ◌==◌,
  if◌then◌else◌, arith, Run, ok, fault, out_of_fuel, add32,
}
use osdev_course.Mmu.{Mmu, MmapEntry, tables, mmu_mmap, mmu_munmap, int_0e, mmu_init, mmu_vma2pma}
use osdev_course.Mmu.Tables.{IsMapped}
use osdev_course.Mmu.Map.{pages, IsWords, IsReserved}
use osdev_course.Mmu.Reserve.{mmu_mmap-IsReserved}
use osdev_course.Mmu.Owner.{IsOwned, IsServed, int_0e-IsServed}
use osdev_course.Mmu.Unmap.{IsReleased, mmu_munmap-IsReleased}
use osdev_course.Mmu.Init.{IsInitialised, mmu_init-IsInitialised}

-- The kernel's image ends at 0x3000, with the directory at 0x1000 and a table at 0x2000. The pool has
-- a table at 0x4000 and a page at 0x5000. Page 16 is there on demand, page 17 has the frame at 0x3000. Page 18 is mapped to
-- the directory, which the last page shows, too. The stack has three frames.
abbrev space : Mmu
space = record {
  entry = λ p.
      if p == 0xFFFFF
      then 0x1003
      else if p == 0xFFC00
      then 0x2007
      else if p == 16
      then 0x106
      else if p == 17
      then 0x3007
      else if p == 18
      then 0x1003
      else if p == 0xFFFFE
      then 0x4003
      else if p == 0xFF800
      then 0x5003
      else 0;
  boot_pd = λ i. i;
  on_boot = false;
  frames = λ i. (i + 16) * 4096;
  frames_index = 3;
  memory = λ a. 7;
}

space-IsWords : IsWords space
space-IsWords p lt = ground arith

space-pages :
    (p : ℕ)
    → p < 2 ^ 20
    → IsMapped space p
    → (p ≡ 0xFFFFF) ⊎ (p ≡ 0xFFC00) ⊎ (p ≡ 17) ⊎ (p ≡ 18) ⊎ (p ≡ 0xFFFFE) ⊎ (p ≡ 0xFF800)
space-pages p lt m = ground (arith, m.here)

space-IsOwned : IsOwned 0x3000 space
space-IsOwned = record {
  directory = refl;
  aligned = λ i lt. omega arith;
  above = λ i lt. omega arith;
  stacked = λ i j lt lj e. omega (arith, e);
  unused = λ i p lt lp m e. ground (arith, m.here, e, lt);
  once = λ p q lp lq mp mq own e. ground (arith, mp.here, mq.here, own, e);
}

abbrev entry_after : Run (Bool × Mmu) → ℕ → ℕ
entry_after out_of_fuel p = 0
entry_after fault p = 0
entry_after (ok (_, s)) p = s.entry p

-- Page 1024 gets a table from the top of the stack, and both pages their own frames.
own_frame : entry_after (mmu_mmap 9 0x400000 0x50000 8192 0x206 space) 1025 ≡ 0x51007
unfolding mmu_mmap
own_frame = refl

own_table : entry_after (mmu_mmap 9 0x400000 0x50000 8192 0x206 space) (tables + 1) ≡ 0x12007
unfolding mmu_mmap
own_table = refl

-- Another frame is refused where there is one.
refused : mmu_mmap 9 0x11000 0x50000 4096 0x206 space ≡ ok (false, space)
unfolding mmu_mmap
refused = refl

mmu_mmap-IsReserved_example :
    (done : Bool) × (s' : Mmu) × ((mmu_mmap 9 (1024 * 4096) (0x50 * 4096) 8192 0x206 space
        ≡ ok (done, s'))
      × IsReserved 1024 0x50 1024 (1024 + pages 8192) 0x206 space done s'
      × (0x206 / 512 % 2 ≡ 0 → IsOwned 0x3000 s'))
mmu_mmap-IsReserved_example =
    mmu_mmap-IsReserved 0x3000 1024 0x50 8192 0x206 (omega arith) (omega arith) 9 space
      (omega arith) space-IsWords space-IsOwned (omega arith)

int_0e-IsServed_example :
    (s' : Mmu) × ((int_0e 6 0x10123 space ≡ ok s') × IsServed 0x3000 16 space s')
int_0e-IsServed_example =
    int_0e-IsServed 0x3000 6 0x10123 space (omega arith) space-IsOwned (omega arith) refl refl refl
      refl

mmu_munmap-IsReleased_example :
    (s' : Mmu) × ((mmu_munmap 9 (16 * 4096) 8192 0 space ≡ ok (true, s'))
      × IsReleased 0 16 (pages 8192) space s')
mmu_munmap-IsReleased_example = mmu_munmap-IsReleased 9 16 8192 0 space (omega arith) (record {
  fits = omega arith;
  present = λ p a b. ground arith;
  words = λ p a b. ground arith;
  index = omega arith;
  room = λ i a b.
      let page : 0xFF800 + i / 1024 ≡ 0xFF800 = omega arith in
      record { small = omega arith; mapped = rw page (record { table = refl; here = refl }) };
})

-- Two megabytes from the first on, of which the kernel takes the first half, and a device's memory.
abbrev memory_map : List MmapEntry
memory_map =
    record { addr = 0x100000; len = 0x200000; kind = 1 }
    ∷ record { addr = 0xF0000000; len = 0x1000; kind = 2 }
    ∷ []

mmu_init-IsInitialised_example :
    (s' : Mmu) × ((mmu_init 0xF0101000 0xF0102000 0xF0103000 0xF01FFFFF (2 ^ 52) memory_map space
        ≡ ok (true, s'))
      × IsInitialised (add32 (mmu_vma2pma 0xF01FFFFF) 4096) memory_map s')
mmu_init-IsInitialised_example =
    mmu_init-IsInitialised 0xF0101000 0xF0102000 0xF0103000 0xF01FFFFF (2 ^ 52) memory_map space
      (omega arith) refl space-IsWords (omega arith)
