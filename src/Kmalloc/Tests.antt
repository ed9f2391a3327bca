-- ===== src/Kmalloc/Tests.antt =====
-- kernel/kmalloc.c run on inputs, and its theorems at inputs.
use osdev_course.Common.{
  ℕ, ◌+◌, ◌-◌, ◌*◌, ◌≤◌, ◌^◌, ◌<◌, ◌≡◌, refl, ◌≢◌, true, false, some, List, [], ◌∷◌, arith,
  if◌then◌else◌, length, mem, Distinct, Chain,
}
use osdev_course.Heap.{Heap}
use osdev_course.Kmalloc.{
  FreeList, kmalloc_64, kmalloc_512, kmalloc_1024, kmalloc_large, same_list, list_of_size, classify,
  round_size, Kmalloc, kfree, kmalloc,
}
use osdev_course.Kmalloc.Lists.{Free, least, IsKmalloc}
use osdev_course.Kmalloc.Blocks.{IsArena, Live, Got}
use osdev_course.Kmalloc.Alloc.{kmalloc-Got}
use osdev_course.Kmalloc.Release.{free_with, kfree-IsArena, kmalloc-kfree, kmalloc_wraps}

-- The memory manager only counts its calls.
abbrev mmap : ℕ → ℕ → ℕ → ℕ → ℕ → ℕ
mmap mem paddr size flag m = m + 1

abbrev base : ℕ
base = 0xF0200000

-- `__kheap_kmalloc` after two blocks of 64 bytes.
abbrev heap : Heap
heap = record { start = base; ptr = 128; size = 1024 * 1024 * 16; flag = 0 }

-- The first of them is free, the second is held.
abbrev two : Kmalloc ℕ
two = record {
  head = λ l. if same_list l kmalloc_64 then base else 0;
  next = λ _. 0;
  size = λ _. 64;
  heap = heap;
  mmu = 0;
}

abbrev free : Free
free kmalloc_64 = base ∷ []
free _ = []

abbrev blocks : List ℕ
blocks = (base + 64) ∷ base ∷ []

-- A fact about each list, from the fact about the one that is not empty.
by_list :
    (P : FreeList → List ℕ → Type 0)
    → P kmalloc_64 (base ∷ [])
    → ((l : FreeList) → P l [])
    → (l : FreeList) → P l (free l)
by_list P one empty kmalloc_64 = one
by_list P one empty kmalloc_512 = empty kmalloc_512
by_list P one empty kmalloc_1024 = empty kmalloc_1024
by_list P one empty kmalloc_large = empty kmalloc_large

apart :
    (l k : FreeList) (x : ℕ)
    → same_list l k ≡ false
    → mem x (free l) ≡ true
    → mem x (free k) ≡ false
apart kmalloc_64 kmalloc_64 x e m = cc
apart l kmalloc_512 x e m = refl
apart l kmalloc_1024 x e m = refl
apart l kmalloc_large x e m = refl
apart kmalloc_512 kmalloc_64 x e m = cc
apart kmalloc_1024 kmalloc_64 x e m = cc
apart kmalloc_large kmalloc_64 x e m = cc

chains : (l : FreeList) → Chain two.next (two.head l) (free l)
chains kmalloc_64 = (refl, omega arith, refl)
chains kmalloc_512 = refl
chains kmalloc_1024 = refl
chains kmalloc_large = refl

two-IsKmalloc : IsKmalloc two free
unfolding list_of_size
two-IsKmalloc = record {
  chain = chains;
  distinct = by_list (λ _ xs. Distinct xs) (refl, tt) (λ _. tt);
  apart = apart;
  sized = by_list (λ l xs. (x : ℕ) → mem x xs ≡ true → kmalloc_64 ≡ l) (λ x m. refl) (λ l x m. cc);
  room =
      by_list (λ l xs. (x : ℕ) → mem x xs ≡ true → least l ≤ 64) (λ x m. omega arith) (λ l x m. cc);
}

two-IsArena : IsArena two free blocks
unfolding list_of_size
two-IsArena = record {
  lists = two-IsKmalloc;
  heap = omega arith;
  carved = omega arith;
  sizes = λ x m. omega arith;
  known =
      by_list (λ l xs. (x : ℕ) → mem x xs ≡ true → mem x blocks ≡ true) (λ x m. ground arith)
        (λ l x m. cc);
}

held : Live free blocks (base + 64)
held = record { cut = refl; held = by_list (λ _ xs. mem (base + 64) xs ≡ false) refl (λ _. refl) }

short : (l : FreeList) → length (free l) < 2
short = by_list (λ _ xs. length xs < 2) (omega arith) (λ _. omega arith)

-- The free node serves the first request, the heap the second.
two_requests :
    (kmalloc mmap 2 48 two
      ≡ some
          (base + 16, record two { head = λ l. if same_list l kmalloc_64 then 0 else two.head l }))
unfolding kmalloc
two_requests = refl

kmalloc-Got_example :
    (a : ℕ) × (s' : Kmalloc ℕ) × (free' : Free) × (blocks' : List ℕ) × (kmalloc mmap 2 500 two
      ≡ some (a, s'))
    × Got two free blocks 500 a s' free' blocks'
kmalloc-Got_example = kmalloc-Got mmap 2 500 two free blocks two-IsArena (omega arith) short

kfree-IsArena_example :
    IsArena
      (kfree (base + 64 + 16) two)
      (free_with two free blocks (base + 64) two-IsArena held)
      blocks
    × (mem (base + 64) (free_with two free blocks (base + 64) two-IsArena held (list_of_size 64))
        ≡ true)
    × ((y : ℕ)
        → Live free blocks y
        → y ≢ base + 64
        → Live (free_with two free blocks (base + 64) two-IsArena held) blocks y)
kfree-IsArena_example = kfree-IsArena two free blocks (base + 64) two-IsArena held

kmalloc-kfree_example :
    (s' : Kmalloc ℕ) × (kmalloc mmap 2 20 (kfree (base + 64 + 16) two) ≡ some (base + 64 + 16, s'))
    × ((l : FreeList) → s'.head l ≡ two.head l)
    × ((x : ℕ) → x ≢ base + 64 → s'.next x ≡ two.next x)
    × (s'.size ≡ two.size)
    × (s'.heap ≡ two.heap)
    × (s'.mmu ≡ two.mmu)
unfolding classify round_size list_of_size
kmalloc-kfree_example =
    kmalloc-kfree mmap 2 20 two free blocks (base + 64) two-IsArena held refl (omega arith)

kmalloc_wraps_example : kmalloc mmap 2 (2 ^ 32 - 20) two ≡ kmalloc mmap 2 0 two
kmalloc_wraps_example = kmalloc_wraps mmap 2 (2 ^ 32 - 20) two (omega arith) (omega arith)
