-- ===== src/Kmalloc/Release.antt =====
-- kfree of kernel/kmalloc.c, and requests that follow it.
use osdev_course.Common.{
  ℕ, ◌+◌, ◌-◌, ◌^◌, ◌≤◌, ◌<◌, ◌≡◌, refl, sym, ap, ◌∙◌, ◌≢◌, true, false, some, List, ◌∷◌, arith,
  ◌==◌, if◌then◌else◌, add32, mem, update,
}
use osdev_course.Kmalloc.{
  FreeList, kmalloc_64, same_list, Kmalloc, list_of_size, classify, round_size, pick, serve, kfree,
  kmalloc,
}
use osdev_course.Kmalloc.Lists.{Free, put, same_list_self}
use osdev_course.Kmalloc.Keeps.{eq_of_same_list, put-elim, kfree_lem, freed-IsKmalloc}
use osdev_course.Kmalloc.Alloc.{kmalloc-picked}
use osdev_course.Kmalloc.Blocks.{Carved-bounds, IsArena, Live}

module _ {M : Type 0} (s : Kmalloc M) (free : Free) (blocks : List ℕ) (p : ℕ)
    (v : IsArena s free blocks) (live : Live free blocks p) where
  -- The list that gets the node, and the lists afterwards.
  abbrev home : FreeList
  home = list_of_size (s.size p)

  abbrev pub free_with : Free
  free_with = put free home (p ∷ free home)

  bounds : (s.heap.start ≤ p) × (p + s.size p ≤ s.heap.start + s.heap.ptr) × (64 ≤ s.size p)
  bounds = Carved-bounds s.size s.heap.start (s.heap.start + s.heap.ptr) p blocks v.carved live.cut

  small : p + 16 < 2 ^ 32
  small = omega (arith, bounds, v.heap.inside, v.heap.used)

  -- In a well-formed state, giving back a held block keeps the state well formed, puts the block
  -- on the list of its size, and leaves every other held block held.
  pub kfree-IsArena :
      IsArena (kfree (p + 16) s) free_with blocks
      × (mem p (free_with home) ≡ true)
      × ((y : ℕ) → Live free blocks y → y ≢ p → Live free_with blocks y)
  kfree-IsArena = rw (kfree_lem s p small) (
    record {
      lists =
          freed-IsKmalloc s free p home v.lists (omega (arith, bounds, v.heap.positive)) live.held
            refl (v.sizes p live.cut);
      heap = v.heap;
      carved = v.carved;
      sizes = v.sizes;
      known =
          put-elim (λ _ ys. (x : ℕ) → mem x ys ≡ true → mem x blocks ≡ true) free home
            (p ∷ free home) (λ x m. ground (arith, v.known home x, live.cut)) (λ k _. v.known k);
    },
    rw (same_list_self home) (ground arith),
    λ y held ne. record {
      cut = held.cut;
      held =
          put-elim (λ _ ys. mem y ys ≡ false) free home (p ∷ free home)
            (ground (arith, held.held home)) (λ k _. held.held k);
    },
  )

  positive : p ≢ 0
  positive = omega (arith, bounds, v.heap.positive)

  -- The list serves the next request of its size with the block that was given back.
  pick-kfree :
      (fuel n : ℕ) (l : FreeList)
      → l ≡ home
      → n ≤ 1024
      → (s' : Kmalloc M) × (pick fuel l n (kfree (p + 16) s) ≡ some (p, s'))
        × ((k : FreeList) → s'.head k ≡ s.head k)
        × ((x : ℕ) → x ≢ p → s'.next x ≡ s.next x)
        × (s'.size ≡ s.size)
        × (s'.heap ≡ s.heap)
        × (s'.mmu ≡ s.mmu)
  unfolding pick
  pick-kfree fuel n l e short =
      let head : FreeList → ℕ = λ k.
        if same_list k home
        then update s.next p (s.head home) p
        else (if same_list k home then p else s.head k) in
      (
        record s { head = head; next = update s.next p (s.head home) },
        rw (kfree_lem s p small, e, same_list_self home) (ground (arith, positive)),
        λ k. ground (arith, eq_of_same_list k home),
        λ x ne. ground arith,
        refl,
        refl,
        refl,
      )

  addr : add32 p 16 ≡ p + 16
  addr = omega (arith, small)

module _ {M : Type 0} (mmap : (mem paddr size flag : ℕ) → M → M) where
  -- In a well-formed state, a request of at most 1024 bytes that the list of a held block's size
  -- serves, right after that block is given back, gets the same block; the lists' heads, the sizes
  -- and the heap are then as before, and so are the links of all other nodes.
  pub kmalloc-kfree :
      (fuel n : ℕ) (s : Kmalloc M) (free : Free) (blocks : List ℕ) (p : ℕ)
      → IsArena s free blocks
      → Live free blocks p
      → (classify (round_size n)).0 ≡ list_of_size (s.size p)
      → (classify (round_size n)).1 ≤ 1024
      → (s' : Kmalloc M) × (kmalloc mmap fuel n (kfree (p + 16) s) ≡ some (p + 16, s'))
        × ((l : FreeList) → s'.head l ≡ s.head l)
        × ((x : ℕ) → x ≢ p → s'.next x ≡ s.next x)
        × (s'.size ≡ s.size)
        × (s'.heap ≡ s.heap)
        × (s'.mmu ≡ s.mmu)
  kmalloc-kfree fuel n s free blocks p v live class short =
      let (l, n') = classify (round_size n) in
      let (s', e, heads, nexts, sizes, heap, mmu) =
        pick-kfree s free blocks p v live fuel n' l class short in
      let set : (p == 0) ≡ false = ground (arith, positive s free blocks p v live) in
      (
        s',
        kmalloc-picked mmap fuel n p (kfree (p + 16) s) s' e
            ∙ rw (set, addr s free blocks p v live) refl,
        heads,
        nexts,
        sizes,
        heap,
        mmu,
      )

  wrapped : (n : ℕ) → 2 ^ 32 - 31 ≤ n → n < 2 ^ 32 → classify (round_size n) ≡ (kmalloc_64, 64)
  unfolding classify round_size
  wrapped n lo hi = ground arith

  -- A request of 2^32 - 31 bytes or more, whose rounding wraps, is served as a request for
  -- nothing.
  pub kmalloc_wraps :
      (fuel n : ℕ) (s : Kmalloc M)
      → 2 ^ 32 - 31 ≤ n
      → n < 2 ^ 32
      → kmalloc mmap fuel n s ≡ kmalloc mmap fuel 0 s
  unfolding kmalloc
  kmalloc_wraps fuel n s lo hi = ap (λ c. serve mmap fuel c s) (wrapped n lo hi ∙ sym nothing)
    where
      nothing : classify (round_size 0) ≡ (kmalloc_64, 64)
      nothing = refl
