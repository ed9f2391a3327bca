-- ===== src/Kmalloc/Alloc.antt =====
-- kmalloc of kernel/kmalloc.c, from the search of the lists to the block that it returns.
use osdev_course.Common.{
  ℕ, ◌+◌, ◌-◌, ◌^◌, ◌≤◌, ◌<◌, ◌≡◌, refl, ◌≢◌, ◌⊎◌, inl, inr, true, false, some, List, ◌∷◌, arith,
  ◌==◌, leb, if◌then◌else◌, add32, length, mem, Bool-cases, update,
}
use osdev_course.Heap.{map_block}
use osdev_course.Heap.Blocks.{IsHeap, heap_alloc_lem}
use osdev_course.Kmalloc.{
  FreeList, Kmalloc, list_of_size, classify, round_size, pick, grow, serve, kmalloc,
}
use osdev_course.Kmalloc.Lists.{Free, put, least, IsKmalloc, taken}
use osdev_course.Kmalloc.Taken.{taken-mem, taken-gone, taken-room}
use osdev_course.Kmalloc.Keeps.{put-elim, mem-put, not-mem-put, pick-IsKmalloc}
use osdev_course.Kmalloc.Blocks.{
  Carved-bounds, Carved-update, Carved-apart, classify_lem, IsArena, Live, Got,
}

module _ {M : Type 0} (s : Kmalloc M) (free : Free) (blocks : List ℕ) (v : IsArena s free blocks)
    (n : ℕ) (small : n + 31 < 2 ^ 32) (l : FreeList) (n' : ℕ) (fits : n + 16 ≤ n')
    (head : FreeList → ℕ) (next : ℕ → ℕ)
    (lists : IsKmalloc
      (record s { head = head; next = next })
      (put free l (taken s.size n' (free l)).1)) where
  still : (y : ℕ) → Live free blocks y → Live (put free l (taken s.size n' (free l)).1) blocks y
  still y live = record {
    cut = live.cut;
    held = λ k. not-mem-put s.size free l n' y k (live.held k);
  }

  unpicked-IsArena :
      IsArena
        (record s { head = head; next = next })
        (put free l (taken s.size n' (free l)).1)
        blocks
  unpicked-IsArena = record {
    lists = lists;
    heap = v.heap;
    carved = v.carved;
    sizes = v.sizes;
    known = λ k x m. v.known k x (mem-put s.size free l n' x k m);
  }

  reused-Got :
      (leb n' 1024 ≡ true → n' ≡ least l)
      → (taken s.size n' (free l)).0 ≢ 0
      → Got s free blocks n
          (add32 (taken s.size n' (free l)).0 16)
          (record s { head = head; next = next })
          (put free l (taken s.size n' (free l)).1)
          blocks
  reused-Got class found = record {
    arena = unpicked-IsArena;
    kept = λ y live. (still y live, refl);
    block = inr (rw (addr, back) (omega arith, free_no_more, room, apart));
  }
    where
      x : ℕ
      x = (taken s.size n' (free l)).0

      was : mem x (free l) ≡ true
      was = taken-mem s.size n' (free l) found

      bounds : (s.heap.start ≤ x) × (x + s.size x ≤ s.heap.start + s.heap.ptr) × (64 ≤ s.size x)
      bounds =
          Carved-bounds s.size s.heap.start (s.heap.start + s.heap.ptr) x blocks v.carved
            (v.known l x was)

      addr : add32 x 16 ≡ x + 16
      addr = omega (arith, bounds, v.heap.inside, v.heap.used)

      back : x + 16 - 16 ≡ x
      back = omega arith

      free_no_more : Live (put free l (taken s.size n' (free l)).1) blocks x
      free_no_more = record {
        cut = v.known l x was;
        held =
            put-elim (λ _ ys. mem x ys ≡ false) free l (taken s.size n' (free l)).1
              (taken-gone s.size n' (free l) found (v.lists.distinct l))
              λ k e. elim (Bool-cases (mem x (free k))) [
                | inl m ↦ absurd (cc (was, v.lists.apart k l x e m))
                | inr m ↦ m
              ];
      }

      room : n + 16 ≤ s.size x
      room = elim (Bool-cases (leb n' 1024)) [
        | inl e ↦ omega (arith, class e, v.lists.room l x was)
        | inr e ↦ omega (arith, taken-room s.size n' (free l) e found)
      ]

      apart : (y : ℕ) → Live free blocks y → (x + 16 + n ≤ y) ⊎ (y + s.size y ≤ x)
      apart y live =
          let ne : x ≢ y = λ e. cc (was, live.held l) in
          omega (
            arith,
            room,
            Carved-apart s.size s.heap.start (s.heap.start + s.heap.ptr) x y blocks v.carved
                (v.known l x was) live.cut ne,
          )

  -- No node serves the request and the heap is full.
  null-Got :
      Got s free blocks n 0
        (record s { head = head; next = next })
        (put free l (taken s.size n' (free l)).1)
        blocks
  null-Got = record {
    arena = unpicked-IsArena;
    kept = λ y live. (still y live, refl);
    block = inl refl;
  }

  -- The block that is cut from the heap when no node serves the request.
  module _ (class : least (list_of_size n') ≤ n') (least_64 : 64 ≤ n')
      (room : s.heap.ptr + n' < s.heap.size) where
    -- The new block's address, and the state behind it.
    abbrev fresh : ℕ
    fresh = s.heap.start + s.heap.ptr

    abbrev grown : M → Kmalloc M
    grown mmu = record {
      head = head;
      next = next;
      size = update s.size fresh n';
      heap = record s.heap { ptr = s.heap.ptr + n' };
      mmu = mmu;
    }

    bounds :
        (x : ℕ)
        → mem x blocks ≡ true
        → (s.heap.start ≤ x) × (x + s.size x ≤ s.heap.start + s.heap.ptr) × (64 ≤ s.size x)
    bounds x m = Carved-bounds s.size s.heap.start fresh x blocks v.carved m

    same_size : (x : ℕ) → mem x blocks ≡ true → update s.size fresh n' x ≡ s.size x
    same_size x m = ground (arith, bounds x m)

    fresh-new : mem fresh blocks ≡ false
    fresh-new = elim (Bool-cases (mem fresh blocks)) [
      | inl m ↦ absurd (omega (arith, bounds fresh m))
      | inr m ↦ m
    ]

    grown-IsArena :
        (mmu : M) → IsArena (grown mmu) (put free l (taken s.size n' (free l)).1) (fresh ∷ blocks)
    grown-IsArena mmu = record {
      lists = record {
        chain = lists.chain;
        distinct = lists.distinct;
        apart = lists.apart;
        sized = λ k x m. rw (same_size x (was k x m)) (lists.sized k x m);
        room = λ k x m. rw (same_size x (was k x m)) (lists.room k x m);
      };
      heap = record { positive = v.heap.positive; inside = v.heap.inside; used = omega arith };
      carved = ground (arith, Carved-update s.size s.heap.start fresh fresh n' blocks);
      sizes = λ x m. ground (arith, same_size x, v.sizes x);
      known = λ k x m. ground (arith, was k x m);
    }
      where
        was :
            (k : FreeList) (x : ℕ)
            → mem x (put free l (taken s.size n' (free l)).1 k) ≡ true
            → mem x blocks ≡ true
        was k x m = v.known k x (mem-put s.size free l n' x k m)

    grown-Got :
        (mmu : M)
        → Got s free blocks n
            (add32 fresh 16)
            (grown mmu)
            (put free l (taken s.size n' (free l)).1)
            (fresh ∷ blocks)
    grown-Got mmu = record {
      arena = grown-IsArena mmu;
      kept = λ y live. (
        record { cut = ground (arith, live.cut); held = (still y live).held },
        same_size y live.cut,
      );
      block =
          inr
            (rw (addr, back) (omega arith, new, ground arith, λ y live. inr (bounds y live.cut).1));
    }
      where
        addr : add32 fresh 16 ≡ fresh + 16
        addr = omega (arith, v.heap.inside)

        back : fresh + 16 - 16 ≡ fresh
        back = omega arith

        new : Live (put free l (taken s.size n' (free l)).1) (fresh ∷ blocks) fresh
        new = record {
          cut = ground arith;
          held = λ k. elim (Bool-cases (mem fresh (put free l (taken s.size n' (free l)).1 k))) [
            | inl m ↦ absurd (cc (fresh-new, v.known k fresh (mem-put s.size free l n' fresh k m)))
            | inr m ↦ m
          ];
        }

module _ {M : Type 0} (mmap : (mem paddr size flag : ℕ) → M → M) where
  -- The request's list is asked first, then the heap.
  pub kmalloc-picked :
      (fuel n p : ℕ) (s s' : Kmalloc M)
      → let (l, n') = classify (round_size n) in
        pick fuel l n' s ≡ some (p, s')
        → kmalloc mmap fuel n s ≡ some (if p == 0 then grow mmap n' s' else (add32 p 16, s'))
  unfolding kmalloc
  kmalloc-picked fuel n p s s' e = rw (e, serve)

  grow_lem :
      (n : ℕ) (s : Kmalloc M)
      → IsHeap s.heap
      → s.heap.ptr + n < 2 ^ 32
      → (grow mmap n s ≡ (0, s))
        ⊎ ((s.heap.ptr + n < s.heap.size)
            × (grow mmap n s ≡ (
              add32 (s.heap.start + s.heap.ptr) 16,
              record s {
                heap = record s.heap { ptr = s.heap.ptr + n };
                mmu = map_block mmap s.heap n s.mmu;
                size = update s.size (s.heap.start + s.heap.ptr) n;
              },
            )))
  unfolding grow
  grow_lem n s v small = elim (heap_alloc_lem mmap s.heap n s.mmu v small) [
    | inl (full, e) ↦ inl (rw e refl)
    | inr (room, e) ↦
        let set : (s.heap.start + s.heap.ptr == 0) ≡ false = ground (arith, v.positive) in
        inr (room, rw (e, set))
  ]

  got :
      (fuel n : ℕ) (s : Kmalloc M) (free : Free) (blocks : List ℕ) (l : FreeList) (n' : ℕ)
      (head : FreeList → ℕ) (next : ℕ → ℕ)
      → IsArena s free blocks
      → n + 1024 + s.heap.size < 2 ^ 32
      → (n + 16 ≤ n')
        × (n' ≤ n + 1024)
        × (list_of_size n' ≡ l)
        × (least l ≤ n')
        × (64 ≤ least l)
        × ((leb n' 1024 ≡ true) → n' ≡ least l)
      → IsKmalloc (record s { head = head; next = next }) (put free l (taken s.size n' (free l)).1)
      → let p = (taken s.size n' (free l)).0 in
        let s' = record s { head = head; next = next } in
        let (a, s'') = if p == 0 then grow mmap n' s' else (add32 p 16, s') in
        (free' : Free) × (blocks' : List ℕ) × Got s free blocks n a s'' free' blocks'
  got fuel n s free blocks l n' head next v small class lists =
      let free' = put free l (taken s.size n' (free l)).1 in
      elim (Bool-cases ((taken s.size n' (free l)).0 == 0)) [
        | inl none_free ↦
            rw none_free
              (elim (grow_lem n' (record s { head = head; next = next }) v.heap (omega arith)) [
                | inl e ↦ rw e (
                  free',
                  blocks,
                  null-Got s free blocks v n (omega arith) l n' class.0 head next lists,
                )
                | inr (room, e) ↦ rw e (
                  free',
                  (s.heap.start + s.heap.ptr) ∷ blocks,
                  grown-Got s free blocks v n (omega arith) l n' class.0 head next lists
                      (rw class.2 class.3) (omega arith) room (map_block mmap s.heap n' s.mmu),
                )
              ])
        | inr found ↦ rw found (
          free',
          blocks,
          reused-Got s free blocks v n (omega arith) l n' class.0 head next lists class.5
              (ground arith),
        )
      ]

  -- From a well-formed state, kmalloc ends with more fuel than a free list has nodes and keeps the
  -- state well formed, and what it returns is NULL or a block with room for the request, cut from
  -- the heap and not held by another caller, whose blocks all stay held. The request with the heap
  -- stays below 4 GiB.
  pub kmalloc-Got :
      (fuel n : ℕ) (s : Kmalloc M) (free : Free) (blocks : List ℕ)
      → IsArena s free blocks
      → n + 1024 + s.heap.size < 2 ^ 32
      → ((l : FreeList) → length (free l) < fuel)
      → (a : ℕ) × (s' : Kmalloc M) × (free' : Free) × (blocks' : List ℕ) × (kmalloc mmap fuel n s
          ≡ some (a, s'))
        × Got s free blocks n a s' free' blocks'
  kmalloc-Got fuel n s free blocks v small enough =
      let l : FreeList = (classify (round_size n)).0 in
      let n' : ℕ = (classify (round_size n)).1 in
      let (head, next, e, lists) = pick-IsKmalloc fuel n' l s free v.lists (enough l) in
      let s' : Kmalloc M = record s { head = head; next = next } in
      let p : ℕ = (taken s.size n' (free l)).0 in
      let out : ℕ × Kmalloc M = if p == 0 then grow mmap n' s' else (add32 p 16, s') in
      let (free', blocks', g) =
        got fuel n s free blocks l n' head next v small (classify_lem n (omega arith)) lists in
      (out.0, out.1, free', blocks', kmalloc-picked fuel n p s s' e, g)
