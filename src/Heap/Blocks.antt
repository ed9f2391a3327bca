-- ===== src/Heap/Blocks.antt =====
-- The blocks of the bump allocator of kernel/heap.c, and the pages under them.
use osdev_course.Common.{
  ℕ, ◌+◌, ◌%◌, ◌^◌, ◌≤◌, ◌<◌, ◌≡◌, ◌⊎◌, inl, inr, List, [], ◌∷◌, arith, bit_and, ◌==◌,
  if◌then◌else◌, All, add32, sub32,
}
use osdev_course.Heap.{Heap, heap_alloc_noalloc, page_floor, map_block, heap_alloc}

-- The region lies in the address space, and what is handed out lies in the region.
pub record IsHeap (heap : Heap) : Type 0 where
  pub positive : 0 < heap.start
  pub inside : heap.start + heap.size < 2 ^ 32
  pub used : heap.ptr ≤ heap.size

-- A block is an address and a length.
abbrev pub Block : Type 0
Block = ℕ × ℕ

-- The blocks stand in the order of their addresses from `lo` to `hi`, with no overlap.
abbrev pub InOrder : ℕ → ℕ → List Block → Type 0
InOrder lo hi [] = lo ≤ hi
InOrder lo hi (b ∷ bs) = (lo ≤ b.0) × InOrder (b.0 + b.1) hi bs

module _ {M : Type 0} (mmap : (mem paddr size flag : ℕ) → M → M) where
  -- In a well-formed heap, a request whose end does not wrap gets NULL and changes nothing if the
  -- region does not hold it (its last byte is never given out); any other gets the next bytes of
  -- the region, exactly those are used up, and their pages are mapped.
  pub heap_alloc_lem :
      (heap : Heap) (n : ℕ) (m : M)
      → IsHeap heap
      → heap.ptr + n < 2 ^ 32
      → ((heap.size ≤ heap.ptr + n) × (heap_alloc mmap heap n m ≡ (0, heap, m)))
        ⊎ ((heap.ptr + n < heap.size)
            × (heap_alloc mmap heap n m ≡ (
              heap.start + heap.ptr,
              record heap { ptr = heap.ptr + n },
              map_block mmap heap n m,
            )))
  unfolding heap_alloc
  heap_alloc_lem heap n m v small = ground arith

  -- For a request that is not empty and fits, in a well-formed heap that maps its pages, one range
  -- of whole pages is mapped, and it covers the block. The region ends a page before 4 GiB at
  -- least.
  pub map_block-covers :
      (heap : Heap) (n : ℕ) (m : M)
      → IsHeap heap
      → bit_and heap.flag heap_alloc_noalloc ≡ 0
      → 0 < n
      → heap.ptr + n < heap.size
      → heap.start + heap.size + 4095 < 2 ^ 32
      → (from : ℕ) × (len : ℕ) × (map_block mmap heap n m
          ≡ mmap from 0 len (bit_and heap.flag 0xFFFF) m)
        × (from % 4096 ≡ 0)
        × (len % 4096 ≡ 0)
        × (from ≤ heap.start + heap.ptr)
        × (heap.start + heap.ptr + n ≤ from + len)
  unfolding map_block
  map_block-covers heap n m v alloc pos fits room =
      let from = page_floor (add32 heap.start heap.ptr) in
      let to = page_floor (add32 (add32 (add32 heap.start heap.ptr) n) 4095) in
      (from, sub32 to from, ground arith, omega arith, omega arith, omega arith, omega arith)

  -- The blocks that a run of requests gets, less the refused ones.
  pub blocks : Heap → List ℕ → M → List Block
  blocks heap [] m = []
  blocks heap (n ∷ ns) m =
      let (a, heap', m') = heap_alloc mmap heap n m in
      let rest = blocks heap' ns m' in if a == 0 then rest else (a, n) ∷ rest

  -- However many requests are made of a well-formed heap, refused ones among them, the blocks lie
  -- in the region one behind the other, so no two of them overlap. No request is so large that its
  -- end wraps.
  pub blocks-InOrder :
      (heap : Heap) (ns : List ℕ) (m : M)
      → IsHeap heap
      → All (λ n. heap.size + n < 2 ^ 32) ns
      → InOrder (heap.start + heap.ptr) (heap.start + heap.size) (blocks heap ns m)
  unfolding blocks
  blocks-InOrder heap [] m v h = omega arith
  blocks-InOrder heap (n ∷ ns) m v h = elim (heap_alloc_lem heap n m v (omega arith)) [
    | inl (_, e) ↦ rw e (blocks-InOrder heap ns m v h.1)
    | inr (fits, e) ↦
        let heap' = record heap { ptr = heap.ptr + n } in
        let m' = map_block mmap heap n m in
        let rest =
          blocks-InOrder heap' ns m'
            (record { positive = v.positive; inside = v.inside; used = omega arith }) h.1 in
        rw e (ground (arith, rest))
  ]
