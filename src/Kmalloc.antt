-- ===== src/Kmalloc.antt =====
-- kernel/kmalloc.c: the kernel's allocator, four lists of free nodes above the bump allocator.
-- A node's header (`next`, `size`) stands in the 16 bytes below the address that a caller gets.
-- Interrupts are off while a list is changed, so a call is one step.
pub mod Chain
pub mod Lists
pub mod Taken
pub mod Keeps
pub mod Blocks
pub mod Alloc
pub mod Release
mod Tests
use osdev_course.Common.{
  ℕ, ◌*◌, zero, suc, ◌+◌, Bool, true, false, Option, none, some, ◌==◌, leb, if◌then◌else◌, add32,
  sub32, shr, shl32, update,
}
use osdev_course.Heap.{Heap, heap_alloc}

-- `__kmalloc_64`, `__kmalloc_512`, `__kmalloc_1024` and `__kmalloc_large`
pub data FreeList : Type 0 where
  kmalloc_64 kmalloc_512 kmalloc_1024 kmalloc_large : FreeList

abbrev pub same_list : FreeList → FreeList → Bool
same_list kmalloc_64 kmalloc_64 = true
same_list kmalloc_512 kmalloc_512 = true
same_list kmalloc_1024 kmalloc_1024 = true
same_list kmalloc_large kmalloc_large = true
same_list _ _ = false

-- A `struct KMALLOC_FREENODE*`: the node that a list's head holds, or the one at an address.
pub data Node : Type 0 where
  list_node : FreeList → Node
  node : ℕ → Node

-- The heads' `next`, the `next` and `size` words in memory, the heap below, and the state of the
-- memory manager that maps its pages.
pub record Kmalloc (M : Type 0) : Type 0 where
  pub head : FreeList → ℕ
  pub next : ℕ → ℕ
  pub size : ℕ → ℕ
  pub heap : Heap
  pub mmu : M

-- `__kheap_kmalloc`, a page above the kernel's end
abbrev pub kheap_kmalloc : ℕ → Heap
kheap_kmalloc kernel_end = record {
  start = add32 kernel_end 4096;
  ptr = 0;
  size = 1024 * 1024 * 16;
  flag = 0;
}

-- The request with its header, rounded up to 16 bytes.
pub round_size : ℕ → ℕ
round_size size = shl32 (shr (add32 size 31) 4) 4

-- The list that serves a rounded request, and the size that is asked of it.
pub classify : ℕ → FreeList × ℕ
classify size =
    if leb size 64
    then (kmalloc_64, 64)
    else if leb size 512
    then (kmalloc_512, 512)
    else if leb size 1024
    then (kmalloc_1024, 1024)
    else (kmalloc_large, size)

-- The list to which a node of a given size goes back.
pub list_of_size : ℕ → FreeList
list_of_size size =
    if leb size 64
    then kmalloc_64
    else if leb size 512
    then kmalloc_512
    else if leb size 1024
    then kmalloc_1024
    else kmalloc_large

module _ {M : Type 0} where
  pub get_next : Kmalloc M → Node → ℕ
  get_next s (list_node l) = s.head l
  get_next s (node p) = s.next p

  pub set_next : Kmalloc M → Node → ℕ → Kmalloc M
  set_next s (list_node l) v = record s { head = λ k. if same_list k l then v else s.head k }
  set_next s (node p) v = record s { next = update s.next p v }

  -- The lists of one size: the first node, if there is one, is taken off.
  pub take_first : FreeList → Kmalloc M → ℕ × Kmalloc M
  unfolding set_next
  take_first l s =
      let first = s.head l in
      if first == 0 then (0, s) else (first, set_next s (list_node l) (s.next first))

  -- The list of large nodes: the loop stops at the first node that is large enough and unlinks it,
  -- or at the end of the list with NULL. `none` means that the fuel ran out.
  pub find_fit : ℕ → ℕ → Node → Kmalloc M → Option (ℕ × Kmalloc M)
  unfolding get_next set_next
  find_fit zero size parent s = none
  find_fit (suc fuel) size parent s =
      let p = get_next s parent in
      let rest = find_fit fuel size (node p) s in
      if p == 0
      then some (0, s)
      else if leb size (s.size p)
      then some (p, set_next s parent (s.next p))
      else rest

  -- A node of a free list for the request (0 for none), by either of the two ways to look for it.
  pub pick : ℕ → FreeList → ℕ → Kmalloc M → Option (ℕ × Kmalloc M)
  unfolding take_first find_fit
  pick fuel l size s =
      if leb size 1024 then some (take_first l s) else find_fit fuel size (list_node l) s

  -- `kfree` puts the node below `ptr` at the front of the list of its size.
  unfoldable pub kfree : ℕ → Kmalloc M → Kmalloc M
  unfolding list_of_size set_next
  kfree ptr s =
      if ptr == 0
      then s
      else (let p = sub32 ptr 16 in
          let l = list_of_size (s.size p) in
          set_next (set_next s (node p) (s.head l)) (list_node l) p)

  module _ (mmap : (mem paddr size flag : ℕ) → M → M) where
    -- No free node serves the request: a new one is cut from the heap and gets its size.
    pub grow : ℕ → Kmalloc M → ℕ × Kmalloc M
    unfolding heap_alloc
    grow size s =
        let (p, heap, mmu) = heap_alloc mmap s.heap size s.mmu in
        if p == 0
        then (0, record s { heap = heap; mmu = mmu })
        else (add32 p 16, record s { heap = heap; mmu = mmu; size = update s.size p size })

    -- A list and a rounded size: a free node, or a new one.
    pub serve : ℕ → FreeList × ℕ → Kmalloc M → Option (ℕ × Kmalloc M)
    unfolding pick grow
    serve fuel (l, size) s = elim (pick fuel l size s) [
      | none ↦ none
      | some (p, s') ↦ some (if p == 0 then grow size s' else (add32 p 16, s'))
    ]

    -- `kmalloc` returns an address, 0 for NULL.
    unfoldable pub kmalloc : ℕ → ℕ → Kmalloc M → Option (ℕ × Kmalloc M)
    unfolding round_size classify serve
    kmalloc fuel size s = serve fuel (classify (round_size size)) s
