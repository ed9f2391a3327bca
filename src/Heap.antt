-- ===== src/Heap.antt =====
-- kernel/heap.c, kernel/heap.h and kernel/vma_alloc.c: the bump allocator behind kmalloc, sbrk and
-- the kernel's address ranges. The pages of a block are mapped by the memory manager, whose state
-- `M` and operation `mmap` are parameters here.
pub mod Blocks
mod Tests
use osdev_course.Common.{
  ℕ, ◌*◌, Bool, true, bit_and, ◌==◌, leb, ltb, if◌then◌else◌, add32, sub32, shr, shl32,
}

-- `struct HEAP`
pub record Heap : Type 0 where
  pub start : ℕ
  pub ptr : ℕ
  pub size : ℕ
  pub flag : ℕ

abbrev pub heap_alloc_noalloc : ℕ
heap_alloc_noalloc = 0x00010000

-- `__kheap_vmaalloc`, from which `vma_alloc` hands out addresses
abbrev pub kheap_vmaalloc : Heap
kheap_vmaalloc = record {
  start = 0xE0000000;
  ptr = 0;
  size = 1024 * 1024 * 64;
  flag = heap_alloc_noalloc;
}

-- `heap_create` fills `*heap` and returns true.
pub heap_create : (start size flag : ℕ) → Bool × Heap
heap_create start size flag = (true, record { start = start; ptr = 0; size = size; flag = flag })

-- The page below an address, `(a >> 12) << 12`.
abbrev pub page_floor : ℕ → ℕ
page_floor a = shl32 (shr a 12) 12

module _ {M : Type 0} (mmap : (mem paddr size flag : ℕ) → M → M) where
  -- The pages from `from` to `to` are mapped unless the heap only hands out addresses.
  pub map_block : Heap → ℕ → M → M
  map_block heap size m =
      if bit_and heap.flag heap_alloc_noalloc == 0
      then (let from = page_floor (add32 heap.start heap.ptr) in
          let to = page_floor (add32 (add32 (add32 heap.start heap.ptr) size) 4095) in
          if ltb from to then mmap from 0 (sub32 to from) (bit_and heap.flag 0xFFFF) m else m)
      else m

  -- `heap_alloc` returns an address (0 is NULL), the heap and the memory manager's state.
  unfoldable pub heap_alloc : Heap → ℕ → M → ℕ × Heap × M
  unfolding map_block
  heap_alloc heap size m = if leb heap.size (add32 heap.ptr size) then (0, heap, m) else (
    add32 heap.start heap.ptr,
    record heap { ptr = add32 heap.ptr size },
    map_block heap size m,
  )

  -- `vma_alloc`
  unfoldable pub vma_alloc : Heap → ℕ → M → ℕ × Heap × M
  unfolding heap_alloc
  vma_alloc heap size m = heap_alloc heap size m
