-- ===== src/Heap/Tests.antt =====
-- The allocator of kernel/heap.c run on inputs, and its theorems at inputs.
use osdev_course.Common.{ℕ, ◌+◌, ◌*◌, ◌%◌, ◌≤◌, ◌≡◌, refl, List, [], ◌∷◌, arith, bit_and, ◌++◌}
use osdev_course.Heap.{Heap, heap_create, map_block, heap_alloc}
use osdev_course.Heap.Blocks.{IsHeap, InOrder, map_block-covers, blocks, blocks-InOrder}

-- The memory manager's state is here the list of the calls that it got.
abbrev Calls : Type 0
Calls = List (ℕ × ℕ × ℕ × ℕ)

abbrev mmap : ℕ → ℕ → ℕ → ℕ → Calls → Calls
mmap mem paddr size flag m = m ++ (mem, paddr, size, flag) ∷ []

abbrev app_heap : Heap
app_heap = record { start = 0x01000000; ptr = 100; size = 1024 * 1024 * 32; flag = 6 }

app_heap-IsHeap : IsHeap app_heap
app_heap-IsHeap = omega arith

created : (heap_create 0x01000000 (1024 * 1024 * 32) 6).1.ptr ≡ 0
unfolding heap_create
created = refl

-- A block over a page boundary maps the two pages that it touches.
two_pages :
    heap_alloc mmap app_heap 4000 []
    ≡ (0x01000064, record app_heap { ptr = 4100 }, (0x01000000, 0, 8192, 6) ∷ [])
unfolding heap_alloc
two_pages = refl

vma_heap_maps_nothing : (heap_alloc mmap (record app_heap { flag = 0x10000 }) 4000 []).2 ≡ []
unfolding heap_alloc
vma_heap_maps_nothing = refl

map_block-covers_example :
    (from : ℕ) × (len : ℕ) × (map_block mmap app_heap 4000 []
      ≡ mmap from 0 len (bit_and 6 0xFFFF) [])
    × (from % 4096 ≡ 0)
    × (len % 4096 ≡ 0)
    × (from ≤ 0x01000000 + 100)
    × (0x01000000 + 100 + 4000 ≤ from + len)
map_block-covers_example =
    map_block-covers mmap app_heap 4000 [] app_heap-IsHeap refl (omega arith) (omega arith)
      (omega arith)

blocks-InOrder_example :
    InOrder
      (0x01000000 + 100)
      (0x01000000 + 1024 * 1024 * 32)
      (blocks mmap app_heap (16 ∷ 0x7000_0000 ∷ 24 ∷ []) [])
blocks-InOrder_example =
    blocks-InOrder mmap app_heap (16 ∷ 0x7000_0000 ∷ 24 ∷ []) [] app_heap-IsHeap (omega arith)
