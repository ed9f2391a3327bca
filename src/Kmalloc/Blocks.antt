-- ===== src/Kmalloc/Blocks.antt =====
-- The blocks that kernel/kmalloc.c has cut from its heap, which of them the callers hold, and what a
-- request asks for.
use osdev_course.Common.{
  ℕ, ◌+◌, ◌-◌, ◌^◌, ◌≤◌, ◌<◌, ◌≡◌, ◌≢◌, ◌⊎◌, inl, inr, true, false, List, [], ◌∷◌, arith, ◌==◌, leb,
  mem, Bool-cases, update,
}
use osdev_course.Heap.Blocks.{IsHeap}
use osdev_course.Kmalloc.{FreeList, Kmalloc, list_of_size, classify, round_size}
use osdev_course.Kmalloc.Lists.{Free, least, IsKmalloc}

-- The nodes cut from the addresses from `lo` to `hi`, last one first, each with the size in its
-- header.
abbrev pub Carved : (ℕ → ℕ) → ℕ → ℕ → List ℕ → Type 0
Carved size lo hi [] = lo ≤ hi
Carved size lo hi (x ∷ xs) = (x + size x ≤ hi) × (64 ≤ size x) × Carved size lo x xs

pub Carved-bounds :
    (size : ℕ → ℕ) (lo hi x : ℕ) (xs : List ℕ)
    → Carved size lo hi xs
    → mem x xs ≡ true
    → (lo ≤ x) × (x + size x ≤ hi) × (64 ≤ size x)
Carved-bounds size lo hi x [] c m = cc
Carved-bounds size lo hi x (y ∷ xs) c m = elim (Bool-cases (x == y)) [
  | inl e ↦ ground (arith, Carved-le size lo y xs c.2)
  | inr e ↦ ground (arith, Carved-bounds size lo y x xs c.2)
]
  where
    Carved-le : (size : ℕ → ℕ) (lo hi : ℕ) (xs : List ℕ) → Carved size lo hi xs → lo ≤ hi
    Carved-le size lo hi [] c = c
    Carved-le size lo hi (x ∷ xs) c = omega (arith, Carved-le size lo x xs c.2)

pub Carved-update :
    (size : ℕ → ℕ) (lo hi p v : ℕ) (xs : List ℕ)
    → hi ≤ p
    → Carved size lo hi xs
    → Carved (update size p v) lo hi xs
Carved-update size lo hi p v [] h c = c
Carved-update size lo hi p v (x ∷ xs) h c = ground (arith, Carved-update size lo x p v xs)

-- No two of them overlap.
pub Carved-apart :
    (size : ℕ → ℕ) (lo hi x y : ℕ) (xs : List ℕ)
    → Carved size lo hi xs
    → mem x xs ≡ true
    → mem y xs ≡ true
    → x ≢ y
    → (x + size x ≤ y) ⊎ (y + size y ≤ x)
Carved-apart size lo hi x y [] c m k ne = cc
Carved-apart size lo hi x y (z ∷ xs) c m k ne = ground (
  arith,
  Carved-bounds size lo z x xs c.2,
  Carved-bounds size lo z y xs c.2,
  Carved-apart size lo z x y xs c.2,
)

-- The request's list and rounded size: room for the header, and the size class of its list.
pub classify_lem :
    (n : ℕ)
    → n + 31 < 2 ^ 32
    → let (l, n') = classify (round_size n) in
      (n + 16 ≤ n')
      × (n' ≤ n + 1024)
      × (list_of_size n' ≡ l)
      × (least l ≤ n')
      × (64 ≤ least l)
      × ((leb n' 1024 ≡ true) → n' ≡ least l)
unfolding classify round_size list_of_size
classify_lem n h = ground arith

-- The whole state: well-formed free lists over blocks that were cut one behind the other.
pub record IsArena {M : Type 0} (s : Kmalloc M) (free : Free) (blocks : List ℕ) : Type 0 where
  pub lists : IsKmalloc s free
  pub heap : IsHeap s.heap
  pub carved : Carved s.size s.heap.start (s.heap.start + s.heap.ptr) blocks
  pub sizes : (x : ℕ) → mem x blocks ≡ true → least (list_of_size (s.size x)) ≤ s.size x
  pub known : (l : FreeList) (x : ℕ) → mem x (free l) ≡ true → mem x blocks ≡ true

-- A block that a caller holds: it was cut, and it stands on no free list.
pub record Live (free : Free) (blocks : List ℕ) (x : ℕ) : Type 0 where
  pub cut : mem x blocks ≡ true
  pub held : (l : FreeList) → mem x (free l) ≡ false

-- What a call of kmalloc for `n` bytes that returns the address `a` leaves behind.
pub record Got {M : Type 0} (s : Kmalloc M) (free : Free) (blocks : List ℕ) (n a : ℕ)
    (s' : Kmalloc M) (free' : Free) (blocks' : List ℕ) : Type 0 where
  pub arena : IsArena s' free' blocks'
  -- Who holds a block keeps it, with its size.
  pub kept : (y : ℕ) → Live free blocks y → Live free' blocks' y × (s'.size y ≡ s.size y)
  -- NULL, or a block of its own with room for the request behind its header, apart from all others.
  pub block :
      (a ≡ 0)
      ⊎ (16 ≤ a
          × Live free' blocks' (a - 16)
          × (n + 16 ≤ s'.size (a - 16))
          × ((y : ℕ) → Live free blocks y → (a + n ≤ y) ⊎ (y + s.size y ≤ a - 16)))
