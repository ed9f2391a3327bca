-- ===== src/Kmalloc/Lists.antt =====
-- The state of kernel/kmalloc.c seen as four lists of free nodes, and what taking a node off one of
-- them does.
use osdev_course.Common.{
  ℕ, zero, suc, ◌≤◌, ◌<◌, ◌≡◌, refl, inl, inr, true, false, Option, some, List, [], ◌∷◌, arith, leb,
  if◌then◌else◌, length, mem, Distinct, Bool-cases, Chain,
}
use osdev_course.Kmalloc.{
  FreeList, kmalloc_64, kmalloc_512, kmalloc_1024, kmalloc_large, same_list, list_node, Kmalloc,
  pick, list_of_size, find_fit,
}
use osdev_course.Kmalloc.Chain.{first_fit, without_fit, find_fit-node}

-- The free nodes of each list, first node first.
abbrev pub Free : Type 0
Free = FreeList → List ℕ

abbrev pub put : Free → FreeList → List ℕ → Free
put free l xs k = if same_list k l then xs else free k

-- The least size of a node on each list.
abbrev pub least : FreeList → ℕ
least kmalloc_64 = 64
least kmalloc_512 = 512
least kmalloc_1024 = 1024
least kmalloc_large = 1025

-- The words in memory represent the lists, no node stands twice, and each node is on the list of its
-- size and large enough for that list's requests.
pub record IsKmalloc {M : Type 0} (s : Kmalloc M) (free : Free) : Type 0 where
  pub chain : (l : FreeList) → Chain s.next (s.head l) (free l)
  pub distinct : (l : FreeList) → Distinct (free l)
  pub apart :
      (l k : FreeList) (x : ℕ)
      → same_list l k ≡ false
      → mem x (free l) ≡ true
      → mem x (free k) ≡ false
  pub sized : (l : FreeList) (x : ℕ) → mem x (free l) ≡ true → list_of_size (s.size x) ≡ l
  pub room : (l : FreeList) (x : ℕ) → mem x (free l) ≡ true → least l ≤ s.size x

-- What is taken from a list for a request of `n` bytes: a node (0 if there is none), and what is
-- left. The short lists hold nodes of one size, the list of large nodes is searched.
unfoldable pub taken : (ℕ → ℕ) → ℕ → List ℕ → ℕ × List ℕ
unfolding first_fit without_fit
taken size n [] = (0, [])
taken size n (x ∷ xs) =
    if leb n 1024 then (x, xs) else (first_fit size n (x ∷ xs), without_fit size n (x ∷ xs))

pub same_list_self : (l : FreeList) → same_list l l ≡ true
same_list_self kmalloc_64 = refl
same_list_self kmalloc_512 = refl
same_list_self kmalloc_1024 = refl
same_list_self kmalloc_large = refl

module _ {M : Type 0} where
  -- The outcome of taking a node off the list `l` of nodes `xs`, by the words that may change.
  pub record Picked (s : Kmalloc M) (l : FreeList) (n : ℕ) (xs : List ℕ)
      (out : Option (ℕ × Kmalloc M)) (head : FreeList → ℕ) (next : ℕ → ℕ) : Type 0 where
    pub result : out ≡ some ((taken s.size n xs).0, record s { head = head; next = next })
    pub left : Chain next (head l) (taken s.size n xs).1
    pub heads : (k : FreeList) → same_list k l ≡ false → head k ≡ s.head k
    pub others : (z : ℕ) → mem z xs ≡ false → next z ≡ s.next z

  pick-big :
      (fuel n : ℕ) (l : FreeList) (s : Kmalloc M) (x : ℕ) (xs : List ℕ)
      → length xs < fuel
      → Chain s.next (s.head l) (x ∷ xs)
      → Distinct (x ∷ xs)
      → leb n 1024 ≡ false
      → (head : FreeList → ℕ) × (next : ℕ → ℕ) × Picked s l n
          (x ∷ xs)
          (find_fit (suc fuel) n (list_node l) s)
          head
          next
  unfolding taken find_fit
  pick-big fuel n l s x xs h c d big = elim (Bool-cases (leb n (s.size x))) [
    | inl fits ↦ (
      λ k. if same_list k l then s.next x else s.head k,
      s.next,
      record {
        result = ground arith;
        left = rw (big, fits, same_list_self l) c.2;
        heads = λ k e. rw e;
        others = λ z _. refl;
      },
    )
    | inr small ↦
        let (next, e, c', same) = find_fit-node fuel n x s xs h c.2 d.0 d.1 in
        (
          s.head,
          next,
          record {
            result = ground arith;
            left = rw (big, small) (c.0, c.1, c');
            heads = λ k _. refl;
            others = λ z e. ground (arith, same z);
          },
        )
  ]

  pub pick_lem :
      (fuel n : ℕ) (l : FreeList) (s : Kmalloc M) (xs : List ℕ)
      → length xs < fuel
      → Chain s.next (s.head l) xs
      → Distinct xs
      → (head : FreeList → ℕ) × (next : ℕ → ℕ) × Picked s l n xs (pick fuel l n s) head next
  unfolding pick taken find_fit
  pick_lem zero n l s xs h c d = absurd (omega arith)
  pick_lem (suc fuel) n l s [] h c d = (
    s.head,
    s.next,
    record { result = ground arith; left = c; heads = λ k _. refl; others = λ z _. refl },
  )
  pick_lem (suc fuel) n l s (x ∷ xs) h c d = elim (Bool-cases (leb n 1024)) [
    | inl small ↦ (
      λ k. if same_list k l then s.next x else s.head k,
      s.next,
      record {
        result = ground arith;
        left = rw (small, same_list_self l) c.2;
        heads = λ k e. rw e;
        others = λ z _. refl;
      },
    )
    | inr big ↦ rw big (pick-big fuel n l s x xs (omega arith) c d big)
  ]
