-- ===== src/Kmalloc/Chain.antt =====
-- The walk of kernel/kmalloc.c along a list of free nodes, against a search of the list.
use osdev_course.Common.{
  ℕ, zero, suc, ◌<◌, ◌≡◌, refl, inl, inr, false, some, List, [], ◌∷◌, arith, ◌==◌, leb,
  if◌then◌else◌, length, mem, Distinct, Bool-cases, update, Chain, Chain-update, update_self,
}
use osdev_course.Kmalloc.{node, Kmalloc, find_fit}

-- The first node of at least `n` bytes, and the list without it.
unfoldable pub first_fit : (ℕ → ℕ) → ℕ → List ℕ → ℕ
first_fit size n [] = 0
first_fit size n (x ∷ xs) = if leb n (size x) then x else first_fit size n xs

unfoldable pub without_fit : (ℕ → ℕ) → ℕ → List ℕ → List ℕ
without_fit size n [] = []
without_fit size n (x ∷ xs) = if leb n (size x) then xs else x ∷ without_fit size n xs

-- Outside the nodes of `xs` and the node `y` no word changes.
abbrev pub SameOutside : (ℕ → ℕ) → (ℕ → ℕ) → ℕ → List ℕ → Type 0
SameOutside next next' y xs = (z : ℕ) → (z == y) ≡ false → mem z xs ≡ false → next' z ≡ next z

module _ {M : Type 0} where
  -- The loop over the list of large nodes, entered behind a node `y`.
  pub find_fit-node :
      (fuel n y : ℕ) (s : Kmalloc M) (xs : List ℕ)
      → length xs < fuel
      → Chain s.next (s.next y) xs
      → mem y xs ≡ false
      → Distinct xs
      → (next : ℕ → ℕ) × (find_fit fuel n (node y) s
          ≡ some (first_fit s.size n xs, record s { next = next }))
        × Chain next (next y) (without_fit s.size n xs)
        × SameOutside s.next next y xs
  unfolding find_fit first_fit without_fit
  find_fit-node zero n y s xs h c out d = absurd (omega arith)
  find_fit-node (suc fuel) n y s [] h c out d = (s.next, ground arith, c, λ z _ _. refl)
  find_fit-node (suc fuel) n y s (x ∷ xs) h c out d = elim (Bool-cases (leb n (s.size x))) [
    | inl fits ↦ (
      update s.next y (s.next x),
      ground arith,
      rw (fits, update_self s.next y (s.next x))
          (Chain-update s.next (s.next x) xs y (s.next x) c.2 (ground arith)),
      λ z e _. ground arith,
    )
    | inr small ↦
        let (next, e, c', same) = find_fit-node fuel n x s xs (omega arith) c.2 d.0 d.1 in
        (next, ground arith, rw small (ground (arith, same y)), λ z p q. ground (arith, same z))
  ]
