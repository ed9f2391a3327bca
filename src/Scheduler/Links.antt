-- ===== src/Scheduler/Links.antt =====
-- Doubly linked lists of threads behind a head, as kernel/scheduler.c keeps them: what links a list
-- has, and the three ways in which they change.
use osdev_course.Common.{
  ℕ, ◌≡◌, refl, ◌≢◌, ◌⊎◌, inl, inr, ◌||◌, true, false, List, [], ◌∷◌, ◌++◌, arith, ◌==◌,
  if◌then◌else◌, mem, Distinct, update,
}

-- From the node `from`, `next` leads through the list to NULL, and each `prev` leads one back.
abbrev pub Seg : (ℕ → ℕ) → (ℕ → ℕ) → ℕ → List ℕ → Type 0
Seg next prev from [] = next from ≡ 0
Seg next prev from (x ∷ xs) = (next from ≡ x) × (x ≢ 0) × (prev x ≡ from) × Seg next prev x xs

-- The last node of the list, or the head of an empty one.
abbrev pub last : ℕ → List ℕ → ℕ
last from [] = from
last from (x ∷ xs) = last x xs

pub Seg-frame :
    (next prev next' prev' : ℕ → ℕ) (from : ℕ) (xs : List ℕ)
    → Seg next prev from xs
    → next' from ≡ next from
    → ((z : ℕ) → mem z xs ≡ true → (next' z ≡ next z) × (prev' z ≡ prev z))
    → Seg next' prev' from xs
Seg-frame next prev next' prev' from [] s e same = ground arith
Seg-frame next prev next' prev' from (x ∷ xs) s e same =
    let (n, p) = same x (ground arith) in
    (
      ground arith,
      s.1,
      ground arith,
      Seg-frame next prev next' prev' x xs s.3 n (λ z m. same z (ground arith)),
    )

pub last-mem : (from : ℕ) (xs : List ℕ) → (last from xs ≡ from) ⊎ (mem (last from xs) xs ≡ true)
last-mem from [] = inl refl
last-mem from (x ∷ xs) = ground (arith, last-mem x xs)

pub last-append : (from x : ℕ) (xs : List ℕ) → last from (xs ++ x ∷ []) ≡ x
last-append from x [] = refl
last-append from x (y ∷ ys) = last-append y x ys

abbrev pub first : List ℕ → ℕ
first [] = 0
first (x ∷ xs) = x

pub first-mem : (xs : List ℕ) → (first xs ≡ 0) ⊎ (mem (first xs) xs ≡ true)
first-mem [] = inl refl
first-mem (x ∷ xs) = inr (ground arith)

-- `prev` of a node that may be NULL is overwritten.
abbrev pub update_some : (ℕ → ℕ) → ℕ → ℕ → ℕ → ℕ
update_some f p v = if p == 0 then f else update f p v

pub mem-append : (a : ℕ) (xs ys : List ℕ) → mem a (xs ++ ys) ≡ (mem a xs || mem a ys)
mem-append a [] ys = refl
mem-append a (x ∷ xs) ys = ground (arith, mem-append a xs ys)

-- A node `x` is linked between `xs` and `ys`.
pub Seg-insert :
    (next prev : ℕ → ℕ) (from x : ℕ) (xs ys : List ℕ)
    → Seg next prev from (xs ++ ys)
    → x ≢ 0
    → mem x (from ∷ (xs ++ ys)) ≡ false
    → Distinct (from ∷ (xs ++ ys))
    → Seg
        (update (update next x (first ys)) (last from xs) x)
        (update_some (update prev x (last from xs)) (first ys) x)
        from
        (xs ++ x ∷ ys)
Seg-insert next prev from x [] [] s pos out d = ground arith
Seg-insert next prev from x [] (y ∷ ys) s pos out d = (
  ground arith,
  pos,
  ground arith,
  (
    ground arith,
    s.1,
    ground arith,
    Seg-frame next prev _ _ y ys s.3 (ground arith) (λ z m. (ground arith, ground arith)),
  ),
)
Seg-insert next prev from x (z ∷ xs) ys s pos out d = (
  ground (arith, last-mem z xs, mem-append from xs ys),
  s.1,
  ground (arith, first-mem ys, mem-append z xs ys),
  Seg-insert next prev z x xs ys s.3 pos (ground arith) d.1,
)

-- The first node is taken off.
pub Seg-pop :
    (next prev : ℕ → ℕ) (from x : ℕ) (xs : List ℕ)
    → Seg next prev from (x ∷ xs)
    → Distinct (from ∷ x ∷ xs)
    → Seg (update next from (next x)) (update_some prev (next x) from) from xs
Seg-pop next prev from x [] s d = ground arith
Seg-pop next prev from x (y ∷ ys) s d = (
  ground arith,
  s.3.1,
  ground arith,
  Seg-frame next prev _ _ y ys s.3.3 (ground arith) (λ z m. (ground arith, ground arith)),
)
