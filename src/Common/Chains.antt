-- ===== src/Common/Chains.antt =====
-- Singly linked lists in memory: the `next` word of each node leads to the next one.
use Prim.Native.Nat.{ℕ}
use mathlib.Core.Path.{◌≡◌}
use mathlib.Core.Logic.{◌≢◌}
use mathlib.Core.Bool.{true, false}
use mathlib.Core.List.{List, [], ◌∷◌}
use native.Mathlib.Omega.{arith}
use osdev_course.Common.Lists.{mem}
use osdev_course.Common.Words.{update}

-- From the pointer `p` the `next` words lead through the nodes of the list to NULL.
abbrev pub Chain : (ℕ → ℕ) → ℕ → List ℕ → Type 0
Chain next p [] = p ≡ 0
Chain next p (x ∷ xs) = (p ≡ x) × (x ≢ 0) × Chain next (next x) xs

pub update_self : (f : ℕ → ℕ) (p v : ℕ) → update f p v p ≡ v
update_self f p v = ground arith

-- A write outside a chain leaves it alone.
pub Chain-update :
    (next : ℕ → ℕ) (p : ℕ) (xs : List ℕ) (a v : ℕ)
    → Chain next p xs
    → mem a xs ≡ false
    → Chain (update next a v) p xs
Chain-update next p [] a v c out = c
Chain-update next p (x ∷ xs) a v c out = ground (arith, Chain-update next (next x) xs a v)

pub Chain-frame :
    (next next' : ℕ → ℕ) (p : ℕ) (xs : List ℕ)
    → Chain next p xs
    → ((z : ℕ) → mem z xs ≡ true → next' z ≡ next z)
    → Chain next' p xs
Chain-frame next next' p [] c same = c
Chain-frame next next' p (x ∷ xs) c same = (
  c.0,
  c.1,
  rw (same x (ground arith))
      (Chain-frame next next' (next x) xs c.2 (λ z m. same z (ground arith))),
)

pub Chain-ne_zero :
    (next : ℕ → ℕ) (p x : ℕ) (xs : List ℕ) → Chain next p xs → mem x xs ≡ true → x ≢ 0
Chain-ne_zero next p x [] c m = cc
Chain-ne_zero next p x (y ∷ xs) c m = ground (arith, Chain-ne_zero next (next y) x xs)
