-- ===== src/Kmalloc/Taken.antt =====
-- The nodes of a free list of kernel/kmalloc.c before and after one is taken off it.
use osdev_course.Common.{
  ℕ, ◌≤◌, ◌≡◌, refl, ◌≢◌, true, false, List, [], ◌∷◌, arith, ◌==◌, leb, mem, Distinct,
}
use osdev_course.Kmalloc.Chain.{first_fit, without_fit}
use osdev_course.Kmalloc.Lists.{taken}

module _ (size : ℕ → ℕ) (n : ℕ) where
  mem-without_fit : (z : ℕ) (xs : List ℕ) → mem z (without_fit size n xs) ≡ true → mem z xs ≡ true
  unfolding without_fit
  mem-without_fit z [] m = m
  mem-without_fit z (x ∷ xs) m = ground (arith, mem-without_fit z xs)

  Distinct-without_fit : (xs : List ℕ) → Distinct xs → Distinct (without_fit size n xs)
  unfolding without_fit
  Distinct-without_fit [] d = d
  Distinct-without_fit (x ∷ xs) d = ground (arith, mem-without_fit x xs, Distinct-without_fit xs)

  first_fit-mem : (xs : List ℕ) → first_fit size n xs ≢ 0 → mem (first_fit size n xs) xs ≡ true
  unfolding first_fit
  first_fit-mem [] h = absurd (h refl)
  first_fit-mem (x ∷ xs) h = ground (arith, first_fit-mem xs)

  first_fit-room : (xs : List ℕ) → first_fit size n xs ≢ 0 → n ≤ size (first_fit size n xs)
  unfolding first_fit
  first_fit-room [] h = absurd (h refl)
  first_fit-room (x ∷ xs) h = ground (arith, first_fit-room xs)

  first_fit-gone :
      (xs : List ℕ)
      → first_fit size n xs ≢ 0
      → Distinct xs
      → mem (first_fit size n xs) (without_fit size n xs) ≡ false
  unfolding first_fit without_fit
  first_fit-gone [] h d = absurd (h refl)
  first_fit-gone (x ∷ xs) h d = ground (arith, first_fit-gone xs, first_fit-mem xs)

  without_fit-keeps :
      (z : ℕ) (xs : List ℕ)
      → (z == first_fit size n xs) ≡ false
      → mem z (without_fit size n xs) ≡ mem z xs
  unfolding first_fit without_fit
  without_fit-keeps z [] e = refl
  without_fit-keeps z (x ∷ xs) e = ground (arith, without_fit-keeps z xs)

  pub mem-taken : (z : ℕ) (xs : List ℕ) → mem z (taken size n xs).1 ≡ true → mem z xs ≡ true
  unfolding taken
  mem-taken z [] m = m
  mem-taken z (x ∷ xs) m = ground (arith, mem-without_fit z (x ∷ xs))

  pub Distinct-taken : (xs : List ℕ) → Distinct xs → Distinct (taken size n xs).1
  unfolding taken
  Distinct-taken [] d = d
  Distinct-taken (x ∷ xs) d = ground (arith, Distinct-without_fit (x ∷ xs))

  pub taken-mem : (xs : List ℕ) → (taken size n xs).0 ≢ 0 → mem (taken size n xs).0 xs ≡ true
  unfolding taken
  taken-mem [] h = absurd (h refl)
  taken-mem (x ∷ xs) h = ground (arith, first_fit-mem (x ∷ xs))

  pub taken-gone :
      (xs : List ℕ)
      → (taken size n xs).0 ≢ 0
      → Distinct xs
      → mem (taken size n xs).0 (taken size n xs).1 ≡ false
  unfolding taken
  taken-gone [] h d = refl
  taken-gone (x ∷ xs) h d = ground (arith, first_fit-gone (x ∷ xs))

  pub taken-keeps :
      (z : ℕ) (xs : List ℕ)
      → (z == (taken size n xs).0) ≡ false
      → mem z (taken size n xs).1 ≡ mem z xs
  unfolding taken
  taken-keeps z [] e = refl
  taken-keeps z (x ∷ xs) e = ground (arith, without_fit-keeps z (x ∷ xs))

  pub taken-room :
      (xs : List ℕ) → leb n 1024 ≡ false → (taken size n xs).0 ≢ 0 → n ≤ size (taken size n xs).0
  unfolding taken
  taken-room [] big h = absurd (h refl)
  taken-room (x ∷ xs) big h = ground (arith, first_fit-room (x ∷ xs))
