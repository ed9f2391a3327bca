-- ===== src/Kstring/Tests.antt =====
-- kernel/kstring.c run on inputs, and its theorems at inputs.
use osdev_course.Common.{
  ℕ, ◌+◌, ◌-◌, ◌<◌, ◌≤◌, ◌≡◌, refl, ◌↔◌, ◌⊎◌, inr, List, [], ◌∷◌, arith, length, update, ok,
}
use osdev_course.Kstring.{Memory, kstrncpy, kstrcmp}
use osdev_course.Kstring.Text.{IsString, take}
use osdev_course.Kstring.Copy.{kstrncpy-copies}
use osdev_course.Kstring.Compare.{kstrcmp-zero}

-- "ab" at 100 and "a" at 200.
abbrev texts : Memory
texts = update (update (update (λ _. 0) 100 97) 101 98) 200 97

abbrev two_letters : List ℕ
two_letters = 97 ∷ 98 ∷ []

abbrev one_letter : List ℕ
one_letter = 97 ∷ []

ab : IsString texts 100 (97 ∷ 98 ∷ [])
ab = (refl, omega arith, omega arith, (refl, omega arith, omega arith, refl))

a : IsString texts 200 (97 ∷ [])
a = (refl, omega arith, omega arith, refl)

kstrncpy-copies_example :
    (n : ℕ) × (mem' : Memory) × (kstrncpy 2 300 100 2 texts ≡ ok (n, mem'))
    × (n ≡ length (take (2 - 1) (97 ∷ 98 ∷ [])))
    × IsString mem' 300 (take (2 - 1) (97 ∷ 98 ∷ []))
    × ((z : ℕ) → (z < 300) ⊎ (300 + 2 ≤ z) → mem' z ≡ texts z)
kstrncpy-copies_example =
    kstrncpy-copies 2 300 100 2 texts (97 ∷ 98 ∷ []) (omega arith) (omega arith) (omega arith) ab
      (inr (omega arith))

kstrcmp-zero_example :
    (r : ℕ) × (kstrcmp 3 100 200 texts ≡ ok r) × ((r ≡ 0) ↔ (two_letters ≡ one_letter))
kstrcmp-zero_example = kstrcmp-zero 3 100 200 texts (97 ∷ 98 ∷ []) (97 ∷ []) (omega arith) ab a
