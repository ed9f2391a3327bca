-- ===== src/Kstring/Compare.antt =====
-- The comparisons of kernel/kstring.c: kstrcmp and kstrncmp.
use osdev_course.Common.{
  ℕ, zero, suc, ◌+◌, ◌-◌, ◌^◌, ◌<◌, ◌≡◌, refl, ◌∙◌, ◌≢◌, ◌↔◌, inl, inr, true, false, List, [], ◌∷◌,
  ◌++◌, arith, ◌==◌, if◌then◌else◌, length, sub32, ok, Bool-cases,
}
use osdev_course.Kstring.{Memory, char_diff, end_order, kstrcmp, compare_upto, kstrncmp}
use osdev_course.Kstring.Text.{IsString, take}

-- Bytes differ as `char` exactly when they differ.
char_diff-zero : (c d : ℕ) → c < 256 → d < 256 → char_diff c d ≡ 0 → c ≡ d
char_diff-zero c d h k e = ground arith

char_diff_self : (c : ℕ) → c < 256 → (char_diff c c == 0) ≡ true
char_diff_self c h = ground arith

char_diff_other : (c d : ℕ) → c < 256 → d < 256 → c ≢ d → (char_diff c d == 0) ≡ false
char_diff_other c d h k ne = ground arith

kstrcmp-step :
    (fuel a b : ℕ) (mem : Memory)
    → mem a ≢ 0
    → mem a < 256
    → mem b ≡ mem a
    → kstrcmp (suc fuel) a b mem ≡ kstrcmp fuel (a + 1) (b + 1) mem
unfolding kstrcmp
kstrcmp-step fuel a b mem ne h e =
    let set : (mem a == 0) ≡ false = ground arith in rw (e, set, char_diff_self (mem a) h) refl

kstrcmp-stop :
    (fuel a b : ℕ) (mem : Memory)
    → mem a < 256
    → mem b < 256
    → mem a ≢ mem b
    → (r : ℕ) × (kstrcmp (suc fuel) a b mem ≡ ok r) × (r ≢ 0)
unfolding kstrcmp
kstrcmp-stop fuel a b mem h k ne =
    let other = char_diff_other (mem a) (mem b) h k ne in
    elim (Bool-cases (mem a == 0)) [
      | inl e ↦ (end_order (mem a) (mem b), rw e refl, λ z. absurd (ground arith))
      | inr e ↦ elim (Bool-cases (mem b == 0)) [
        | inl f ↦ (end_order (mem a) (mem b), rw (e, f) refl, λ z. absurd (ground arith))
        | inr f ↦ (char_diff (mem a) (mem b), rw (e, f, other) refl, λ z. absurd (ground arith))
      ]
    ]

kstrcmp-end :
    (fuel a b : ℕ) (mem : Memory) → mem a ≡ 0 → mem b ≡ 0 → kstrcmp (suc fuel) a b mem ≡ ok 0
unfolding kstrcmp
kstrcmp-end fuel a b mem e f = rw (e, f) refl

-- kstrcmp ends with more fuel than the first string has bytes, and its result is 0 exactly when
-- the two strings are the same.
pub kstrcmp-zero :
    (fuel a b : ℕ) (mem : Memory) (cs ds : List ℕ)
    → length cs < fuel
    → IsString mem a cs
    → IsString mem b ds
    → (r : ℕ) × (kstrcmp fuel a b mem ≡ ok r) × ((r ≡ 0) ↔ (cs ≡ ds))
kstrcmp-zero zero a b mem cs ds h s t = absurd (omega arith)
kstrcmp-zero (suc fuel) a b mem [] [] h s t =
    (0, kstrcmp-end fuel a b mem s t, (λ e. refl, λ e. refl))
kstrcmp-zero (suc fuel) a b mem [] (d ∷ ds) h s t =
    let (r, run, ne) = kstrcmp-stop fuel a b mem (ground arith) (ground arith) (ground arith) in
    (r, run, (λ e. absurd (ne e), λ e. cc))
kstrcmp-zero (suc fuel) a b mem (c ∷ cs) [] h s t =
    let (r, run, ne) = kstrcmp-stop fuel a b mem (ground arith) (ground arith) (ground arith) in
    (r, run, (λ e. absurd (ne e), λ e. cc))
kstrcmp-zero (suc fuel) a b mem (c ∷ cs) (d ∷ ds) h s t = elim (Bool-cases (c == d)) [
  | inl same ↦
      let (r, run, iff) = kstrcmp-zero fuel (a + 1) (b + 1) mem cs ds (omega arith) s.3 t.3 in
      (
        r,
        kstrcmp-step fuel a b mem (ground arith) (ground arith) (ground arith) ∙ run,
        (λ e. let at : c ≡ d = ground arith in rw (at, iff.0 e) refl, λ e. iff.1 cc),
      )
  | inr other ↦
      let (r, run, ne) = kstrcmp-stop fuel a b mem (ground arith) (ground arith) (ground arith) in
      (r, run, (λ e. absurd (ne e), λ e. absurd (let at : c ≡ d = cc in ground arith)))
]

compare_upto-step :
    (fuel a b n : ℕ) (mem : Memory)
    → mem a ≢ 0
    → mem a < 256
    → mem b ≡ mem a
    → suc n < 2 ^ 32
    → compare_upto (suc fuel) a b (suc n) mem
      ≡ (if n == 0 then ok 0 else compare_upto fuel (a + 1) (b + 1) n mem)
unfolding compare_upto
compare_upto-step fuel a b n mem ne h e small =
    let set : (mem a == 0) ≡ false = ground arith in
    let left : sub32 (suc n) 1 ≡ n = omega arith in rw (e, set, char_diff_self (mem a) h, left) refl

compare_upto-stop :
    (fuel a b n : ℕ) (mem : Memory)
    → mem a < 256
    → mem b < 256
    → mem a ≢ mem b
    → (r : ℕ) × (compare_upto (suc fuel) a b n mem ≡ ok r) × (r ≢ 0)
unfolding compare_upto
compare_upto-stop fuel a b n mem h k ne =
    let other = char_diff_other (mem a) (mem b) h k ne in
    elim (Bool-cases (mem a == 0)) [
      | inl e ↦ (end_order (mem a) (mem b), rw e refl, λ z. absurd (ground arith))
      | inr e ↦ elim (Bool-cases (mem b == 0)) [
        | inl f ↦ (end_order (mem a) (mem b), rw (e, f) refl, λ z. absurd (ground arith))
        | inr f ↦ (char_diff (mem a) (mem b), rw (e, f, other) refl, λ z. absurd (ground arith))
      ]
    ]

compare_upto-end :
    (fuel a b n : ℕ) (mem : Memory)
    → mem a ≡ 0
    → mem b ≡ 0
    → compare_upto (suc fuel) a b n mem ≡ ok 0
unfolding compare_upto
compare_upto-end fuel a b n mem e f = rw (e, f) refl

compare_upto-zero :
    (fuel a b n : ℕ) (mem : Memory) (cs ds : List ℕ)
    → length cs < fuel
    → 0 < n
    → n < 2 ^ 32
    → IsString mem a cs
    → IsString mem b ds
    → (r : ℕ) × (compare_upto fuel a b n mem ≡ ok r) × ((r ≡ 0) ↔ (take n cs ≡ take n ds))
compare_upto-zero zero a b n mem cs ds h pos small s t = absurd (omega arith)
compare_upto-zero (suc fuel) a b zero mem cs ds h pos small s t = absurd (omega arith)
compare_upto-zero (suc fuel) a b (suc n) mem [] [] h pos small s t =
    (0, compare_upto-end fuel a b (suc n) mem s t, (λ e. refl, λ e. refl))
compare_upto-zero (suc fuel) a b (suc n) mem [] (d ∷ ds) h pos small s t =
    let (r, run, ne) =
      compare_upto-stop fuel a b (suc n) mem (ground arith) (ground arith) (ground arith) in
    (r, run, (λ e. absurd (ne e), λ e. cc))
compare_upto-zero (suc fuel) a b (suc n) mem (c ∷ cs) [] h pos small s t =
    let (r, run, ne) =
      compare_upto-stop fuel a b (suc n) mem (ground arith) (ground arith) (ground arith) in
    (r, run, (λ e. absurd (ne e), λ e. cc))
compare_upto-zero (suc fuel) a b (suc n) mem (c ∷ cs) (d ∷ ds) h pos small s t =
    elim (Bool-cases (c == d)) [
      | inl same ↦ elim (Bool-cases (n == 0)) [
        | inl last ↦ (
          0,
          compare_upto-step fuel a b n mem (ground arith) (ground arith) (ground arith) small
              ∙ rw last refl,
          (λ e. one_left n c d cs ds (ground arith) (ground arith), λ e. refl),
        )
        | inr more ↦
            let (r, run, iff) =
              compare_upto-zero fuel (a + 1) (b + 1) n mem cs ds (omega arith) (ground arith)
                (omega arith) s.3 t.3 in
            (
              r,
              compare_upto-step fuel a b n mem (ground arith) (ground arith) (ground arith) small
                  ∙ rw more run,
              (λ e. let at : c ≡ d = ground arith in rw (at, iff.0 e) refl, λ e. iff.1 cc),
            )
      ]
      | inr other ↦
          let (r, run, ne) =
            compare_upto-stop fuel a b (suc n) mem (ground arith) (ground arith) (ground arith) in
          (r, run, (λ e. absurd (ne e), λ e. absurd (let at : c ≡ d = cc in ground arith)))
    ]
  where
    one_left :
        (n c d : ℕ) (cs ds : List ℕ) → n ≡ 0 → c ≡ d → take (suc n) (c ∷ cs) ≡ take (suc n) (d ∷ ds)
    one_left zero c d cs ds e at = rw at refl
    one_left (suc n) c d cs ds e at = absurd (omega arith)

-- kstrncmp ends with more fuel than the first string has bytes, and its result is 0 exactly when
-- the first `n` bytes of the two strings, or all of them where there are fewer, are the same.
pub kstrncmp-zero :
    (fuel a b n : ℕ) (mem : Memory) (cs ds : List ℕ)
    → length cs < fuel
    → n < 2 ^ 32
    → IsString mem a cs
    → IsString mem b ds
    → (r : ℕ) × (kstrncmp fuel a b n mem ≡ ok r) × ((r ≡ 0) ↔ (take n cs ≡ take n ds))
unfolding kstrncmp
kstrncmp-zero fuel a b zero mem cs ds h small s t = (0, refl, (λ e. refl, λ e. refl))
kstrncmp-zero fuel a b (suc n) mem cs ds h small s t =
    let set : (suc n == 0) ≡ false = ground arith in
    rw set (compare_upto-zero fuel a b (suc n) mem cs ds h (omega arith) small s t)

-- With more fuel than the other string has bytes, kstrcmp of a string that goes on where the other
-- one ends gives -1.
pub kstrcmp-prefix :
    (fuel a b d : ℕ) (mem : Memory) (cs ds : List ℕ)
    → length cs < fuel
    → IsString mem a (cs ++ d ∷ ds)
    → IsString mem b cs
    → kstrcmp fuel a b mem ≡ ok (2 ^ 32 - 1)
unfolding kstrcmp
kstrcmp-prefix zero a b d mem cs ds h s t = absurd (omega arith)
kstrcmp-prefix (suc fuel) a b d mem [] ds h s t =
    let set : (mem a == 0) ≡ false = ground arith in rw (set, t) refl
kstrcmp-prefix (suc fuel) a b d mem (c ∷ cs) ds h s t =
    kstrcmp-step fuel a b mem (ground arith) (ground arith) (ground arith)
    ∙ kstrcmp-prefix fuel (a + 1) (b + 1) d mem cs ds (omega arith) s.3 t.3
