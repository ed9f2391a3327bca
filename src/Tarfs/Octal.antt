-- ===== src/Tarfs/Octal.antt =====
-- The octal numbers of drivers/tarfs/tarfs.c.
use osdev_course.Common.{
  ℕ, zero, suc, ◌+◌, ◌-◌, ◌*◌, ◌^◌, ◌<◌, ◌≤◌, ◌≡◌, refl, ◌∙◌, ◌%◌, false, List, [], ◌∷◌, arith,
  ◌==◌, length, All, add64, ok,
}
use osdev_course.Kstring.{Memory}
use osdev_course.Kstring.Text.{IsString}
use osdev_course.Tarfs.{octal_digit, octal_loop, oct2uint64}

-- The number that the digits write, behind the number `r`.
abbrev pub octal_value : ℕ → List ℕ → ℕ
octal_value r [] = r
octal_value r (c ∷ cs) = octal_value (r * 8 + (c - 48)) cs

abbrev pub AreDigits : List ℕ → Type 0
AreDigits cs = All (λ c. (48 ≤ c) × (c < 56)) cs

octal_value-above : (r : ℕ) (cs : List ℕ) → r ≤ octal_value r cs
octal_value-above r [] = omega arith
octal_value-above r (c ∷ cs) = omega (arith, octal_value-above (r * 8 + (c - 48)) cs)

octal_loop-step :
    (fuel r s c : ℕ) (mem : Memory)
    → mem s ≡ c
    → 48 ≤ c
    → c < 56
    → r * 8 + (c - 48) < 2 ^ 64
    → octal_loop (suc fuel) r s mem ≡ octal_loop fuel (r * 8 + (c - 48)) (s + 1) mem
unfolding octal_loop
octal_loop-step fuel r s c mem e lo hi small =
    let set : (c == 0) ≡ false = ground arith in
    let next : add64 (r * 8 % 2 ^ 64) (octal_digit c) ≡ r * 8 + (c - 48) = ground arith in
    rw (e, set, next) refl

octal_loop-value :
    (fuel r s : ℕ) (mem : Memory) (cs : List ℕ)
    → length cs < fuel
    → IsString mem s cs
    → AreDigits cs
    → octal_value r cs < 2 ^ 64
    → octal_loop fuel r s mem ≡ ok (octal_value r cs)
unfolding octal_loop
octal_loop-value zero r s mem cs h str digits small = absurd (omega arith)
octal_loop-value (suc fuel) r s mem [] h str digits small = rw str refl
octal_loop-value (suc fuel) r s mem (c ∷ cs) h str digits small =
    octal_loop-step fuel r s c mem str.0 digits.0.0 digits.0.1
      (omega (arith, octal_value-above (r * 8 + (c - 48)) cs))
    ∙ octal_loop-value fuel (r * 8 + (c - 48)) (s + 1) mem cs (omega arith) str.3 digits.1 small

pub oct2uint64-value :
    (fuel s : ℕ) (mem : Memory) (cs : List ℕ)
    → length cs < fuel
    → IsString mem s cs
    → AreDigits cs
    → octal_value 0 cs < 2 ^ 64
    → oct2uint64 fuel s mem ≡ ok (octal_value 0 cs)
unfolding oct2uint64
oct2uint64-value fuel s mem cs h str digits small =
    octal_loop-value fuel 0 s mem cs h str digits small
