-- ===== src/Common/Bits.antt =====
-- The bit operations at masks and at aligned numbers, from their laws for the lowest digit.
use Prim.Native.Nat.{
  ℕ, zero, suc, ◌+◌, ◌*◌, ◌/◌, ◌%◌, ◌≤◌, ◌<◌, min, max, bit_and, bit_or, digits, bit_and-bitwise,
  bit_or-bitwise,
}
use mathlib.Core.Path.{◌≡◌, refl, ap}
use native.Mathlib.Omega.{arith}

module _ (end_of : ℕ → ℕ) (digit : ℕ → ℕ → ℕ) where
  -- A count of digits that covers the first number does not matter.
  digits-count :
      (n m a b : ℕ) → a ≤ n → a ≤ m → digits end_of digit n a b ≡ digits end_of digit m a b
  digits-count zero zero a b p q = refl
  digits-count zero (suc m) zero b p q = refl
  digits-count zero (suc m) (suc a) b p q = absurd (omega arith)
  digits-count (suc n) zero zero b p q = refl
  digits-count (suc n) zero (suc a) b p q = absurd (omega arith)
  digits-count (suc n) (suc m) zero b p q = refl
  digits-count (suc n) (suc m) (suc a) b p q =
      omega (arith, digits-count n m (suc a / 2) (b / 2) (omega arith) (omega arith))

-- The lowest digit.
and_lowest : (a b : ℕ) → bit_and a b ≡ bit_and (a / 2) (b / 2) * 2 + min (a % 2) (b % 2)
and_lowest zero b = omega (arith, bit_and-bitwise 0 b, bit_and-bitwise 0 (b / 2))
and_lowest (suc a) b = omega (
  arith,
  bit_and-bitwise (suc a) b,
  bit_and-bitwise (suc a / 2) (b / 2),
  digits-count (λ b. zero) min a (suc a / 2) (suc a / 2) (b / 2) (omega arith) (omega arith),
)

pub or_lowest : (a b : ℕ) → bit_or a b ≡ bit_or (a / 2) (b / 2) * 2 + max (a % 2) (b % 2)
or_lowest zero b = omega (arith, bit_or-bitwise 0 b, bit_or-bitwise 0 (b / 2))
or_lowest (suc a) b = omega (
  arith,
  bit_or-bitwise (suc a) b,
  bit_or-bitwise (suc a / 2) (b / 2),
  digits-count (λ b. b) max a (suc a / 2) (suc a / 2) (b / 2) (omega arith) (omega arith),
)

-- A number shifted by k digits, and a mask of k ones.
abbrev pub up : ℕ → ℕ → ℕ
up zero x = x
up (suc k) x = up k x * 2

abbrev pub down : ℕ → ℕ → ℕ
down zero x = x
down (suc k) x = down k (x / 2)

abbrev pub ones : ℕ → ℕ
ones zero = 0
ones (suc k) = ones k * 2 + 1

pub down-up : (k a : ℕ) → (up k (down k a) ≤ a) × (a < up k (down k a) + up k 1)
down-up zero a = (omega arith, omega arith)
down-up (suc k) a = let h = down-up k (a / 2) in (omega (arith, h.0, h.1), omega (arith, h.0, h.1))

and_zero : (n a : ℕ) → a ≤ n → bit_and a 0 ≡ 0
and_zero n zero h = refl
and_zero zero (suc a) h = absurd (omega arith)
and_zero (suc n) (suc a) h =
    omega (arith, and_lowest (suc a) 0, and_zero n (suc a / 2) (omega arith))

or_zero : (n a : ℕ) → a ≤ n → bit_or a 0 ≡ a
or_zero n zero h = refl
or_zero zero (suc a) h = absurd (omega arith)
or_zero (suc n) (suc a) h = omega (arith, or_lowest (suc a) 0, or_zero n (suc a / 2) (omega arith))

half_double : (b : ℕ) → b * 2 / 2 ≡ b
half_double b = omega arith

half_odd : (b : ℕ) → (b * 2 + 1) / 2 ≡ b
half_odd b = omega arith

and_even : (a b : ℕ) → bit_and a (b * 2) ≡ bit_and (a / 2) b * 2
and_even a b = omega (arith, and_lowest a (b * 2), ap (bit_and (a / 2)) (half_double b))

pub and_odd : (a b : ℕ) → bit_and a (b * 2 + 1) ≡ bit_and (a / 2) b * 2 + a % 2
and_odd a b = omega (arith, and_lowest a (b * 2 + 1), ap (bit_and (a / 2)) (half_odd b))

or_even : (a b : ℕ) → bit_or (a * 2) b ≡ bit_or a (b / 2) * 2 + b % 2
or_even a b = omega (arith, or_lowest (a * 2) b, ap (λ x. bit_or x (b / 2)) (half_double a))

-- A mask that is shifted selects from the digits above.
pub bit_and-up : (k a m : ℕ) → bit_and a (up k m) ≡ up k (bit_and (down k a) m)
bit_and-up zero a m = refl
bit_and-up (suc k) a m = omega (arith, and_even a (up k m), bit_and-up k (a / 2) m)

-- A mask of ones keeps what the shift drops.
pub bit_and-ones : (k a : ℕ) → bit_and a (ones k) + up k (down k a) ≡ a
bit_and-ones zero a = omega (arith, and_zero a a (omega arith))
bit_and-ones (suc k) a = omega (arith, and_odd a (ones k), bit_and-ones k (a / 2))

-- Numbers without common digits are added.
pub bit_or-up : (k x y : ℕ) → y < up k 1 → bit_or (up k x) y ≡ up k x + y
bit_or-up zero x y h =
    let e : y ≡ 0 = omega arith in omega (arith, ap (bit_or x) e, or_zero x x (omega arith))
bit_or-up (suc k) x y h = omega (arith, or_even (up k x) y, bit_or-up k x (y / 2) (omega arith))

pub bit_or-one : (a : ℕ) → bit_or a 1 ≡ a / 2 * 2 + 1
bit_or-one a = omega (arith, or_lowest a 1, or_zero (a / 2) (a / 2) (omega arith))
