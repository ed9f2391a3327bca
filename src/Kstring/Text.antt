-- ===== src/Kstring/Text.antt =====
-- The strings of kernel/kstring.c seen as lists of bytes.
use osdev_course.Common.{
  ℕ, zero, suc, ◌+◌, ◌^◌, ◌<◌, ◌≤◌, ◌≡◌, List, [], ◌∷◌, arith, ◌==◌, false, length, add32, ok,
}
use osdev_course.Kstring.{Memory, count_string, kstrlen}

-- The bytes of the list stand at the address, none of them NUL, and a NUL behind them.
abbrev pub IsString : Memory → ℕ → List ℕ → Type 0
IsString mem a [] = mem a ≡ 0
IsString mem a (c ∷ cs) = (mem a ≡ c) × (0 < c) × (c < 256) × IsString mem (a + 1) cs

abbrev pub take : ℕ → List ℕ → List ℕ
take zero cs = []
take (suc n) [] = []
take (suc n) (c ∷ cs) = c ∷ take n cs

-- A string is not touched by writes outside it.
pub IsString-frame :
    (mem mem' : Memory) (a : ℕ) (cs : List ℕ)
    → IsString mem a cs
    → ((z : ℕ) → a ≤ z → z ≤ a + length cs → mem' z ≡ mem z)
    → IsString mem' a cs
IsString-frame mem mem' a [] s same = ground (arith, same a)
IsString-frame mem mem' a (c ∷ cs) s same = (
  ground (arith, same a),
  s.1,
  s.2,
  IsString-frame mem mem' (a + 1) cs s.3 (λ z lo hi. same z (omega arith) (omega arith)),
)

count_string-length :
    (fuel count total a : ℕ) (mem : Memory) (cs : List ℕ)
    → length cs < fuel
    → total ≡ count + length cs
    → total < 2 ^ 32
    → IsString mem a cs
    → count_string fuel count a mem ≡ ok total
unfolding count_string
count_string-length zero count total a mem cs h e small s = absurd (omega arith)
count_string-length (suc fuel) count total a mem [] h e small s = ground arith
count_string-length (suc fuel) count total a mem (c ∷ cs) h e small s =
    let next : add32 count 1 ≡ count + 1 = omega arith in
    let set : (mem a == 0) ≡ false = ground arith in
    rw (set, next)
      (count_string-length fuel (count + 1) total (a + 1) mem cs (omega arith) (omega arith) small
        s.3)

-- With more fuel than the string has bytes, kstrlen ends with the string's length, which is below
-- 2^32.
pub kstrlen-length :
    (fuel a : ℕ) (mem : Memory) (cs : List ℕ)
    → length cs < fuel
    → length cs < 2 ^ 32
    → IsString mem a cs
    → kstrlen fuel a mem ≡ ok (length cs)
unfolding kstrlen
kstrlen-length fuel a mem cs h small s =
    count_string-length fuel 0 (length cs) a mem cs h (omega arith) small s
