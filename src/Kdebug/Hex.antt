-- ===== src/Kdebug/Hex.antt =====
-- The digits of kernel/kdebug.c read back as a number.
use osdev_course.Common.{
  ℕ, zero, suc, ◌+◌, ◌-◌, ◌*◌, ◌%◌, ◌^◌, ◌<◌, ◌≡◌, refl, ◌∙◌, Bool-cases, ◌⊎◌, inl, inr, Bool, true,
  false, List, [], ◌∷◌, arith, ◌==◌, ltb, not, ◌&&◌, ==_iff, if◌then◌else◌, length, mem, All, shr,
  shl32, update,
}
use osdev_course.Kstring.{Memory}
use osdev_course.Kstring.Text.{IsString}
use osdev_course.Kdebug.{tohex, asc_loop32, hextoasc32, asc_loop64, hextoasc64}

-- What a hexadecimal digit stands for, in either case.
abbrev pub digit_value : ℕ → ℕ
digit_value c = if ltb c 58 then c - 48 else if ltb c 71 then c - 55 else c - 87

-- The number that the digits write, behind the number `acc`; a colon between digits is passed over.
abbrev pub value : ℕ → List ℕ → ℕ
value acc [] = acc
value acc (c ∷ cs) = value (if c == 58 then acc else acc * 16 + digit_value c) cs

abbrev nibbles : List ℕ
nibbles = 0 ∷ 1 ∷ 2 ∷ 3 ∷ 4 ∷ 5 ∷ 6 ∷ 7 ∷ 8 ∷ 9 ∷ 10 ∷ 11 ∷ 12 ∷ 13 ∷ 14 ∷ 15 ∷ []

nibble-mem : (d : ℕ) → d < 16 → mem d nibbles ≡ true
nibble-mem d h = ground arith

All-mem :
    (p : ℕ → Bool) (x : ℕ) (xs : List ℕ) → All (λ y. p y ≡ true) xs → mem x xs ≡ true → p x ≡ true
All-mem p x [] all m = cc
All-mem p x (y ∷ ys) all m = elim (Bool-cases (x == y)) [
  | inl e ↦ let at : x ≡ y = ground arith in rw at all.0
  | inr e ↦ All-mem p x ys all.1 (ground arith)
]

abbrev is_digit : Bool → ℕ → Bool
is_digit upper d =
    let c = tohex d upper in (digit_value c == d) && (ltb 0 c && (ltb c 256 && not (c == 58)))

digits_table : (upper : Bool) → All (λ d. is_digit upper d ≡ true) nibbles
unfolding tohex
digits_table true = ground arith
digits_table false = ground arith

tohex-value :
    (d : ℕ) (upper : Bool)
    → d < 16
    → (digit_value (tohex d upper) ≡ d)
      × (0 < tohex d upper)
      × (tohex d upper < 256)
      × ((tohex d upper == 58) ≡ false)
tohex-value d upper h =
    let test : is_digit upper d ≡ true =
      All-mem (is_digit upper) d nibbles (digits_table upper) (nibble-mem d h) in
    (
      (==_iff (digit_value (tohex d upper)) d).0 (ground arith),
      ground arith,
      ground arith,
      ground arith,
    )

value-digit :
    (acc c d : ℕ) (cs : List ℕ)
    → digit_value c ≡ d
    → (c == 58) ≡ false
    → value acc (c ∷ cs) ≡ value (acc * 16 + d) cs
value-digit acc c d cs e no_colon = rw (no_colon, e) refl

-- The number that the loop's digits make up, behind `acc`.
abbrev read32 : (left num acc : ℕ) → ℕ
read32 zero num acc = acc
read32 (suc left) num acc = read32 left (shl32 num 4) (acc * 16 + shr num 28)

asc_loop32-read :
    (left num des acc : ℕ) (upper : Bool) (mem : Memory)
    → num < 2 ^ 32
    → (cs : List ℕ) × (length cs ≡ left)
      × IsString (asc_loop32 left num des upper mem) des cs
      × (value acc cs ≡ read32 left num acc)
      × ((z : ℕ) → (z < des) ⊎ (des + left < z) → asc_loop32 left num des upper mem z ≡ mem z)
unfolding asc_loop32
asc_loop32-read zero num des acc upper mem h = ([], refl, ground arith, refl, λ z k. ground arith)
asc_loop32-read (suc left) num des acc upper mem h =
    let c = tohex (shr num 28) upper in
    let (same, pos, byte, no_colon) = tohex-value (shr num 28) upper (omega arith) in
    let (cs, len, string, read, rest) =
      asc_loop32-read left (shl32 num 4) (des + 1) (acc * 16 + shr num 28) upper (update mem des c)
        (omega arith) in
    (
      c ∷ cs,
      omega (arith, len),
      (ground (arith, rest des), pos, byte, string),
      value-digit acc c (shr num 28) cs same no_colon ∙ read,
      λ z k. ground (arith, rest z),
    )

read32-all : (n : ℕ) → n < 2 ^ 32 → read32 8 n 0 ≡ n
read32-all n h = omega arith

-- For a number of 32 bits hextoasc32 writes a string of eight digits that reads as the number, in
-- the nine bytes of its buffer and no others.
pub hextoasc32-value :
    (n des : ℕ) (upper : Bool) (mem : Memory)
    → n < 2 ^ 32
    → (cs : List ℕ) × (length cs ≡ 8)
      × IsString (hextoasc32 n des upper mem) des cs
      × (value 0 cs ≡ n)
      × ((z : ℕ) → (z < des) ⊎ (des + 8 < z) → hextoasc32 n des upper mem z ≡ mem z)
unfolding hextoasc32
hextoasc32-value n des upper mem h =
    let (cs, len, string, read, rest) = asc_loop32-read 8 n des 0 upper mem h in
    (cs, len, string, read ∙ read32-all n h, rest)

abbrev read64 : (left num acc : ℕ) → ℕ
read64 zero num acc = acc
read64 (suc left) num acc = read64 left (num * 2 ^ 4 % 2 ^ 64) (acc * 16 + shr num 60)

-- The bytes that the loop writes from the digit `i` on.
abbrev room : (left i : ℕ) → ℕ
room zero i = 0
room (suc left) i = (if i == 8 then 2 else 1) + room left (i + 1)

asc_loop64-read :
    (left i num des acc : ℕ) (upper : Bool) (mem : Memory)
    → num < 2 ^ 64
    → (cs : List ℕ) × (length cs ≡ room left i)
      × IsString (asc_loop64 left i num des upper mem) des cs
      × (value acc cs ≡ read64 left num acc)
      × ((z : ℕ)
          → (z < des) ⊎ (des + room left i < z)
          → asc_loop64 left i num des upper mem z ≡ mem z)
unfolding asc_loop64
asc_loop64-read zero i num des acc upper mem h = ([], refl, ground arith, refl, λ z k. ground arith)
asc_loop64-read (suc left) i num des acc upper mem h =
    let c = tohex (shr num 60) upper in
    let (same, pos, byte, no_colon) = tohex-value (shr num 60) upper (omega arith) in
    elim (Bool-cases (i == 8)) [
      | inl e ↦
          let (cs, len, string, read, rest) =
            asc_loop64-read left (i + 1) (num * 2 ^ 4 % 2 ^ 64) (des + 1 + 1)
              (acc * 16 + shr num 60) upper (update (update mem des 58) (des + 1) c)
              (omega arith) in
          rw e (
            58 ∷ c ∷ cs,
            omega (arith, len),
            (
              ground (arith, rest des),
              omega arith,
              omega arith,
              (ground (arith, rest (des + 1)), pos, byte, string),
            ),
            value-digit acc c (shr num 60) cs same no_colon ∙ read,
            λ z k. ground (arith, rest z),
          )
      | inr e ↦
          let (cs, len, string, read, rest) =
            asc_loop64-read left (i + 1) (num * 2 ^ 4 % 2 ^ 64) (des + 1) (acc * 16 + shr num 60)
              upper (update mem des c) (omega arith) in
          rw e (
            c ∷ cs,
            omega (arith, len),
            (ground (arith, rest des), pos, byte, string),
            value-digit acc c (shr num 60) cs same no_colon ∙ read,
            λ z k. ground (arith, rest z),
          )
    ]

read64-all : (n : ℕ) → n < 2 ^ 64 → read64 16 n 0 ≡ n
read64-all n h = omega arith

-- For a number of 64 bits hextoasc64 writes a string of sixteen digits and a colon that reads as
-- the number, in the eighteen bytes of its buffer and no others.
pub hextoasc64-value :
    (n des : ℕ) (upper : Bool) (mem : Memory)
    → n < 2 ^ 64
    → (cs : List ℕ) × (length cs ≡ 17)
      × IsString (hextoasc64 n des upper mem) des cs
      × (value 0 cs ≡ n)
      × ((z : ℕ) → (z < des) ⊎ (des + 17 < z) → hextoasc64 n des upper mem z ≡ mem z)
unfolding hextoasc64
hextoasc64-value n des upper mem h =
    let (cs, len, string, read, rest) = asc_loop64-read 16 0 n des 0 upper mem h in
    (cs, len, string, read ∙ read64-all n h, rest)
