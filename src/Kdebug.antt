-- ===== src/Kdebug.antt =====
-- kernel/kdebug.c: numbers in hexadecimal, and formatted output on the serial line.
-- The line is a parameter: its state and the two instructions on its ports, from ioport.h. The
-- arguments behind the format are 32-bit words; one that was not passed is a fault.
pub mod Hex
pub mod Output
mod Tests
use osdev_course.Common.{
  ℕ, zero, suc, ◌+◌, ◌*◌, ◌^◌, ◌%◌, Bool, true, false, Option, none, some, List, [], ◌∷◌, bit_and,
  ◌==◌, leb, if◌then◌else◌, get_elem?, shr, shl32, update, Run, ok, fault, out_of_fuel, ◌>>=◌,
}
use osdev_course.Kstring.{Memory}

-- `up_digits` and `low_digits`, each with its NUL
abbrev pub up_digits : List ℕ
up_digits = 48 ∷ 49 ∷ 50 ∷ 51 ∷ 52 ∷ 53 ∷ 54 ∷ 55 ∷ 56 ∷ 57 ∷ 65 ∷ 66 ∷ 67 ∷ 68 ∷ 69 ∷ 70 ∷ 0 ∷ []

abbrev pub low_digits : List ℕ
low_digits =
    48 ∷ 49 ∷ 50 ∷ 51 ∷ 52 ∷ 53 ∷ 54 ∷ 55 ∷ 56 ∷ 57 ∷ 97 ∷ 98 ∷ 99 ∷ 100 ∷ 101 ∷ 102 ∷ 0 ∷ []

-- `tohex`; a digit with the sign bit is above 17 here, and `sizeof(up_digits)` is 17.
unfoldable pub tohex : (digit : ℕ) → (upper : Bool) → ℕ
tohex digit upper =
    let digits = if upper then up_digits else low_digits in
    if leb 17 digit then 45 else elim (get_elem? digits digit) [ none ↦ 0 | some c ↦ c ]

-- The loop of `hextoasc32`, with the number of digits left.
unfoldable pub asc_loop32 : (left num des : ℕ) → Bool → Memory → Memory
unfolding tohex
asc_loop32 zero num des upper mem = update mem des 0
asc_loop32 (suc left) num des upper mem =
    asc_loop32 left (shl32 num 4) (des + 1) upper (update mem des (tohex (shr num 28) upper))

-- `hextoasc32`
unfoldable pub hextoasc32 : (num des : ℕ) → Bool → Memory → Memory
unfolding asc_loop32
hextoasc32 num des upper mem = asc_loop32 8 num des upper mem

-- The loop of `hextoasc64`, which puts a colon before the digit 8.
unfoldable pub asc_loop64 : (left i num des : ℕ) → Bool → Memory → Memory
unfolding tohex
asc_loop64 zero i num des upper mem = update mem des 0
asc_loop64 (suc left) i num des upper mem =
    let digit = tohex (shr num 60) upper in
    let num' = num * 2 ^ 4 % 2 ^ 64 in
    let mid = if i == 8 then update mem des 58 else mem in
    let at = if i == 8 then des + 1 else des in
    asc_loop64 left (i + 1) num' (at + 1) upper (update mid at digit)

-- `hextoasc64`
unfoldable pub hextoasc64 : (num des : ℕ) → Bool → Memory → Memory
unfolding asc_loop64
hextoasc64 num des upper mem = asc_loop64 16 0 num des upper mem

module _ {S : Type 0} (inb : ℕ → S → ℕ × S) (outb : ℕ → ℕ → S → S) where
  -- The busy loop of `kdebug_putc`.
  unfoldable pub wait_ready : ℕ → S → Run S
  wait_ready zero s = out_of_fuel
  wait_ready (suc fuel) s =
      let (status, s') = inb (0x03F8 + 5) s in
      let rest = wait_ready fuel s' in if bit_and status 0x20 == 0 then rest else ok s'

  -- `kdebug_putc`
  unfoldable pub kdebug_putc : ℕ → ℕ → S → Run S
  unfolding wait_ready
  kdebug_putc fuel c s = wait_ready fuel s >>= λ s. ok (outb 0x03F8 c s)

  -- `kdebug_puts`
  unfoldable pub kdebug_puts : ℕ → ℕ → Memory → S → Run S
  unfolding kdebug_putc
  kdebug_puts zero p mem s = out_of_fuel
  kdebug_puts (suc fuel) p mem s =
      let more = kdebug_putc (suc fuel) (mem p) s >>= λ s. kdebug_puts fuel (p + 1) mem s in
      if mem p == 0 then ok s else more

  -- The words of the arguments that are left, memory and the line.
  abbrev pub State : Type 0
  State = List ℕ × Memory × S

  -- A number of 32 bits, or one of 64 in two words, is put into `buf` and printed.
  unfoldable pub put_number : (fuel buf : ℕ) → (is_long upper : Bool) → State → Run State
  unfolding hextoasc32 hextoasc64 kdebug_puts
  put_number fuel buf true upper (lo ∷ hi ∷ va, mem, s) =
      let mem' = hextoasc64 (lo + hi * 2 ^ 32) buf upper mem in
      kdebug_puts fuel buf mem' s >>= λ s. ok (va, mem', s)
  put_number fuel buf false upper (n ∷ va, mem, s) =
      let mem' = hextoasc32 n buf upper mem in kdebug_puts fuel buf mem' s >>= λ s. ok (va, mem', s)
  put_number fuel buf _ upper _ = fault

  -- `%c` with its argument.
  unfoldable pub put_char : ℕ → State → Run State
  unfolding kdebug_putc
  put_char fuel ([], mem, s) = fault
  put_char fuel (c ∷ va, mem, s) =
      let before = if c == 10 then kdebug_putc fuel 13 s else ok s in
      before >>= λ s. kdebug_putc fuel (c % 256) s >>= λ s. ok (va, mem, s)

  -- `%s` with its argument.
  unfoldable pub put_string : ℕ → State → Run State
  unfolding kdebug_puts
  put_string fuel ([], mem, s) = fault
  put_string fuel (p ∷ va, mem, s) = kdebug_puts fuel p mem s >>= λ s. ok (va, mem, s)

  -- The `switch` on the character behind the percent sign. A pointer has 32 bits, so `%p` prints
  -- as `%x` does.
  unfoldable pub convert : (fuel buf : ℕ) → (is_long : Bool) → (c : ℕ) → State → Run State
  unfolding put_number put_char put_string kdebug_putc
  convert fuel buf is_long c (va, mem, s) =
      let percent = kdebug_putc fuel c s >>= λ s. ok (va, mem, s) in
      let other = kdebug_putc fuel 37 s >>= λ s. kdebug_putc fuel c s >>= λ s. ok (va, mem, s) in
      if c == 100
      then put_number fuel buf is_long false (va, mem, s)
      else if c == 120
      then put_number fuel buf is_long false (va, mem, s)
      else if c == 88
      then put_number fuel buf is_long true (va, mem, s)
      else if c == 112
      then put_number fuel buf false false (va, mem, s)
      else if c == 99
      then put_char fuel (va, mem, s)
      else if c == 115
      then put_string fuel (va, mem, s)
      else if c == 37
      then percent
      else other

  -- `kdebug`: the loop along the format, from the pointer `p` on.
  unfoldable pub kdebug : (fuel buf p : ℕ) → State → Run State
  unfolding convert kdebug_putc
  kdebug zero buf p st = out_of_fuel
  kdebug (suc fuel) buf p (va, mem, s) =
      let c = mem p in
      let d = mem (p + 1) in
      let line = kdebug_putc fuel 13 s >>= λ s.
      kdebug_putc fuel 10 s >>= λ s. kdebug fuel buf (p + 1) (va, mem, s) in
      let plain = kdebug_putc fuel c s >>= λ s. kdebug fuel buf (p + 1) (va, mem, s) in
      let long =
        convert fuel buf true (mem (p + 2)) (va, mem, s) >>= λ st. kdebug fuel buf (p + 3) st in
      let short = convert fuel buf false d (va, mem, s) >>= λ st. kdebug fuel buf (p + 2) st in
      if c == 0
      then ok (va, mem, s)
      else if c == 10
      then line
      else if c == 37
      then (if d == 108 then long else short)
      else plain
