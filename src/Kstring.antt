-- ===== src/Kstring.antt =====
-- kernel/kstring.c: copies of bytes, and strings that end with a NUL byte.
-- Memory is a function from addresses to bytes. A pointer into an object does not pass the end of
-- the address space, so `p++` adds 1. A loop along a string runs on fuel.
pub mod Text
pub mod Copy
pub mod Compare
mod Tests
use osdev_course.Common.{
  ℕ, zero, suc, ◌+◌, ◌-◌, ◌^◌, ◌==◌, leb, ltb, if◌then◌else◌, add32, sub32, update, Run, ok,
  out_of_fuel,
}

abbrev pub Memory : Type 0
Memory = ℕ → ℕ

-- The loop of `kmemcpy`, with the number of bytes left.
unfoldable pub copy_bytes : (des src len : ℕ) → Memory → Memory
copy_bytes des src zero mem = mem
copy_bytes des src (suc len) mem = copy_bytes (des + 1) (src + 1) len (update mem des (mem src))

-- `kmemcpy` returns the length.
unfoldable pub kmemcpy : (des src len : ℕ) → Memory → ℕ × Memory
unfolding copy_bytes
kmemcpy des src len mem = (len, copy_bytes des src len mem)

-- The loop of `kmemset`.
unfoldable pub set_bytes : (des value len : ℕ) → Memory → Memory
set_bytes des value zero mem = mem
set_bytes des value (suc len) mem = set_bytes (des + 1) value len (update mem des value)

-- `kmemset` returns the destination.
unfoldable pub kmemset : (des value len : ℕ) → Memory → ℕ × Memory
unfolding set_bytes
kmemset des value len mem = (des, set_bytes des value len mem)

-- The loop of `kstrncpy`: `copied` bytes have been written, `des` and `src` are the next addresses.
unfoldable pub copy_string : (fuel copied des src deslen : ℕ) → Memory → Run (ℕ × Memory)
copy_string zero copied des src deslen mem = out_of_fuel
copy_string (suc fuel) copied des src deslen mem =
    let c = mem src in
    let mem' = update mem des c in
    let rest = copy_string fuel (add32 copied 1) (des + 1) (src + 1) deslen mem' in
    if leb deslen (add32 copied 1)
    then ok (copied, update mem des 0)
    else if c == 0
    then ok (copied, mem')
    else rest

-- `kstrncpy` returns the number of bytes copied before the NUL.
unfoldable pub kstrncpy : (fuel des src deslen : ℕ) → Memory → Run (ℕ × Memory)
unfolding copy_string
kstrncpy fuel des src deslen mem =
    let copied = copy_string fuel 0 des src deslen mem in
    if deslen == 0 then ok (0, mem) else copied

-- A `char` has a sign: `*a - *b` as an `int`, whose bits are the result.
abbrev pub char_to_int : ℕ → ℕ
char_to_int c = if ltb c 128 then c else c + 2 ^ 32 - 256

abbrev pub char_diff : ℕ → ℕ → ℕ
char_diff c d = sub32 (char_to_int c) (char_to_int d)

-- What is left when one of the strings has ended: -1 if `a` has not, 1 if `b` has not.
abbrev pub end_order : ℕ → ℕ → ℕ
end_order c d = if c == 0 then (if d == 0 then 0 else 1) else 2 ^ 32 - 1

-- `kstrcmp`
unfoldable pub kstrcmp : (fuel a b : ℕ) → Memory → Run ℕ
kstrcmp zero a b mem = out_of_fuel
kstrcmp (suc fuel) a b mem =
    let c = mem a in
    let d = mem b in
    let rest = kstrcmp fuel (a + 1) (b + 1) mem in
    let stop = ok (end_order c d) in
    if c == 0
    then stop
    else if d == 0
    then stop
    else if char_diff c d == 0
    then rest
    else ok (char_diff c d)

-- The loop of `kstrncmp`, where `n` is not 0.
unfoldable pub compare_upto : (fuel a b n : ℕ) → Memory → Run ℕ
compare_upto zero a b n mem = out_of_fuel
compare_upto (suc fuel) a b n mem =
    let c = mem a in
    let d = mem b in
    let rest = compare_upto fuel (a + 1) (b + 1) (sub32 n 1) mem in
    let stop = ok (end_order c d) in
    if c == 0
    then stop
    else if d == 0
    then stop
    else if char_diff c d == 0
    then (if sub32 n 1 == 0 then ok 0 else rest)
    else ok (char_diff c d)

-- `kstrncmp`
unfoldable pub kstrncmp : (fuel a b n : ℕ) → Memory → Run ℕ
unfolding compare_upto
kstrncmp fuel a b n mem =
    let compared = compare_upto fuel a b n mem in if n == 0 then ok 0 else compared

-- The loop of `kstrlen`.
unfoldable pub count_string : (fuel count s : ℕ) → Memory → Run ℕ
count_string zero count s mem = out_of_fuel
count_string (suc fuel) count s mem =
    let rest = count_string fuel (add32 count 1) (s + 1) mem in
    if mem s == 0 then ok count else rest

-- `kstrlen`
unfoldable pub kstrlen : (fuel s : ℕ) → Memory → Run ℕ
unfolding count_string
kstrlen fuel s mem = count_string fuel 0 s mem
