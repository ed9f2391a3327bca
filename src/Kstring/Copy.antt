-- ===== src/Kstring/Copy.antt =====
-- The copies of kernel/kstring.c: kmemcpy, kmemset and kstrncpy.
use osdev_course.Common.{
  ℕ, zero, suc, ◌+◌, ◌-◌, ◌^◌, ◌<◌, ◌≤◌, ◌≡◌, refl, ◌∙◌, ◌≢◌, ◌⊎◌, inl, inr, true, false, List, [],
  ◌∷◌, arith, ◌==◌, leb, length, add32, update, ok, Bool-cases,
}
use osdev_course.Kstring.{Memory, copy_bytes, kmemcpy, set_bytes, kmemset, copy_string, kstrncpy}
use osdev_course.Kstring.Text.{IsString, IsString-frame, take}

-- The ranges of `n` and of `m` bytes have no byte in common.
abbrev pub Apart : (a n b m : ℕ) → Type 0
Apart a n b m = (a + n ≤ b) ⊎ (b + m ≤ a)

-- kmemcpy returns the length; the destination gets the bytes that the source had, and all other
-- bytes of memory stay. The two do not overlap.
pub kmemcpy-copies :
    (des src len : ℕ) (mem : Memory)
    → Apart des len src len
    → let (n, mem') = kmemcpy des src len mem in
      (n ≡ len)
      × ((i : ℕ) → i < len → mem' (des + i) ≡ mem (src + i))
      × ((z : ℕ) → (z < des) ⊎ (des + len ≤ z) → mem' z ≡ mem z)
unfolding kmemcpy copy_bytes
kmemcpy-copies des src zero mem apart = (refl, λ i h. absurd (omega arith), λ z h. refl)
kmemcpy-copies des src (suc len) mem apart =
    let mem1 = update mem des (mem src) in
    let (_, copied, rest) = kmemcpy-copies (des + 1) (src + 1) len mem1 (ground arith) in
    (
      refl,
      λ i h. elim (Bool-cases (i == 0)) [
        | inl e ↦
            let at : des + i ≡ des = ground arith in
            let from : src + i ≡ src = ground arith in rw (at, from) (ground (arith, rest des))
        | inr e ↦
            let at : des + i ≡ des + 1 + (i - 1) = ground arith in
            let from : src + i ≡ src + 1 + (i - 1) = ground arith in
            rw (at, from) (ground (arith, copied (i - 1)))
      ],
      λ z h. ground (arith, rest z),
    )

-- kmemset returns the destination; its bytes all get the value, and all other bytes stay.
pub kmemset-sets :
    (des value len : ℕ) (mem : Memory)
    → let (d, mem') = kmemset des value len mem in
      (d ≡ des)
      × ((i : ℕ) → i < len → mem' (des + i) ≡ value)
      × ((z : ℕ) → (z < des) ⊎ (des + len ≤ z) → mem' z ≡ mem z)
unfolding kmemset set_bytes
kmemset-sets des value zero mem = (refl, λ i h. absurd (omega arith), λ z h. refl)
kmemset-sets des value (suc len) mem =
    let mem1 = update mem des value in
    let (_, set, rest) = kmemset-sets (des + 1) value len mem1 in
    (
      refl,
      λ i h. elim (Bool-cases (i == 0)) [
        | inl e ↦ let at : des + i ≡ des = ground arith in rw at (ground (arith, rest des))
        | inr e ↦
            let at : des + i ≡ des + 1 + (i - 1) = ground arith in
            rw at (set (i - 1) (ground arith))
      ],
      λ z h. ground (arith, rest z),
    )

copy_string-step :
    (fuel copied des src deslen : ℕ) (mem : Memory)
    → copied + 1 < deslen
    → deslen < 2 ^ 32
    → mem src ≢ 0
    → copy_string (suc fuel) copied des src deslen mem
      ≡ copy_string fuel (copied + 1) (des + 1) (src + 1) deslen (update mem des (mem src))
unfolding copy_string
copy_string-step fuel copied des src deslen mem more small ne =
    let next : add32 copied 1 ≡ copied + 1 = omega arith in
    let room : leb deslen (copied + 1) ≡ false = ground arith in
    let set : (mem src == 0) ≡ false = ground arith in rw (next, room, set) refl

copy_string-copies :
    (fuel left copied des src deslen : ℕ) (mem : Memory) (cs : List ℕ)
    → left < fuel
    → deslen ≡ copied + left + 1
    → deslen < 2 ^ 32
    → IsString mem src cs
    → Apart des (left + 1) src (length cs + 1)
    → (n : ℕ) × (mem' : Memory) × (copy_string fuel copied des src deslen mem ≡ ok (n, mem'))
      × (n ≡ copied + length (take left cs))
      × IsString mem' des (take left cs)
      × ((z : ℕ) → (z < des) ⊎ (des + left + 1 ≤ z) → mem' z ≡ mem z)
unfolding copy_string
copy_string-copies zero left copied des src deslen mem cs h e small s apart = absurd (omega arith)
copy_string-copies (suc fuel) zero copied des src deslen mem cs h e small s apart =
    let full : leb deslen (add32 copied 1) ≡ true = ground arith in
    (copied, update mem des 0, rw full refl, omega arith, ground arith, λ z k. ground arith)
copy_string-copies (suc fuel) (suc left) copied des src deslen mem [] h e small s apart =
    let more : leb deslen (add32 copied 1) ≡ false = ground arith in
    let nul : (mem src == 0) ≡ true = ground arith in
    (
      copied,
      update mem des (mem src),
      rw (more, nul) refl,
      omega arith,
      ground arith,
      λ z k. ground arith,
    )
copy_string-copies (suc fuel) (suc left) copied des src deslen mem (c ∷ cs) h e small s apart =
    let mem1 = update mem des (mem src) in
    let kept : IsString mem1 (src + 1) cs =
      IsString-frame mem mem1 (src + 1) cs s.3 (λ z lo hi. ground arith) in
    let (n, mem', run, count, copied_string, rest) =
      copy_string-copies fuel left (copied + 1) (des + 1) (src + 1) deslen mem1 cs (omega arith)
        (omega arith) small kept (ground arith) in
    (
      n,
      mem',
      copy_string-step fuel copied des src deslen mem (omega arith) small (omega arith) ∙ run,
      omega (arith, count),
      (ground (arith, rest des), s.1, s.2, copied_string),
      λ z k. ground (arith, rest z),
    )

-- kstrncpy into a destination of `deslen` bytes that does not overlap the string ends with at
-- least `deslen` fuel. The destination then holds as much of the string as fits with a NUL behind
-- it, the number of its bytes is returned, and no byte outside the destination changes.
pub kstrncpy-copies :
    (fuel des src deslen : ℕ) (mem : Memory) (cs : List ℕ)
    → deslen ≤ fuel
    → 0 < deslen
    → deslen < 2 ^ 32
    → IsString mem src cs
    → Apart des deslen src (length cs + 1)
    → (n : ℕ) × (mem' : Memory) × (kstrncpy fuel des src deslen mem ≡ ok (n, mem'))
      × (n ≡ length (take (deslen - 1) cs))
      × IsString mem' des (take (deslen - 1) cs)
      × ((z : ℕ) → (z < des) ⊎ (des + deslen ≤ z) → mem' z ≡ mem z)
unfolding kstrncpy
kstrncpy-copies fuel des src deslen mem cs h pos small s apart =
    let set : (deslen == 0) ≡ false = ground arith in
    let left : des + (deslen - 1) + 1 ≡ des + deslen = omega arith in
    let (n, mem', run, count, string, rest) =
      copy_string-copies fuel (deslen - 1) 0 des src deslen mem cs (omega arith) (omega arith) small
        s (ground arith) in
    (n, mem', rw set run, omega (arith, count), string, λ z k. rest z (ground arith))
