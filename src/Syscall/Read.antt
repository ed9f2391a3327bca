-- ===== src/Syscall/Read.antt =====
-- The services of kernel/syscall_service.c that read a program's memory: where they do not halt.
use osdev_course.Common.{
  ℕ, zero, suc, ◌+◌, ◌^◌, ◌<◌, ◌≡◌, ◌≢◌, ◌⊎◌, inl, inr, refl, ap, ◌∙◌, Option, some, ◌==◌, arith,
  Run, sym, false, ok, add32, Bool-cases, if◌then◌else◌,
}
use osdev_course.Thread.{process_current}
use osdev_course.Syscall.{
  Kernel, minus_one, read_byte, read_string, read_bytes, plain, answer, kservice_open,
  kservice_unlink, kservice_write, kservice_getpid,
}

-- A string of `n` bytes that can be read up to its NUL.
pub record IsText (user : ℕ → Option ℕ) (at n : ℕ) : Type 0 where
  pub below : at + n < 2 ^ 32
  pub bytes : (k : ℕ) → k < n → (c : ℕ) × (user (at + k) ≡ some c) × (c ≢ 0)
  pub ends : user (at + n) ≡ some 0

-- Bytes that can be read.
pub record IsBuffer (user : ℕ → Option ℕ) (at n : ℕ) : Type 0 where
  pub below : at + n < 2 ^ 32
  pub bytes : (k : ℕ) → k < n → (c : ℕ) × (user (at + k) ≡ some c)

read_string-end :
    (fuel at n : ℕ) (user : ℕ → Option ℕ)
    → n < fuel
    → IsText user at n
    → read_string fuel at user ≡ ok (at + n)
unfolding read_string
read_string-end zero at n user h t = absurd (omega arith)
read_string-end (suc fuel) at zero user h t =
    let e : at + 0 ≡ at = omega arith in
    let here : user at ≡ some 0 = ap user (sym e) ∙ t.ends in
    let stop : ℕ → Run ℕ = λ c. if c == 0 then ok at else read_string fuel (add32 at 1) user in
    ap (λ b. read_byte b stop) here ∙ ap ok (sym e)
read_string-end (suc fuel) at (suc n) user h t =
    let (c, here, set) = t.bytes 0 (omega arith) in
    let here' : user at ≡ some c = ap user (omega arith) ∙ here in
    let below = t.below in
    let next : add32 at 1 ≡ at + 1 = omega arith in
    let whole : at + 1 + n ≡ at + suc n = omega arith in
    let more : (c == 0) ≡ false = ground (arith, set) in
    let rest = read_string-end fuel (at + 1) n user (omega arith) (record {
      below = omega arith;
      bytes = λ k lt.
          let (c, e, set) = t.bytes (suc k) (omega arith) in (c, ap user (omega arith) ∙ e, set);
      ends = ap user whole ∙ t.ends;
    }) in
    let stop : ℕ → Run ℕ = λ c. if c == 0 then ok at else read_string fuel (add32 at 1) user in
    ap (λ b. read_byte b stop) here' ∙ rw (more, next) (rest ∙ ap ok whole)

read_bytes-end :
    (n at : ℕ) (user : ℕ → Option ℕ) → IsBuffer user at n → read_bytes n at user ≡ ok (at + n)
unfolding read_bytes
read_bytes-end zero at user b = ap ok (omega arith)
read_bytes-end (suc n) at user b =
    let (c, here) = b.bytes 0 (omega arith) in
    let here' : user at ≡ some c = ap user (omega arith) ∙ here in
    let below = b.below in
    let next : add32 at 1 ≡ at + 1 = omega arith in
    let whole : at + 1 + n ≡ at + suc n = omega arith in
    let rest = read_bytes-end n (at + 1) user (record {
      below = omega arith;
      bytes = λ k lt. let (c, e) = b.bytes (suc k) (omega arith) in (c, ap user (omega arith) ∙ e);
    }) in
    ap (λ b. read_byte b (λ c. read_bytes n (add32 at 1) user)) here' ∙ rw next (rest ∙ ap ok whole)

-- What the caller of a service sees to: open and unlink get a string that can be read, write gets
-- a buffer, and there is a process.
pub record IsAsked {M : Type 0} (fuel eax ebx ecx edx : ℕ) (s : Kernel M) : Type 0 where
  pub process : process_current s.scheduler s.threads ≢ 0
  pub text : (eax ≡ 2) ⊎ (eax ≡ 7) → (n : ℕ) × (n < fuel) × IsText s.user ebx n
  pub buffer : eax ≡ 5 → IsBuffer s.user ecx edx

pub answer-ok :
    {M : Type 0} (fuel eax ebx ecx edx : ℕ) (s : Kernel M)
    → IsAsked fuel eax ebx ecx edx s
    → (r : ℕ) × (answer fuel eax ebx ecx edx s ≡ ok r)
unfolding answer kservice_open kservice_unlink kservice_write kservice_getpid
answer-ok fuel eax ebx ecx edx s asked = elim (Bool-cases (eax == 2)) [
  | inl two ↦
      let (n, lt, t) = asked.text (inl (ground arith)) in
      (minus_one, rw (two, read_string-end fuel ebx n s.user lt t) refl)
  | inr not_two ↦ elim (Bool-cases (eax == 5)) [
    | inl five ↦
        (edx, rw (not_two, five, read_bytes-end edx ecx s.user (asked.buffer (ground arith))) refl)
    | inr not_five ↦ elim (Bool-cases (eax == 7)) [
      | inl seven ↦
          let (n, lt, t) = asked.text (inr (ground arith)) in
          (minus_one, rw (not_two, not_five, seven, read_string-end fuel ebx n s.user lt t) refl)
      | inr not_seven ↦ elim (Bool-cases (eax == 8)) [
        | inl eight ↦
            let p = process_current s.scheduler s.threads in
            let set : (p == 0) ≡ false = ground (arith, asked.process) in
            (s.pid p, rw (not_two, not_five, not_seven, eight, set) refl)
        | inr not_eight ↦ (plain eax ebx ecx edx, rw (not_two, not_five, not_seven, not_eight) refl)
      ]
    ]
  ]
]
