-- ===== src/Kdebug/Output.antt =====
-- What kernel/kdebug.c sends on the serial line.
use osdev_course.Common.{
  ℕ, zero, suc, ◌+◌, ◌^◌, ◌<◌, ◌≤◌, ◌≡◌, refl, sym, ap, ◌∙◌, ◌⊎◌, inl, inr, true, false, List, [],
  ◌∷◌, ◌++◌, arith, bit_and, ◌==◌, if◌then◌else◌, length, mem, ok, ◌>>=◌, Bool-cases,
}
use osdev_course.Kstring.{Memory}
use osdev_course.Kstring.Text.{IsString, IsString-frame}
use osdev_course.Kdebug.{kdebug_putc, kdebug_puts, kdebug, put_number, convert, hextoasc32}
use osdev_course.Kdebug.Hex.{value, hextoasc32-value}

-- A line feed is sent as a carriage return and a line feed.
abbrev pub expand : List ℕ → List ℕ
expand [] = []
expand (c ∷ cs) = if c == 10 then 13 ∷ 10 ∷ expand cs else c ∷ expand cs

-- The bytes go to the port one by one.
abbrev pub sent : {S : Type 0} → (ℕ → ℕ → S → S) → List ℕ → S → S
sent outb [] s = s
sent outb (c ∷ cs) s = sent outb cs (outb 0x03F8 c s)

pub sent-append :
    {S : Type 0} (outb : ℕ → ℕ → S → S) (cs ds : List ℕ) (s : S)
    → sent outb (cs ++ ds) s ≡ sent outb ds (sent outb cs s)
sent-append outb [] ds s = refl
sent-append outb (c ∷ cs) ds s = sent-append outb cs ds (outb 0x03F8 c s)

-- A line whose status says that it can take a byte, and that reading the status does not change.
pub record IsReadyLine {S : Type 0} (inb : ℕ → S → ℕ × S) : Type 0 where
  pub ready : (s : S) → (bit_and (inb (0x03F8 + 5) s).0 0x20 == 0) ≡ false
  pub same : (s : S) → (inb (0x03F8 + 5) s).1 ≡ s

module _ {S : Type 0} (inb : ℕ → S → ℕ × S) (outb : ℕ → ℕ → S → S) (line : IsReadyLine inb) where
  putc-sent : (fuel c : ℕ) (s : S) → kdebug_putc inb outb (suc fuel) c s ≡ ok (outb 0x03F8 c s)
  unfolding kdebug_putc
  putc-sent fuel c s = rw (line.ready s, line.same s) refl

  -- On a line that is ready, kdebug_puts ends with more fuel than the string has bytes and sends the
  -- bytes of the string in order.
  pub kdebug_puts-sent :
      (fuel p : ℕ) (mem : Memory) (cs : List ℕ) (s : S)
      → length cs < fuel
      → IsString mem p cs
      → kdebug_puts inb outb fuel p mem s ≡ ok (sent outb cs s)
  unfolding kdebug_puts
  kdebug_puts-sent zero p mem cs s h str = absurd (omega arith)
  kdebug_puts-sent (suc fuel) p mem [] s h str = rw str refl
  kdebug_puts-sent (suc fuel) p mem (c ∷ cs) s h str =
      let set : (c == 0) ≡ false = ground arith in
      rw (str.0, set, putc-sent fuel c s)
        (kdebug_puts-sent fuel (p + 1) mem cs (outb 0x03F8 c s) (omega arith) str.3)

  -- One byte of the format that is not a percent sign.
  kdebug-step :
      (fuel buf p c : ℕ) (va : List ℕ) (mem : Memory) (s : S)
      → mem p ≡ c
      → 0 < c
      → (c == 37) ≡ false
      → kdebug inb outb (suc (suc fuel)) buf p (va, mem, s)
        ≡ kdebug inb outb (suc fuel) buf (p + 1) (va, mem, sent outb (expand (c ∷ [])) s)
  unfolding kdebug
  kdebug-step fuel buf p c va mem s e pos not =
      let set : (c == 0) ≡ false = ground arith in
      elim (Bool-cases (c == 10)) [
        | inl line_feed ↦
            rw (e, set, line_feed, putc-sent fuel 13 s, putc-sent fuel 10 (outb 0x03F8 13 s)) refl
        | inr other ↦ rw (e, set, other, not, putc-sent fuel c s) refl
      ]

  expand-cons : (c : ℕ) (cs : List ℕ) → expand (c ∷ cs) ≡ expand (c ∷ []) ++ expand cs
  expand-cons c cs = elim (Bool-cases (c == 10)) [ inl e ↦ rw e refl | inr e ↦ rw e refl ]

  joined :
      (c : ℕ) (cs : List ℕ) (s : S)
      → sent outb (expand cs) (sent outb (expand (c ∷ [])) s) ≡ sent outb (expand (c ∷ cs)) s
  joined c cs s =
      sym (sent-append outb (expand (c ∷ [])) (expand cs) s)
      ∙ ap (λ l. sent outb l s) (sym (expand-cons c cs))

  -- On a line that is ready, a format without a percent sign is sent as it stands, but for the
  -- carriage return before each line feed; kdebug ends with more fuel than the format has bytes.
  pub kdebug-plain :
      (fuel buf p : ℕ) (va : List ℕ) (mm : Memory) (cs : List ℕ) (s : S)
      → length cs < fuel
      → IsString mm p cs
      → mem 37 cs ≡ false
      → kdebug inb outb fuel buf p (va, mm, s) ≡ ok (va, mm, sent outb (expand cs) s)
  unfolding kdebug
  kdebug-plain zero buf p va mm cs s h str clean = absurd (omega arith)
  kdebug-plain (suc fuel) buf p va mm [] s h str clean = rw str refl
  kdebug-plain (suc zero) buf p va mm (c ∷ cs) s h str clean = absurd (omega arith)
  kdebug-plain (suc (suc fuel)) buf p va mm (c ∷ cs) s h str clean =
      let rest =
        kdebug-plain (suc fuel) buf (p + 1) va mm cs (sent outb (expand (c ∷ [])) s) (omega arith)
          str.3 (ground arith) in
      kdebug-step fuel buf p c va mm s str.0 str.1 (ground arith)
      ∙ (rest ∙ ap (λ t. ok (va, mm, t)) (joined c cs s))

  -- On a line that is ready, a format that ends behind a percent sign sends the sign and a NUL,
  -- and the loop goes on with the byte behind the format's NUL.
  pub kdebug_unterminated :
      (fuel buf p : ℕ) (va : List ℕ) (mm : Memory) (s : S)
      → mm p ≡ 37
      → mm (p + 1) ≡ 0
      → kdebug inb outb (suc (suc fuel)) buf p (va, mm, s)
        ≡ kdebug inb outb (suc fuel) buf (p + 2) (va, mm, sent outb (37 ∷ 0 ∷ []) s)
  unfolding kdebug
  kdebug_unterminated fuel buf p va mm s e f =
      rw (e, f, putc-sent fuel 37 s, putc-sent fuel 0 (outb 0x03F8 37 s)) refl

  kdebug-upper :
      (fuel buf p : ℕ) (va : List ℕ) (mm : Memory) (s : S)
      → mm p ≡ 37
      → mm (p + 1) ≡ 88
      → kdebug inb outb (suc fuel) buf p (va, mm, s) ≡ (
          put_number inb outb fuel buf false true (va, mm, s) >>= λ st.
          kdebug inb outb fuel buf (p + 2) st)
  unfolding kdebug convert
  kdebug-upper fuel buf p va mm s e f = rw (e, f) refl

  -- A format with one `%X`, before the text `ds`.
  upper-sent :
      (fuel buf p n : ℕ) (va : List ℕ) (mm : Memory) (ds : List ℕ) (s : S)
      → 9 + length ds ≤ fuel
      → n < 2 ^ 32
      → IsString mm p (37 ∷ 88 ∷ ds)
      → mem 37 ds ≡ false
      → (buf + 9 ≤ p) ⊎ (p + 2 + length ds < buf)
      → (xs : List ℕ) × (mm' : Memory) × (kdebug inb outb (suc fuel) buf p (n ∷ va, mm, s)
          ≡ ok (va, mm', sent outb (xs ++ expand ds) s))
        × (length xs ≡ 8)
        × (value 0 xs ≡ n)
  unfolding put_number
  upper-sent fuel buf p n va mm ds s h small str clean apart =
      let mm1 = hextoasc32 n buf true mm in
      let (xs, len, digits, same, frame) = hextoasc32-value n buf true mm small in
      let puts = kdebug_puts-sent fuel buf mm1 xs s (omega (arith, len)) digits in
      let text : IsString mm1 (p + 1 + 1) ds =
        IsString-frame mm mm1 (p + 1 + 1) ds str.3.3 (λ z lo hi. frame z (ground arith)) in
      let two : p + 1 + 1 ≡ p + 2 = omega arith in
      let rest =
        kdebug-plain fuel buf (p + 2) va mm1 ds (sent outb xs s) (omega arith) (rw two at text)
          clean in
      (
        xs,
        mm1,
        kdebug-upper fuel buf p (n ∷ va) mm s str.0 str.3.0
            ∙ (rw puts refl
                ∙ (rest ∙ ap (λ t. ok (va, mm1, t)) (sym (sent-append outb xs (expand ds) s)))),
        len,
        same,
      )

  -- On a line that is ready, a format with one `%X` and no other percent sign sends the text
  -- before it, eight digits that read as the argument, and the text behind it. The argument has 32
  -- bits, the buffer is apart from the format, and the fuel is at least ten and the bytes of the
  -- two texts.
  pub kdebug-hex :
      (fuel buf p n : ℕ) (va : List ℕ) (mm : Memory) (cs ds : List ℕ) (s : S)
      → 10 + length cs + length ds ≤ fuel
      → n < 2 ^ 32
      → IsString mm p (cs ++ 37 ∷ 88 ∷ ds)
      → mem 37 cs ≡ false
      → mem 37 ds ≡ false
      → (buf + 9 ≤ p) ⊎ (p + length cs + 2 + length ds < buf)
      → (xs : List ℕ) × (mm' : Memory) × (kdebug inb outb fuel buf p (n ∷ va, mm, s)
          ≡ ok (va, mm', sent outb (expand cs ++ (xs ++ expand ds)) s))
        × (length xs ≡ 8)
        × (value 0 xs ≡ n)
  kdebug-hex zero buf p n va mm cs ds s h small str clean clean' apart = absurd (omega arith)
  kdebug-hex (suc fuel) buf p n va mm [] ds s h small str clean clean' apart =
      upper-sent fuel buf p n va mm ds s (omega arith) small str clean' (ground arith)
  kdebug-hex (suc zero) buf p n va mm (c ∷ cs) ds s h small str clean clean' apart =
      absurd (omega arith)
  kdebug-hex (suc (suc fuel)) buf p n va mm (c ∷ cs) ds s h small str clean clean' apart =
      let (xs, mm', run, len, same) =
        kdebug-hex (suc fuel) buf (p + 1) n va mm cs ds (sent outb (expand (c ∷ [])) s)
          (omega arith) small str.3 (ground arith) clean' (ground arith) in
      (
        xs,
        mm',
        kdebug-step fuel buf p c (n ∷ va) mm s str.0 str.1 (ground arith)
            ∙ (run ∙ ap (λ t. ok (va, mm', t)) (joined_all c cs (xs ++ expand ds) s)),
        len,
        same,
      )
    where
      joined_all :
          (c : ℕ) (cs ts : List ℕ) (s : S)
          → sent outb (expand cs ++ ts) (sent outb (expand (c ∷ [])) s)
            ≡ sent outb (expand (c ∷ cs) ++ ts) s
      joined_all c cs ts s =
          sent-append outb (expand cs) ts (sent outb (expand (c ∷ [])) s)
          ∙ (ap (sent outb ts) (joined c cs s) ∙ sym (sent-append outb (expand (c ∷ cs)) ts s))
