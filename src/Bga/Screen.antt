-- ===== src/Bga/Screen.antt =====
-- `bga_clear_screen` of drivers/bga/bga.c: the picture that its loops draw.
use native.Mathlib.Nat.{zero-mul, suc-mul}
use osdev_course.Common.{
  ℕ, zero, suc, ◌+◌, ◌-◌, ◌*◌, ◌^◌, ◌<◌, ◌≤◌, ◌≡◌, ◌⊎◌, inl, inr, refl, ◌∙◌, ap, true, ◌==◌, arith,
  Bool-cases, add32, update,
}
use osdev_course.Bga.{ModeInfo, Display, colour, clear_line, clear_lines, bga_clear_screen}

-- A line of `n` pixels at `p`, from `x` on.
pub record IsLine (i : ModeInfo) (n x y p : ℕ) (words words' : ℕ → ℕ) : Type 0 where
  pub pixels : (k : ℕ) → k < n → words' (p + 4 * k) ≡ colour i (x + k) y
  pub others : (a : ℕ) → (a < p) ⊎ (p + 4 * n ≤ a) → words' a ≡ words a

clear_line-step :
    (n : ℕ) (i : ModeInfo) (x y p : ℕ) (words : ℕ → ℕ)
    → p + 4 < 2 ^ 32
    → clear_line (suc n) i x y p words
      ≡ clear_line n i (x + 1) y (p + 4) (update words p (colour i x y))
unfolding clear_line
clear_line-step n i x y p words room =
    let next : add32 p 4 ≡ p + 4 = omega arith in
    ap (λ p'. clear_line n i (x + 1) y p' (update words p (colour i x y))) next

clear_line-zero :
    (i : ModeInfo) (x y p : ℕ) (words : ℕ → ℕ) → clear_line 0 i x y p words ≡ (p, words)
unfolding clear_line
clear_line-zero i x y p words = refl

-- The pixel at `p`, and then the rest of the line.
pixel-IsLine :
    (n : ℕ) (i : ModeInfo) (x y p : ℕ) (words words' : ℕ → ℕ)
    → IsLine i n (x + 1) y (p + 4) (update words p (colour i x y)) words'
    → IsLine i (suc n) x y p words words'
pixel-IsLine n i x y p words words' r = record {
  pixels = λ k lt. elim (Bool-cases (k == 0)) [
    | inl first ↦
        let k0 : k ≡ 0 = ground arith in
        let here : p + 4 * 0 ≡ p = omega arith in
        let x0 : x + 0 ≡ x = omega arith in
        rw (k0, here, x0) (r.others p (inl (omega arith)) ∙ ground arith)
    | inr ne ↦
        let at : p + 4 * k ≡ p + 4 + 4 * (k - 1) = ground arith in
        let x' : x + k ≡ x + 1 + (k - 1) = ground arith in
        rw (at, x') (r.pixels (k - 1) (ground arith))
  ];
  others = λ a out.
      r.others a (elim out [ inl l ↦ inl (omega arith) | inr g ↦ inr (omega arith) ])
      ∙ ground (arith, out);
}

clear_line-IsLine :
    (n : ℕ) (i : ModeInfo) (x y p : ℕ) (words : ℕ → ℕ)
    → p + 4 * n < 2 ^ 32
    → ((clear_line n i x y p words).0 ≡ p + 4 * n)
      × IsLine i n x y p words (clear_line n i x y p words).1
clear_line-IsLine zero i x y p words room =
    rw (clear_line-zero i x y p words)
      (omega arith, record { pixels = λ k lt. absurd (omega arith); others = λ a out. refl })
clear_line-IsLine (suc n) i x y p words room =
    let (e, r) =
      clear_line-IsLine n i (x + 1) y (p + 4) (update words p (colour i x y)) (omega arith) in
    rw (clear_line-step n i x y p words (omega arith)) (
      omega (arith, e),
      pixel-IsLine n i x y p words
          (clear_line n i (x + 1) y (p + 4) (update words p (colour i x y))).1 r,
    )

-- A picture of `n` lines of the mode's width at `p`, from the line `y` on.
pub record IsPicture (i : ModeInfo) (n y p : ℕ) (words words' : ℕ → ℕ) : Type 0 where
  pub pixels :
      (j k : ℕ) → j < n → k < i.width → words' (p + 4 * (j * i.width + k)) ≡ colour i k (y + j)
  pub others : (a : ℕ) → (a < p) ⊎ (p + 4 * (n * i.width) ≤ a) → words' a ≡ words a

clear_lines-step :
    (n : ℕ) (i : ModeInfo) (y p : ℕ) (words : ℕ → ℕ)
    → p + 4 * i.width < 2 ^ 32
    → clear_lines (suc n) i y p words
      ≡ clear_lines n i (y + 1) (p + 4 * i.width) (clear_line i.width i 0 y p words).1
unfolding clear_lines
clear_lines-step n i y p words room =
    ap (λ p'. clear_lines n i (y + 1) p' (clear_line i.width i 0 y p words).1)
      (clear_line-IsLine i.width i 0 y p words room).0

clear_lines-zero : (i : ModeInfo) (y p : ℕ) (words : ℕ → ℕ) → clear_lines 0 i y p words ≡ words
unfolding clear_lines
clear_lines-zero i y p words = refl

-- A line, and then the rest of the picture.
taller-IsPicture :
    (n : ℕ) (i : ModeInfo) (y p : ℕ) (words words1 words' : ℕ → ℕ)
    → IsLine i i.width 0 y p words words1
    → IsPicture i n (y + 1) (p + 4 * i.width) words1 words'
    → IsPicture i (suc n) y p words words'
taller-IsPicture n i y p words words1 words' l r = record {
  pixels = λ j k lj lk. elim (Bool-cases (j == 0)) [
    | inl first ↦
        let j0 : j ≡ 0 = ground arith in
        let here : 0 * i.width + k ≡ k = omega (arith, zero-mul i.width) in
        let k0 : 0 + k ≡ k = omega arith in
        let y0 : y + 0 ≡ y = omega arith in
        rw (j0, here, y0)
          (r.others (p + 4 * k) (inl (omega arith)) ∙ l.pixels k lk ∙ ap (λ k. colour i k y) k0)
    | inr ne ↦
        let j1 : j ≡ suc (j - 1) = ground arith in
        let at : p + 4 * (j * i.width + k) ≡ p + 4 * i.width + 4 * ((j - 1) * i.width + k) =
          omega (arith, suc-mul (j - 1) i.width, ap (λ j. j * i.width) j1) in
        let y' : y + j ≡ y + 1 + (j - 1) = ground arith in
        rw (at, y') (r.pixels (j - 1) k (ground arith) lk)
  ];
  others = λ a out. elim out [
    | inl low ↦ r.others a (inl (omega arith)) ∙ l.others a (inl low)
    | inr high ↦
        r.others a (inr (omega (arith, suc-mul n i.width)))
        ∙ l.others a (inr (omega (arith, suc-mul n i.width)))
  ];
}

clear_lines-IsPicture :
    (n : ℕ) (i : ModeInfo) (y p : ℕ) (words : ℕ → ℕ)
    → p + 4 * (n * i.width) < 2 ^ 32
    → IsPicture i n y p words (clear_lines n i y p words)
clear_lines-IsPicture zero i y p words room =
    rw (clear_lines-zero i y p words)
      (record { pixels = λ j k lt. absurd (omega arith); others = λ a out. refl })
clear_lines-IsPicture (suc n) i y p words room =
    let m = suc-mul n i.width in
    let (e, l) = clear_line-IsLine i.width i 0 y p words (omega (arith, m)) in
    let words1 = (clear_line i.width i 0 y p words).1 in
    let rest = clear_lines-IsPicture n i (y + 1) (p + 4 * i.width) words1 (omega (arith, m)) in
    rw (clear_lines-step n i y p words (omega (arith, m))) (
      taller-IsPicture n i y p words words1 (clear_lines n i (y + 1) (p + 4 * i.width) words1) l
        rest)

-- For a screen that ends below 4 GiB, bga_clear_screen succeeds; the word at column k of line j of
-- the frame buffer is the colour of that pixel, and no word below or behind the screen changes.
pub bga_clear_screen-IsPicture :
    (d : Display) (words : ℕ → ℕ)
    → d.frame_buffer + 4 * (d.info.height * d.info.width) < 2 ^ 32
    → ((bga_clear_screen d words).0 ≡ true)
      × IsPicture d.info d.info.height 0 d.frame_buffer words (bga_clear_screen d words).1
unfolding bga_clear_screen
bga_clear_screen-IsPicture d words room =
    (refl, clear_lines-IsPicture d.info.height d.info 0 d.frame_buffer words room)
