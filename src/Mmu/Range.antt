-- ===== src/Mmu/Range.antt =====
-- The inner loop of `mmu_init` in kernel/arch/i686/mmu.c, along a range of memory.
use osdev_course.Common.{
  ℕ, zero, suc, ◌+◌, ◌-◌, ◌*◌, ◌%◌, ◌^◌, ◌<◌, ◌≤◌, ◌≡◌, ◌⊎◌, inl, inr, ◌∙◌, ap, false, ◌==◌, leb,
  ltb, if◌then◌else◌, arith, ok, Bool-cases, lt→ltb, add64,
}
use osdev_course.Mmu.{Mmu, push_frame, add_range}
use osdev_course.Mmu.Pool.{IsPool, Holds}
use osdev_course.Mmu.Push.{IsPushed, push_frame-IsPushed}

-- A frame that the loop does not skip.
pub record IsUsed (kend a b x : ℕ) : Type 0 where
  pub lower : a ≤ x
  pub upper : x < b
  pub kernel : kend ≤ x * 4096
  pub word : x < 2 ^ 20

-- The number of frames of a range below 4 GiB.
abbrev pub frames_below : (a b : ℕ) → ℕ
frames_below a b = if ltb b (2 ^ 20) then b - a else 2 ^ 20 - a

add_range-done :
    (fuel kend start end pt : ℕ) (s : Mmu)
    → end ≤ start
    → add_range (suc fuel) kend start end pt s ≡ ok (pt, s)
unfolding add_range
add_range-done fuel kend start end pt s h = ground arith

add_range-skip :
    (fuel kend a end pt : ℕ) (s : Mmu)
    → a * 4096 < end
    → a < 2 ^ 52 - 1
    → (a * 4096 < kend) ⊎ (2 ^ 20 ≤ a)
    → add_range (suc fuel) kend (a * 4096) end pt s ≡ add_range fuel kend ((a + 1) * 4096) end pt s
unfolding add_range
add_range-skip fuel kend a end pt s lt small h =
    let next : add64 (a * 4096) 4096 ≡ (a + 1) * 4096 = omega arith in
    ground (arith, h, ap (λ x. add_range fuel kend x end pt s) next)

add_range-push :
    (fuel kend a end pt pt' : ℕ) (s s' : Mmu)
    → a * 4096 < end
    → kend ≤ a * 4096
    → a < 2 ^ 20
    → push_frame (a * 4096) pt s ≡ ok (pt', s')
    → add_range (suc fuel) kend (a * 4096) end pt s
      ≡ add_range fuel kend ((a + 1) * 4096) end pt' s'
unfolding add_range
add_range-push fuel kend a end pt pt' s s' lt above small e =
    let next : add64 (a * 4096) 4096 ≡ (a + 1) * 4096 = omega arith in
    let low : ltb (a * 4096) kend ≡ false = ground arith in
    let high : leb (2 ^ 32) (a * 4096) ≡ false = ground arith in
    rw (lt→ltb (a * 4096) end lt, low, high, e) (ap (λ x. add_range fuel kend x end pt' s') next)

module _ (P : ℕ → Type 0) (P-frame : (x : ℕ) → P x → (x % 4096 ≡ 0) × (x < 2 ^ 32)) (kend : ℕ) where
  -- The pool after a range: what was there, and the frames of the range.
  pub record IsAdded (a b : ℕ) (s s' : Mmu) : Type 0 where
    pub pool : IsPool P s'
    pub index : s'.frames_index ≤ s.frames_index + frames_below a b
    pub keeps : (x : ℕ) → Holds s x → Holds s' x
    pub new : (x : ℕ) → IsUsed kend a b x → Holds s' (x * 4096)

  skip-IsAdded :
      (a b : ℕ) (s s' : Mmu)
      → (a * 4096 < kend) ⊎ (2 ^ 20 ≤ a)
      → IsAdded (a + 1) b s s'
      → IsAdded a b s s'
  skip-IsAdded a b s s' h r = record {
    pool = r.pool;
    index = ground (arith, r.index);
    keeps = r.keeps;
    new = λ x u. r.new x (record {
      lower = omega (arith, u.lower, u.kernel, u.word, h);
      upper = u.upper;
      kernel = u.kernel;
      word = u.word;
    });
  }

  push-IsAdded :
      (a b : ℕ) (s s1 s' : Mmu)
      → a < b
      → a < 2 ^ 20
      → IsPushed P P-frame (a * 4096) s s1
      → IsAdded (a + 1) b s1 s'
      → IsAdded a b s s'
  push-IsAdded a b s s1 s' lt small p r = record {
    pool = r.pool;
    index = ground (arith, p.index, r.index, lt, small);
    keeps = λ x h. r.keeps x (p.keeps x h);
    new = λ x u. elim (Bool-cases (x == a)) [
      | inl e ↦ let e' : x ≡ a = ground arith in rw (e') (r.keeps (a * 4096) p.new)
      | inr ne ↦ r.new x (record {
        lower = ground (arith, u.lower);
        upper = u.upper;
        kernel = u.kernel;
        word = u.word;
      })
    ];
  }

  later : (a b x : ℕ) → IsUsed kend (a + 1) b x → IsUsed kend a b x
  later a b x u = record {
    lower = omega (arith, u.lower);
    upper = u.upper;
    kernel = u.kernel;
    word = u.word;
  }

  -- A run of the loop from the frame `a` on.
  abbrev Adds : (fuel a b pt : ℕ) → Mmu → Type 0
  Adds fuel a b pt s =
      (pt' : ℕ) × (s' : Mmu) × ((add_range fuel kend (a * 4096) (b * 4096) pt s ≡ ok (pt', s'))
        × IsAdded a b s s')

  skip :
      (fuel a b pt : ℕ) (s : Mmu)
      → a < b
      → b < 2 ^ 52
      → (a * 4096 < kend) ⊎ (2 ^ 20 ≤ a)
      → Adds fuel (a + 1) b pt s
      → Adds (suc fuel) a b pt s
  skip fuel a b pt s lt small h (pt', s', (e, r)) = (
    pt',
    s',
    (
      add_range-skip fuel kend a (b * 4096) pt s (omega arith) (omega arith) h ∙ e,
      skip-IsAdded a b s s' h r,
    ),
  )

  push :
      (fuel a b pt pt1 : ℕ) (s s1 : Mmu)
      → a < b
      → b < 2 ^ 52
      → kend ≤ a * 4096
      → a < 2 ^ 20
      → push_frame (a * 4096) pt s ≡ ok (pt1, s1)
      → IsPushed P P-frame (a * 4096) s s1
      → Adds fuel (a + 1) b pt1 s1
      → Adds (suc fuel) a b pt s
  push fuel a b pt pt1 s s1 lt small above word e pushed (pt', s', (e', r)) = (
    pt',
    s',
    (
      add_range-push fuel kend a (b * 4096) pt pt1 s s1 (omega arith) above word e ∙ e',
      push-IsAdded a b s s1 s' lt word pushed r,
    ),
  )

  pub add_range-IsAdded :
      (fuel a b pt : ℕ) (s : Mmu)
      → b - a < fuel
      → b < 2 ^ 52
      → s.frames_index + frames_below a b ≤ 2 ^ 20
      → ((x : ℕ) → IsUsed kend a b x → P (x * 4096))
      → IsPool P s
      → (pt' : ℕ) × (s' : Mmu) × ((add_range fuel kend (a * 4096) (b * 4096) pt s ≡ ok (pt', s'))
          × IsAdded a b s s')
  add_range-IsAdded zero a b pt s enough small room ps p = absurd (omega arith)
  add_range-IsAdded (suc fuel) a b pt s enough small room ps p = elim (Bool-cases (ltb a b)) [
    | inr over ↦ (
      pt,
      s,
      (
        add_range-done fuel kend (a * 4096) (b * 4096) pt s (ground arith),
        record {
          pool = p;
          index = omega arith;
          keeps = λ x h. h;
          new = λ x u. absurd (ground (arith, u.lower, u.upper));
        },
      ),
    )
    | inl more ↦ elim (Bool-cases (ltb (a * 4096) kend)) [
      | inl low ↦ skip fuel a b pt s (ground arith) small (inl (ground arith)) (
          add_range-IsAdded fuel (a + 1) b pt s (ground arith) small (ground arith)
            (λ x u. ps x (later a b x u)) p)
      | inr above ↦ elim (Bool-cases (ltb a (2 ^ 20))) [
        | inl word ↦
            let used : IsUsed kend a b a = record {
              lower = omega arith;
              upper = ground arith;
              kernel = ground arith;
              word = ground arith;
            } in
            let (pt1, s1, (e, pushed)) =
              push_frame-IsPushed P P-frame (a * 4096) pt s (ps a used) (ground arith) p in
            push fuel a b pt pt1 s s1 (ground arith) small (ground arith) (ground arith) e pushed (
              add_range-IsAdded fuel (a + 1) b pt1 s1 (ground arith) small
                (ground (arith, pushed.index)) (λ x u. ps x (later a b x u)) pushed.pool)
        | inr high ↦ skip fuel a b pt s (ground arith) small (inr (ground arith)) (
            add_range-IsAdded fuel (a + 1) b pt s (ground arith) small (ground arith)
              (λ x u. ps x (later a b x u)) p)
      ]
    ]
  ]
