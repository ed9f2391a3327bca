-- ===== src/Mmu/Map.antt =====
-- The loop of `mmu_mmap` in kernel/arch/i686/mmu.c.
use osdev_course.Common.{
  ℕ, zero, suc, ◌+◌, ◌-◌, ◌*◌, ◌/◌, ◌%◌, ◌^◌, ◌<◌, ◌≤◌, ◌≡◌, refl, ◌∙◌, Bool, true, false, ◌==◌,
  ltb, arith, ok, add32, ◌⊎◌, inl, inr, Bool-cases,
}
use osdev_course.Mmu.{Mmu, tables, table_of, mmu_mark, mmap_from, mmu_mmap}
use osdev_course.Mmu.Tables.{IsPresent, IsMapped, IsMapped-cases, frame_at}
use osdev_course.Mmu.Mark.{IsMarked, mmu_mark-at}

-- The entries of the pages that are not tables are words.
abbrev pub IsWords : Mmu → Type 0
IsWords s = (p : ℕ) → p < tables → s.entry p < 2 ^ 32

-- The number of pages that a size takes.
abbrev pub pages : ℕ → ℕ
pages size = (size + 4095) / 4096

pub mmap_from-done :
    (fuel mem paddr size flag off : ℕ) (s : Mmu)
    → size ≤ off
    → mmap_from (suc fuel) mem paddr size flag off s ≡ ok (true, s)
unfolding mmap_from
mmap_from-done fuel mem paddr size flag off s h = ground arith

pub mmap_from-failed :
    (fuel mem paddr size flag off : ℕ) (s s' : Mmu)
    → off < size
    → mmu_mark (add32 mem off) (add32 paddr off) flag s ≡ ok (false, s')
    → mmap_from (suc fuel) mem paddr size flag off s ≡ ok (false, s')
unfolding mmap_from
mmap_from-failed fuel mem paddr size flag off s s' h e = ground arith

pub mmap_from-step :
    (fuel mem paddr size flag off : ℕ) (s s' : Mmu)
    → off < size
    → mmu_mark (add32 mem off) (add32 paddr off) flag s ≡ ok (true, s')
    → mmap_from (suc fuel) mem paddr size flag off s
      ≡ mmap_from fuel mem paddr size flag (add32 off 4096) s'
unfolding mmap_from
mmap_from-step fuel mem paddr size flag off s s' h e = ground arith

-- A page that a program may use: it has a frame, or gets one at the first access.
abbrev pub IsUsable : Mmu → ℕ → Type 0
IsUsable s p =
    IsPresent (s.entry (table_of p)) × (IsPresent (s.entry p) ⊎ (s.entry p / 256 % 2 ≡ 1))

-- The loop's promise for the pages from `from` up to `to`.
pub record IsReserved (at frame from to flag : ℕ) (s : Mmu) (done : Bool) (s' : Mmu) : Type 0 where
  -- Only a call that asks for frames of its own fails.
  pub fails : done ≡ false → flag / 512 % 2 ≡ 1
  -- The pages can be used, with the protection asked for.
  pub usable :
      done ≡ true
      → (p : ℕ) → from ≤ p
      → p < to
      → IsUsable s' p × (s'.entry p / 2 % 4 ≡ flag / 2 % 4)
  -- Frames of its own are the ones asked for, in order, and free pages do not make it fail.
  pub exact :
      flag / 512 % 2 ≡ 1
      → done ≡ true
      → (p : ℕ) → from ≤ p
      → p < to
      → s'.entry p ≡ (frame + (p - at)) * 4096 + flag / 2 % 4 * 2 + 1
  pub succeeds : ((p : ℕ) → from ≤ p → p < to → ¬ IsMapped s p) → done ≡ true
  -- No page loses its frame, and no page outside changes if its table is there.
  pub keeps : (p : ℕ) → p < tables → IsMapped s p → IsMapped s' p × (frame_at s' p ≡ frame_at s p)
  pub others :
      (p : ℕ)
      → p < tables
      → (p < from) ⊎ (to ≤ p)
      → IsPresent (s.entry (table_of p))
      → s'.entry p ≡ s.entry p
  pub tables_stay :
      (p : ℕ) → p < tables → IsPresent (s.entry (table_of p)) → IsPresent (s'.entry (table_of p))
  pub words : IsWords s'

module _ (at frame size flag : ℕ) (fits : at + pages size ≤ tables)
    (below : frame + pages size ≤ 2 ^ 20) where
  mark-turn :
      (k : ℕ) (s : Mmu)
      → k < pages size
      → IsWords s
      → (done : Bool) × (s' : Mmu) × ((mmu_mark
              (add32 (at * 4096) (k * 4096))
              (add32 (frame * 4096) (k * 4096))
              flag
              s
            ≡ ok (done, s'))
          × IsMarked s (at + k) (frame + k) flag done s')
  mark-turn k s lt w =
      let a : add32 (at * 4096) (k * 4096) ≡ (at + k) * 4096 = omega arith in
      let b : add32 (frame * 4096) (k * 4096) ≡ (frame + k) * 4096 = omega arith in
      let c : (at + k) * 4096 / 2 ^ 12 ≡ at + k = omega arith in
      rw (a, b)
        (mmu_mark-at ((at + k) * 4096) (at + k) (frame + k) flag s c (omega arith)
          (w (at + k) (omega arith)))

  marked-IsUsable :
      (k : ℕ) (s s' : Mmu)
      → IsMarked s (at + k) (frame + k) flag true s'
      → IsWords s
      → k < pages size
      → IsUsable s' (at + k) × (s'.entry (at + k) / 2 % 4 ≡ flag / 2 % 4)
  marked-IsUsable k s s' m w lt = elim (IsMapped-cases s (at + k)) [
    | inl mapped ↦ elim (Bool-cases (flag / 512 % 2 == 0)) [
      | inl f ↦
          let e = m.protects mapped (ground arith) in
          ((m.table, inl (omega (arith, e, mapped.here))), omega (arith, e))
      | inr f ↦ absurd (ground (arith, m.fails.1 (mapped, ground arith)))
    ]
    | inr n ↦ elim (Bool-cases (flag / 512 % 2 == 0)) [
      | inl f ↦
          let e = m.reserves n (ground arith) in
          ((m.table, inr (omega (arith, e))), omega (arith, e))
      | inr f ↦
          let e = (m.maps n (ground arith)).1 in
          ((m.table, inl (omega (arith, e))), omega (arith, e))
    ]
  ]

  nothing_left :
      (k : ℕ) (s : Mmu)
      → pages size ≤ k
      → IsWords s
      → IsReserved at frame (at + k) (at + pages size) flag s true s
  nothing_left k s h w = record {
    fails = λ e. absurd (ground arith);
    usable = λ e p a b. absurd (omega arith);
    exact = λ f e p a b. absurd (omega arith);
    succeeds = λ free. refl;
    keeps = λ p lp m. (m, refl);
    others = λ p lp out t. refl;
    tables_stay = λ p lp t. t;
    words = w;
  }

  failed-IsReserved :
      (k : ℕ) (s s' : Mmu)
      → k < pages size
      → IsWords s
      → IsMarked s (at + k) (frame + k) flag false s'
      → IsReserved at frame (at + k) (at + pages size) flag s false s'
  failed-IsReserved k s s' lt w m = record {
    fails = λ e. (m.fails.0 refl).1;
    usable = λ e. absurd (ground arith);
    exact = λ f e. absurd (ground arith);
    succeeds = λ free. absurd (free (at + k) (omega arith) (omega arith) (m.fails.0 refl).0);
    keeps = m.keeps;
    others = λ p lp out. m.others p lp (omega (arith, out));
    tables_stay = m.tables_stay;
    words = λ p lp. m.words (omega arith) p lp (w p lp);
  }

  turn-IsReserved :
      (k : ℕ) (s s1 : Mmu) (done : Bool) (s' : Mmu)
      → k < pages size
      → IsWords s
      → IsMarked s (at + k) (frame + k) flag true s1
      → IsReserved at frame (at + (k + 1)) (at + pages size) flag s1 done s'
      → IsReserved at frame (at + k) (at + pages size) flag s done s'
  turn-IsReserved k s s1 done s' lt w m r = record {
    fails = r.fails;
    usable = λ e p a b. elim (Bool-cases (p == at + k)) [
      | inl here ↦
          let here' : p ≡ at + k = ground arith in
          let q = at + k in
          let u = marked-IsUsable k s s1 m w lt in
          let same = r.others q (omega arith) (inl (omega arith)) m.table in
          rw (here', same) ((r.tables_stay q (omega arith) m.table, u.0.1), u.1)
      | inr n ↦ r.usable e p (ground arith) b
    ];
    exact = λ f e p a b. elim (Bool-cases (p == at + k)) [
      | inl here ↦
          let q = at + k in
          let here' : p ≡ q = ground arith in
          let free : ¬ IsMapped s q = λ mapped. absurd (ground (arith, m.fails.1 (mapped, f))) in
          let same = r.others q (omega arith) (inl (omega arith)) m.table in
          rw (here', same, (m.maps free f).1) (omega arith)
      | inr n ↦ r.exact f e p (ground arith) b
    ];
    succeeds = λ free.
        r.succeeds (λ p a b. m.absent p (omega arith) (omega arith) (free p (omega arith) b));
    keeps =
        λ p lp mapped. let a = m.keeps p lp mapped in let b = r.keeps p lp a.0 in (b.0, b.1 ∙ a.1);
    others = λ p lp out t.
        r.others p lp (elim out [ inl l ↦ inl (omega arith) | inr g ↦ inr g ])
          (m.tables_stay p lp t)
        ∙ m.others p lp (omega (arith, out)) t;
    tables_stay = λ p lp t. r.tables_stay p lp (m.tables_stay p lp t);
    words = r.words;
  }

  -- The loop's run from the k-th page on.
  abbrev Reserves : (fuel k : ℕ) → Mmu → Type 0
  Reserves fuel k s =
      (done : Bool) × (s' : Mmu) × ((mmap_from fuel (at * 4096) (frame * 4096) size flag (k * 4096)
            s
          ≡ ok (done, s'))
        × IsReserved at frame (at + k) (at + pages size) flag s done s')

  turn-Reserves :
      (fuel k : ℕ) (s : Mmu)
      → k * 4096 < size
      → IsWords s
      → (done : Bool) (s1 : Mmu)
      → mmu_mark (add32 (at * 4096) (k * 4096)) (add32 (frame * 4096) (k * 4096)) flag s
        ≡ ok (done, s1)
      → IsMarked s (at + k) (frame + k) flag done s1
      → (IsWords s1 → Reserves fuel (k + 1) s1)
      → Reserves (suc fuel) k s
  turn-Reserves fuel k s lt w false s1 e m rest = (
    false,
    s1,
    (
      mmap_from-failed fuel (at * 4096) (frame * 4096) size flag (k * 4096) s s1 lt e,
      failed-IsReserved k s s1 (omega arith) w m,
    ),
  )
  turn-Reserves fuel k s lt w true s1 e m rest =
      let (done, s', (f, r)) = rest (λ p lp. m.words (omega arith) p lp (w p lp)) in
      let next : add32 (k * 4096) 4096 ≡ (k + 1) * 4096 = omega arith in
      (
        done,
        s',
        (
          mmap_from-step fuel (at * 4096) (frame * 4096) size flag (k * 4096) s s1 lt e
              ∙ rw (next) f,
          turn-IsReserved k s s1 done s' (omega arith) w m r,
        ),
      )

  mmap_from-IsReserved :
      (fuel k : ℕ) (s : Mmu)
      → pages size < fuel + k
      → k ≤ pages size
      → IsWords s
      → Reserves fuel k s
  mmap_from-IsReserved zero k s enough le w = absurd (omega arith)
  mmap_from-IsReserved (suc fuel) k s enough le w = elim (Bool-cases (ltb (k * 4096) size)) [
    | inl more ↦
        let (done, s1, (e, m)) = mark-turn k s (ground arith) w in
        turn-Reserves fuel k s (ground arith) w done s1 e m
          (λ w1. mmap_from-IsReserved fuel (k + 1) s1 (omega arith) (ground arith) w1)
    | inr over ↦ (
      true,
      s,
      (
        mmap_from-done fuel (at * 4096) (frame * 4096) size flag (k * 4096) s (ground arith),
        nothing_left k s (ground arith) w,
      ),
    )
  ]

  from_start :
      (from fuel : ℕ) (s : Mmu)
      → from ≡ at + 0
      → pages size < fuel
      → IsWords s
      → (done : Bool) × (s' : Mmu) × ((mmap_from fuel (at * 4096) (frame * 4096) size flag 0 s
            ≡ ok (done, s'))
          × IsReserved at frame from (at + pages size) flag s done s')
  from_start from fuel s e enough w =
      rw (e) (mmap_from-IsReserved fuel 0 s (omega arith) (omega arith) w)

  -- The whole of `mmu_mmap`.
  pub mmu_mmap-reserves :
      (fuel : ℕ) (s : Mmu)
      → pages size < fuel
      → IsWords s
      → (done : Bool) × (s' : Mmu) × ((mmu_mmap fuel (at * 4096) (frame * 4096) size flag s
            ≡ ok (done, s'))
          × IsReserved at frame at (at + pages size) flag s done s')
  unfolding mmu_mmap
  mmu_mmap-reserves fuel s enough w = from_start at fuel s (omega arith) enough w
