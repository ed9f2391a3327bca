-- ===== src/Mmu/Mark.antt =====
-- `mmu_mark` of kernel/arch/i686/mmu.c on every branch.
use osdev_course.Common.{
  ℕ, ◌+◌, ◌*◌, ◌/◌, ◌%◌, ◌^◌, ◌<◌, ◌≡◌, ◌≢◌, ◌↔◌, sym, ap, Bool, none, some, false, ◌==◌,
  if◌then◌else◌, arith, ok, ◌>>=◌,
}
use osdev_course.Mmu.{Mmu, tables, table_of, page_of, mmu_mark, marked, set_entry}
use osdev_course.Mmu.Masks.{and-present, and-noalloc, or-map, or-ondemand, or-protect}
use osdev_course.Mmu.Tables.{
  IsPresent, IsMapped, frame_at, ready, touch-ready, ready-entry, ready-table, ready-others,
  ready-present,
}

-- What `mmu_mark` promises for a page, a frame's number and a flag.
pub record IsMarked (s : Mmu) (at frame flag : ℕ) (done : Bool) (s' : Mmu) : Type 0 where
  -- It fails only where the page has a frame and another one is asked for, and changes nothing then.
  pub fails : done ≡ false ↔ (IsMapped s at × (flag / 512 % 2 ≡ 1))
  pub unchanged : done ≡ false → s' ≡ s
  -- No page loses its frame, and no other page changes.
  pub keeps : (p : ℕ) → p < tables → IsMapped s p → IsMapped s' p × (frame_at s' p ≡ frame_at s p)
  pub others :
      (p : ℕ) → p < tables → p ≢ at → IsPresent (s.entry (table_of p)) → s'.entry p ≡ s.entry p
  pub absent : (p : ℕ) → p < tables → p ≢ at → ¬ IsMapped s p → ¬ IsMapped s' p
  pub tables_stay :
      (p : ℕ) → p < tables → IsPresent (s.entry (table_of p)) → IsPresent (s'.entry (table_of p))
  pub table : IsPresent (s'.entry (table_of at))
  pub words : frame < 2 ^ 20 → (p : ℕ) → p < tables → s.entry p < 2 ^ 32 → s'.entry p < 2 ^ 32
  -- A page without a frame gets the one asked for, or none yet.
  pub maps :
      ¬ IsMapped s at
      → flag / 512 % 2 ≡ 1
      → IsMapped s' at × (s'.entry at ≡ frame * 4096 + flag / 2 % 4 * 2 + 1)
  pub reserves : ¬ IsMapped s at → flag / 512 % 2 ≡ 0 → s'.entry at ≡ 0x100 + flag / 2 % 4 * 2
  -- A page with a frame keeps it and gets the protection.
  pub protects :
      IsMapped s at
      → flag / 512 % 2 ≡ 0
      → s'.entry at ≡ s.entry at / 8 * 8 + flag / 2 % 4 * 2 + s.entry at % 2

mark-ready :
    (addr paddr flag : ℕ) (s : Mmu)
    → mmu_mark addr paddr flag s
      ≡ ok (
          set_entry
            (page_of addr)
            (marked ((ready (page_of addr) s).entry (page_of addr)) paddr flag)
            (ready (page_of addr) s))
unfolding mmu_mark
mark-ready addr paddr flag s =
    ap
      (λ r. r >>= λ s. ok (set_entry (page_of addr) (marked (s.entry (page_of addr)) paddr flag) s))
      (touch-ready (page_of addr) s)

abbrev pub result : (at frame flag : ℕ) → Mmu → Bool × Mmu
result at frame flag s =
    set_entry at (marked ((ready at s).entry at) (frame * 4096) flag) (ready at s)

-- The tests of `marked` as arithmetic.
pub marked_lem :
    (e frame flag : ℕ)
    → e < 2 ^ 32
    → marked e (frame * 4096) flag ≡ (
        if e % 2 == 0
        then (if flag / 512 % 2 == 0
            then some (0x100 + flag / 2 % 4 * 2)
            else some (frame * 4096 + flag / 2 % 4 * 2 + 1))
        else (if flag / 512 % 2 == 0 then some (e / 8 * 8 + flag / 2 % 4 * 2 + e % 2) else none))
unfolding marked
marked_lem e frame flag w = ground (
  arith,
  and-present e,
  and-noalloc flag,
  or-map frame flag,
  or-ondemand flag,
  or-protect e flag w,
)

module _ (at frame flag : ℕ) (s : Mmu) (lt : at < tables) (w : s.entry at < 2 ^ 32) where
  abbrev old : ℕ
  old = (ready at s).entry at

  old-word : old < 2 ^ 32
  old-word = ground (arith, ready-entry at s at lt lt, w)

  result-fails :
      (result at frame flag s).0 ≡ false
      → IsMapped s at × (flag / 512 % 2 ≡ 1) × ((result at frame flag s).1 ≡ s)
  unfolding set_entry
  result-fails e = ground (
    arith,
    marked_lem old frame flag old-word,
    ready-entry at s at lt lt,
    ready-table at s lt,
    ready-present at s,
  )

  pub result-IsMarked :
      IsMarked s at frame flag (result at frame flag s).0 (result at frame flag s).1
  unfolding set_entry
  result-IsMarked =
      let c = marked_lem old frame flag old-word in
      let e = ready-entry at s at lt lt in
      let t = ready-table at s lt in
      record {
        fails = (
          λ e. ((result-fails e).0, (result-fails e).1),
          λ (m, f). ground (arith, m.table, m.here, ready-present at s m.table),
        );
        unchanged = λ e. (result-fails e).2;
        keeps = λ p lp m. (
          record {
            table = ground (
              arith,
              m.table,
              m.here,
              ready-entry at s p lt lp,
              ready-others at s (table_of p) lt (omega arith),
            );
            here = ground (
              arith,
              m.table,
              m.here,
              ready-entry at s p lt lp,
              ready-others at s (table_of p) lt (omega arith),
            );
          },
          ground (
            arith,
            m.table,
            m.here,
            ready-entry at s p lt lp,
            ready-others at s (table_of p) lt (omega arith),
          ),
        );
        others = λ p lp ne h. ground (arith, ready-entry at s p lt lp);
        absent = λ p lp ne n m. n (record {
          table = ground (
            arith,
            ready-others at s (table_of p) lt (omega arith),
            ready-entry at s p lt lp,
            m.here,
            m.table,
          );
          here = ground (
            arith,
            ready-others at s (table_of p) lt (omega arith),
            ready-entry at s p lt lp,
            m.here,
            m.table,
          );
        });
        tables_stay = λ p lp h. ground (arith, ready-others at s (table_of p) lt (omega arith));
        table = ground arith;
        words = λ small p lp v. ground (arith, ready-entry at s p lt lp);
        maps = λ n f. (
          record { table = ground (arith, n, f); here = ground (arith, n, f) },
          ground (arith, n, f),
        );
        reserves = λ n f. ground (arith, n);
        protects = λ m f. ground (arith, m.table, m.here, ready-present at s m.table);
      }

-- `mmu_mark` returns, and does what it promises.
pub mmu_mark-IsMarked :
    (addr frame flag : ℕ) (s : Mmu)
    → page_of addr < tables
    → s.entry (page_of addr) < 2 ^ 32
    → (done : Bool) × (s' : Mmu) × ((mmu_mark addr (frame * 4096) flag s ≡ ok (done, s'))
        × IsMarked s (page_of addr) frame flag done s')
mmu_mark-IsMarked addr frame flag s lt w = (
  _,
  _,
  (mark-ready addr (frame * 4096) flag s, result-IsMarked (page_of addr) frame flag s lt w),
)

pub mmu_mark-at :
    (addr at frame flag : ℕ) (s : Mmu)
    → page_of addr ≡ at
    → at < tables
    → s.entry at < 2 ^ 32
    → (done : Bool) × (s' : Mmu) × ((mmu_mark addr (frame * 4096) flag s ≡ ok (done, s'))
        × IsMarked s at frame flag done s')
mmu_mark-at addr at frame flag s e = rw (sym e) (mmu_mark-IsMarked addr frame flag s)

pub mark-at :
    (addr at frame flag : ℕ) (s : Mmu)
    → page_of addr ≡ at
    → mmu_mark addr (frame * 4096) flag s ≡ ok (result at frame flag s)
mark-at addr at frame flag s e = rw (sym e) (mark-ready addr (frame * 4096) flag s)
