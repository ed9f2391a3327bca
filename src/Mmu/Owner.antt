-- ===== src/Mmu/Owner.antt =====
-- Who owns a frame in kernel/arch/i686/mmu.c: the stack of free frames, or one page.
use osdev_course.Common.{
  ℕ, ◌+◌, ◌-◌, ◌*◌, ◌/◌, ◌%◌, ◌^◌, ◌<◌, ◌≤◌, ◌≡◌, ◌≢◌, ◌⊎◌, inl, inr, sym, ◌∙◌, ap, ◌==◌, arith, ok,
  Bool-cases,
}
use osdev_course.Mmu.{Mmu, tables, table_of, page_of, mmu_alloc, serve_page, int_0e}
use osdev_course.Mmu.Tables.{IsPresent, IsMapped, frame_at}
use osdev_course.Mmu.Fault.{
  serve_page-entry, serve_page-frames, serve_page-memory, serve_page-page, int_0e-serves,
  mmu_alloc-top,
}

-- Every frame from the address `kend` on, where the kernel's image ends, has one owner at most: it
-- stands once on the stack, or one page is mapped to it, which may be a page table. The stack has
-- no frames of the image, to which any number of pages may be mapped: boot.s maps it, and mmu_init
-- maps the directory and the first pages of the pool again. The last page is the directory.
pub record IsOwned (kend : ℕ) (s : Mmu) : Type 0 where
  pub directory : IsPresent (s.entry (tables + 1023))
  pub aligned : (i : ℕ) → i < s.frames_index → s.frames i % 4096 ≡ 0
  pub above : (i : ℕ) → i < s.frames_index → kend ≤ s.frames i
  pub stacked : (i j : ℕ) → i < j → j < s.frames_index → s.frames i ≢ s.frames j
  pub unused :
      (i p : ℕ) → i < s.frames_index → p < 2 ^ 20 → IsMapped s p → s.frames i ≢ frame_at s p * 4096
  pub once :
      (p q : ℕ)
      → p < 2 ^ 20
      → q < 2 ^ 20
      → IsMapped s p
      → IsMapped s q
      → kend ≤ frame_at s p * 4096
      → frame_at s p ≡ frame_at s q
      → p ≡ q

module _ (kend page : ℕ) (s : Mmu) (small : page < 2 ^ 20) (o : IsOwned kend s)
    (some_left : 0 < s.frames_index) (absent : s.entry page % 2 ≡ 0) where
  top : (mmu_alloc s).0 ≡ s.frames (s.frames_index - 1)
  top = ap (λ r. r.0) (mmu_alloc-top s some_left)

  -- After a fault the mapped pages are the old ones and the new one.
  serve_page-maps :
      (p : ℕ)
      → p < 2 ^ 20
      → IsMapped (serve_page page s) p
      → ((p ≡ page) × (frame_at (serve_page page s) page * 4096 ≡ s.frames (s.frames_index - 1)))
        ⊎ ((p ≢ page) × IsMapped s p × ((serve_page page s).entry p ≡ s.entry p))
  serve_page-maps p lp m = elim (Bool-cases (p == page)) [
    | inl e ↦ inl (
      ground arith,
      ground (
        arith,
        top,
        o.aligned (s.frames_index - 1),
        absent,
        o.directory,
        serve_page-page page s small,
      ),
    )
    | inr n ↦ inr (
      ground arith,
      record {
        table = ground (
          arith,
          absent,
          o.directory,
          m.here,
          m.table,
          serve_page-entry page s p,
          serve_page-entry page s (table_of p),
        );
        here = ground (
          arith,
          absent,
          o.directory,
          m.here,
          m.table,
          serve_page-entry page s p,
          serve_page-entry page s (table_of p),
        );
      },
      ground (
        arith,
        absent,
        o.directory,
        m.here,
        m.table,
        serve_page-entry page s p,
        serve_page-entry page s (table_of p),
      ),
    )
  ]

  pub serve_page-IsOwned : IsOwned kend (serve_page page s)
  serve_page-IsOwned =
      let f = serve_page-frames page s in
      record {
        directory = ground (arith, absent, o.directory, serve_page-entry page s (tables + 1023));
        aligned = λ i lt. rw (ap (λ f. f i) f.0) (o.aligned i (ground (arith, f.1)));
        above = λ i lt. rw (ap (λ f. f i) f.0) (o.above i (ground (arith, f.1)));
        stacked = λ i j lt lj. rw (f.0) (o.stacked i j lt (omega (arith, lj, f.1)));
        unused = λ i p lt lp m. rw (f.0) (elim (serve_page-maps p lp m) [
          | inl (e, top) ↦ λ h.
              o.stacked i (s.frames_index - 1) (omega (arith, lt, f.1)) (omega arith)
                (h ∙ ap (λ x. frame_at (serve_page page s) x * 4096) e ∙ top)
          | inr (ne, old, same) ↦
              λ h. o.unused i p (omega (arith, lt, f.1)) lp old (h ∙ ap (λ x. x / 4096 * 4096) same)
        ]);
        once = λ p q lp lq mp mq own e. elim (serve_page-maps p lp mp) [
          | inl (ep, top) ↦ elim (serve_page-maps q lq mq) [
            | inl (eq, top') ↦ ep ∙ sym eq
            | inr (ne, old, same) ↦ absurd (
                o.unused (s.frames_index - 1) q (omega arith) lq old (
                  sym top
                  ∙ ap (λ x. frame_at (serve_page page s) x * 4096) (sym ep)
                  ∙ ap (λ x. x * 4096) (e)
                  ∙ ap (λ x. x / 4096 * 4096) same))
          ]
          | inr (ne, old, same) ↦ elim (serve_page-maps q lq mq) [
            | inl (eq, top) ↦ absurd (
                o.unused (s.frames_index - 1) p (omega arith) lp old (
                  sym top
                  ∙ ap (λ x. frame_at (serve_page page s) x * 4096) (sym eq)
                  ∙ ap (λ x. x * 4096) (sym e)
                  ∙ ap (λ x. x / 4096 * 4096) same))
            | inr (ne', old', same') ↦
                o.once p q lp lq old old' (rw (ap (λ x. x / 4096) (sym same)) own)
                  (ap (λ x. x / 4096) (sym same) ∙ e ∙ ap (λ x. x / 4096) same')
          ]
        ];
      }

-- The page has a frame of its own, which no one else has, and reads as zeros; no other page changes.
pub record IsServed (kend page : ℕ) (s s' : Mmu) : Type 0 where
  pub owned : IsOwned kend s'
  pub alone : (p : ℕ) → p < 2 ^ 20 → IsMapped s' p → frame_at s' p ≡ frame_at s' page → p ≡ page
  pub mapped : IsMapped s' page
  pub frame : frame_at s' page * 4096 ≡ s.frames (s.frames_index - 1)
  pub protection : s'.entry page / 2 % 4 ≡ s.entry page / 2 % 4
  pub taken : s'.frames_index ≡ s.frames_index - 1
  pub zeros : (a : ℕ) → a / 4096 ≡ page → s'.memory a ≡ 0
  pub others : (p : ℕ) → p ≢ page → s'.entry p ≡ s.entry p
  pub memory_stays : (a : ℕ) → a / 4096 ≢ page → s'.memory a ≡ s.memory a

-- Where every frame from the end of the kernel's image on has one owner at most and one is free, a
-- fault on a page below the tables, whose table is there and which is not present but there on
-- demand, is served: the page gets the frame from the top of the stack with the protection it had
-- and reads as zeros, no other page is mapped to that frame, no other page changes, and each of
-- these frames still has one owner at most.
pub int_0e-IsServed :
    (kend code addr : ℕ) (s : Mmu)
    → page_of addr < tables
    → IsOwned kend s
    → 0 < s.frames_index
    → code % 2 ≡ 0
    → IsPresent (s.entry (table_of (page_of addr)))
    → s.entry (page_of addr) % 2 ≡ 0
    → s.entry (page_of addr) / 256 % 2 ≡ 1
    → (s' : Mmu) × ((int_0e code addr s ≡ ok s') × IsServed kend (page_of addr) s s')
int_0e-IsServed kend code addr s small o left c t absent demand =
    let page = page_of addr in
    let aligned = o.aligned (s.frames_index - 1) (omega arith) in
    let top : (mmu_alloc s).0 ≡ s.frames (s.frames_index - 1) =
      ap (λ r. r.0) (mmu_alloc-top s left) in
    let e = serve_page-page page s (omega arith) (omega arith) (omega (arith, aligned, top)) in
    let owned = serve_page-IsOwned kend page s (omega arith) o left absent in
    let mapped : IsMapped (serve_page page s) page = record {
      table = ground (arith, t, serve_page-entry page s (table_of page));
      here = omega (arith, e, aligned, top);
    } in
    let frame : frame_at (serve_page page s) page * 4096 ≡ s.frames (s.frames_index - 1) =
      omega (arith, e, aligned, top) in
    let above = o.above (s.frames_index - 1) (omega arith) in
    (
      serve_page page s,
      (
        int_0e-serves code addr s t c demand,
        record {
          owned = owned;
          alone = λ p lp m same.
              owned.once p page lp (omega arith) m mapped (omega (arith, same, frame, above)) same;
          mapped = mapped;
          frame = frame;
          protection = omega (arith, e, aligned, top);
          taken = (serve_page-frames page s).1;
          zeros = λ a h. ground (arith, serve_page-memory page s a small);
          others = λ p ne. ground (arith, serve_page-entry page s p);
          memory_stays = λ a ne. ground (arith, serve_page-memory page s a small);
        },
      ),
    )
