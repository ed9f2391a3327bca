-- ===== src/Mmu/Pool.antt =====
-- The pool that holds the stack of frames in `mmu_init` of kernel/arch/i686/mmu.c: what a page fault
-- and `mmu_mark` leave of it.
use osdev_course.Common.{
  ℕ, ◌+◌, ◌-◌, ◌*◌, ◌/◌, ◌%◌, ◌^◌, ◌<◌, ◌≤◌, ◌≡◌, inl, inr, refl, sym, ◌∙◌, ap, Option, none, some,
  ◌==◌, arith, ok, Bool-cases,
}
use osdev_course.Mmu.{
  Mmu, tables, table_of, mmu_alloc, read_page, page_ondemand, serve_page, touch, page_fault, marked,
  set_entry, marked,
}
use osdev_course.Mmu.Masks.{and-present, and-ondemand}
use osdev_course.Mmu.Tables.{IsPresent, IsMapped, frame_at, ready, ready-present}
use osdev_course.Mmu.Mark.{result, result-IsMarked}
use osdev_course.Mmu.Map.{IsWords}
use osdev_course.Mmu.Fault.{
  serve_page-entry, serve_page-frames, serve_page-page, mmu_alloc-top, mmu_alloc-empty,
}

-- The entry of an address in the pool.
abbrev pub pool_page : ℕ → ℕ
pool_page index = 0xFF800 + index / 1024

-- Every frame on the stack has the property `P`, and the pool's table is there.
pub record IsPool (P : ℕ → Type 0) (s : Mmu) : Type 0 where
  pub all : (i : ℕ) → i < s.frames_index → P (s.frames i)
  pub table : IsPresent (s.entry (tables + 1022))
  pub words : IsWords s

pub read_page-mapped : (page : ℕ) (s : Mmu) → IsMapped s page → read_page page s ≡ ok s
unfolding read_page touch
read_page-mapped page s m =
    ground
      (arith, m.table, m.here, and-present (s.entry (table_of page)), and-present (s.entry page))

pub read_page-demand :
    (page : ℕ) (s : Mmu)
    → IsPresent (s.entry (table_of page))
    → s.entry page % 2 ≡ 0
    → s.entry page / 256 % 2 ≡ 1
    → read_page page s ≡ ok (serve_page page s)
unfolding read_page touch page_fault
read_page-demand page s t absent demand = ground (
  arith,
  t,
  absent,
  demand,
  and-present (s.entry (table_of page)),
  and-present (s.entry page),
  and-ondemand (s.entry page),
  and-present 0,
)

pub set_entry-keeps :
    (page : ℕ) (e : Option ℕ) (s : Mmu)
    → ((set_entry page e s).1.frames ≡ s.frames)
      × ((set_entry page e s).1.frames_index ≡ s.frames_index)
unfolding set_entry
set_entry-keeps page none s = (refl, refl)
set_entry-keeps page (some e) s = (refl, refl)

-- A frame that the pool has: it stands on the stack, or it holds a part of the stack.
pub data Holds (s : Mmu) (x : ℕ) : Type 0 where
  on_stack : (i : ℕ) → i < s.frames_index → s.frames i ≡ x → Holds s x
  in_pool :
      (p : ℕ)
      → 0xFF800 ≤ p
      → p < tables
      → IsPresent (s.entry p)
      → frame_at s p * 4096 ≡ x
      → Holds s x

-- The frame that a fault takes off the stack is then part of the pool.
pub serve_page-Holds :
    (page : ℕ) (s : Mmu) (x : ℕ)
    → 0xFF800 ≤ page
    → page < tables
    → s.entry page % 2 ≡ 0
    → (mmu_alloc s).0 % 4096 ≡ 0
    → Holds s x
    → Holds (serve_page page s) x
serve_page-Holds page s x low high absent aligned (on_stack i li e) =
    elim (Bool-cases (i == s.frames_index - 1)) [
      | inl last ↦
          let top = ap (λ r. r.0) (mmu_alloc-top s (omega arith)) in
          let v = serve_page-page page s (omega arith) (omega arith) aligned in
          let last' : i ≡ s.frames_index - 1 = ground arith in
          let x' : (mmu_alloc s).0 ≡ x = top ∙ ap (λ i. s.frames i) (sym last') ∙ e in
          in_pool page low high (omega (arith, v, aligned)) (omega (arith, v, aligned, x'))
      | inr ne ↦
          on_stack i (ground (arith, (serve_page-frames page s).1))
            (ap (λ f. f i) (serve_page-frames page s).0 ∙ e)
    ]
serve_page-Holds page s x low high absent aligned (in_pool p lp hp here e) =
    in_pool p lp hp (ground (arith, here, absent, serve_page-entry page s p))
      (ground (arith, here, absent, e, serve_page-entry page s p))

module _ (P : ℕ → Type 0) (P-frame : (x : ℕ) → P x → (x % 4096 ≡ 0) × (x < 2 ^ 32)) where
  pub alloc_frame :
      (s : Mmu) → IsPool P s → ((mmu_alloc s).0 % 4096 ≡ 0) × ((mmu_alloc s).0 < 2 ^ 32)
  alloc_frame s p = elim (Bool-cases (s.frames_index == 0)) [
    | inl e ↦ rw (mmu_alloc-empty s (ground arith)) (refl, omega arith)
    | inr n ↦
        rw (mmu_alloc-top s (ground arith))
          (P-frame (s.frames (s.frames_index - 1)) (p.all (s.frames_index - 1) (ground arith)))
  ]

  -- The fault that the read of a page of the pool raises.
  pub serve_page-IsPool :
      (page : ℕ) (s : Mmu) → page < tables → IsPool P s → IsPool P (serve_page page s)
  serve_page-IsPool page s lt p =
      let f = serve_page-frames page s in
      let (aligned, small) = alloc_frame s p in
      record {
        all = λ i li. rw (f.0) (p.all i (omega (arith, li, f.1)));
        table = ground (arith, p.table, serve_page-entry page s (tables + 1022));
        words = λ q lq. ground (
          arith,
          p.words q lq,
          serve_page-entry page s q,
          serve_page-page page s (omega arith) (omega arith) aligned,
          aligned,
          small,
        );
      }

  pub mark-frames :
      (index : ℕ) (s : Mmu)
      → index < 2 ^ 20
      → IsPool P s
      → ((result (pool_page index) 0 page_ondemand s).1.frames ≡ s.frames)
        × ((result (pool_page index) 0 page_ondemand s).1.frames_index ≡ s.frames_index)
  mark-frames index s lt p =
      let page = pool_page index in
      let t : IsPresent (s.entry (table_of page)) = ground (arith, p.table) in
      let r = ready-present page s t in
      let e = marked ((ready page s).entry page) 0 page_ondemand in
      let k = set_entry-keeps page e (ready page s) in
      (k.0 ∙ ap (λ s. s.frames) r, k.1 ∙ ap (λ s. s.frames_index) r)

  pub mark-IsPool :
      (index : ℕ) (s : Mmu)
      → index < 2 ^ 20
      → IsPool P s
      → IsPool P (result (pool_page index) 0 page_ondemand s).1
  mark-IsPool index s lt p =
      let page = pool_page index in
      let m = result-IsMarked page 0 page_ondemand s (omega arith) (p.words page (omega arith)) in
      let (frames, index) = mark-frames index s lt p in
      record {
        all = λ i li. rw (frames) (p.all i (omega (arith, li, index)));
        table = ground (arith, m.table);
        words = λ q lq. m.words (omega arith) q lq (p.words q lq);
      }

  pub mark-Holds :
      (index : ℕ) (s : Mmu) (x : ℕ)
      → index < 2 ^ 20
      → IsPool P s
      → Holds s x
      → Holds (result (pool_page index) 0 page_ondemand s).1 x
  mark-Holds index s x lt p (on_stack i li e) =
      let (frames, index) = mark-frames index s lt p in
      on_stack i (omega (arith, li, index)) (ap (λ f. f i) frames ∙ e)
  mark-Holds index s x lt p (in_pool q lq hq here e) =
      let page = pool_page index in
      let m = result-IsMarked page 0 page_ondemand s (omega arith) (p.words page (omega arith)) in
      let (mapped, same) = m.keeps q hq (record { table = ground (arith, p.table); here = here }) in
      in_pool q lq hq mapped.here (omega (arith, same, e))
