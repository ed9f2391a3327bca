-- ===== src/Mmu/Push.antt =====
-- How `mmu_init` of kernel/arch/i686/mmu.c pushes a frame: the pool that holds the stack grows out of
-- the stack itself.
use osdev_course.Common.{
  ℕ, ◌+◌, ◌*◌, ◌%◌, ◌^◌, ◌<◌, ◌≤◌, ◌≡◌, inl, inr, refl, ◌∙◌, ap, true, false, ◌==◌, arith, ok,
  ◌>>=◌, Bool-cases, add32, update, shr, wrap32,
}
use osdev_course.Mmu.{
  Mmu, page_of, mmu_mark, read_page, push_frame, put_frame, page_ondemand, framepool_vma,
  serve_page,
}
use osdev_course.Mmu.Tables.{IsMapped-cases}
use osdev_course.Mmu.Mark.{mark-at, result, result-IsMarked}
use osdev_course.Mmu.Fault.{serve_page-frames}
use osdev_course.Mmu.Pool.{
  pool_page, IsPool, Holds, in_pool, on_stack, alloc_frame, read_page-mapped, read_page-demand,
  serve_page-Holds, serve_page-IsPool, mark-frames, mark-IsPool, mark-Holds,
}

module _ (P : ℕ → Type 0) (P-frame : (x : ℕ) → P x → (x % 4096 ≡ 0) × (x < 2 ^ 32)) where
  -- After `mmu_mark`, the read goes through.
  grow :
      (index : ℕ) (s : Mmu)
      → index < 2 ^ 20
      → IsPool P s
      → (s' : Mmu) × ((read_page (pool_page index) (result (pool_page index) 0 page_ondemand s).1
            ≡ ok s')
          × IsPool P s'
          × (s'.frames_index ≤ s.frames_index)
          × ((x : ℕ) → Holds s x → Holds s' x))
  grow index s lt p =
      let page = pool_page index in
      let s1 = (result page 0 page_ondemand s).1 in
      let m = result-IsMarked page 0 page_ondemand s (omega arith) (p.words page (omega arith)) in
      let same = (mark-frames P P-frame index s lt p).1 in
      let p1 = mark-IsPool P P-frame index s lt p in
      elim (IsMapped-cases s page) [
        | inl mapped ↦ (
          s1,
          (
            read_page-mapped page s1 (m.keeps page (omega arith) mapped).0,
            p1,
            omega (arith, same),
            λ x h. mark-Holds P P-frame index s x lt p h,
          ),
        )
        | inr free ↦
            let e = m.reserves free refl in
            (
              serve_page page s1,
              (
                read_page-demand page s1 m.table (omega (arith, e)) (omega (arith, e)),
                serve_page-IsPool P P-frame page s1 (omega arith) p1,
                omega (arith, same, (serve_page-frames page s1).1),
                λ x h.
                    serve_page-Holds page s1 x (omega arith) (omega arith) (omega (arith, e))
                      (alloc_frame P P-frame s1 p1).0 (mark-Holds P P-frame index s x lt p h),
              ),
            )
      ]

  grown-run :
      (index : ℕ) (s s' : Mmu)
      → index < 2 ^ 20
      → read_page (pool_page index) (result (pool_page index) 0 page_ondemand s).1 ≡ ok s'
      → (mmu_mark (add32 framepool_vma (index * 4)) 0 page_ondemand s >>= λ (_, s).
          read_page (page_of (add32 framepool_vma (index * 4))) s)
        ≡ ok s'
  grown-run index s s' lt e =
      let page : page_of (add32 framepool_vma (index * 4)) ≡ pool_page index = omega arith in
      ap (λ r. r >>= λ (_, s). read_page (page_of (add32 framepool_vma (index * 4))) s)
        (mark-at (add32 framepool_vma (index * 4)) (pool_page index) 0 page_ondemand s page)
      ∙ ap (λ page. read_page page (result (pool_page index) 0 page_ondemand s).1) page
      ∙ e

  -- The push of one frame.
  put_frame-IsPool :
      (start : ℕ) (s : Mmu)
      → P start
      → s.frames_index < 2 ^ 20
      → IsPool P s
      → IsPool P (put_frame start s)
  put_frame-IsPool start s ps room p =
      let lt = (P-frame start ps).1 in
      record {
        all = λ i li. elim (Bool-cases (i == s.frames_index)) [
          | inl e ↦
              let v : update s.frames s.frames_index (wrap32 start) i ≡ start =
                ground (arith, lt) in
              rw (v) ps
          | inr ne ↦
              let v : update s.frames s.frames_index (wrap32 start) i ≡ s.frames i = ground arith in
              rw (v) (p.all i (ground (arith, li, room)))
        ];
        table = p.table;
        words = p.words;
      }

  put_frame-Holds :
      (start : ℕ) (s : Mmu) (x : ℕ)
      → s.frames_index < 2 ^ 20
      → Holds s x
      → Holds (put_frame start s) x
  put_frame-Holds start s x room (on_stack i li e) =
      on_stack i (omega (arith, li)) (ground (arith, li, e))
  put_frame-Holds start s x room (in_pool q lq hq here e) = in_pool q lq hq here e

  put_frame-new :
      (start : ℕ) (s : Mmu)
      → start < 2 ^ 32
      → s.frames_index < 2 ^ 20
      → Holds (put_frame start s) start
  put_frame-new start s lt room = on_stack s.frames_index (omega arith) (ground arith)

  push_frame-grown :
      (start pt_index : ℕ) (s s' : Mmu)
      → s.frames_index < 2 ^ 20
      → (pt_index == shr s.frames_index 10) ≡ false
      → read_page (pool_page s.frames_index) (result (pool_page s.frames_index) 0 page_ondemand s).1
        ≡ ok s'
      → push_frame start pt_index s ≡ ok (shr s.frames_index 10, put_frame start s')
  unfolding push_frame
  push_frame-grown start pt_index s s' room ne e =
      rw (ne, grown-run s.frames_index s s' room e) refl

  push_frame-room :
      (start pt_index : ℕ) (s : Mmu)
      → (pt_index == shr s.frames_index 10) ≡ true
      → push_frame start pt_index s ≡ ok (shr s.frames_index 10, put_frame start s)
  unfolding push_frame
  push_frame-room start pt_index s same = rw (same) refl

  -- The new frame is had, those that were there are kept, and the stack grows by one at most.
  pub record IsPushed (start : ℕ) (s s' : Mmu) : Type 0 where
    pub pool : IsPool P s'
    pub index : s'.frames_index ≤ s.frames_index + 1
    pub keeps : (x : ℕ) → Holds s x → Holds s' x
    pub new : Holds s' start

  pub push_frame-IsPushed :
      (start pt_index : ℕ) (s : Mmu)
      → P start
      → s.frames_index < 2 ^ 20
      → IsPool P s
      → (pt : ℕ) × (s' : Mmu) × ((push_frame start pt_index s ≡ ok (pt, s')) × IsPushed start s s')
  push_frame-IsPushed start pt_index s ps room p =
      let (s1, (e, p1, few, keeps)) = grow s.frames_index s room p in
      let lt = (P-frame start ps).1 in
      elim (Bool-cases (pt_index == shr s.frames_index 10)) [
        | inl same ↦ (
          shr s.frames_index 10,
          put_frame start s,
          (
            push_frame-room start pt_index s same,
            record {
              pool = put_frame-IsPool start s ps room p;
              index = omega arith;
              keeps = λ x h. put_frame-Holds start s x room h;
              new = put_frame-new start s lt room;
            },
          ),
        )
        | inr ne ↦ (
          shr s.frames_index 10,
          put_frame start s1,
          (
            push_frame-grown start pt_index s s1 room ne e,
            record {
              pool = put_frame-IsPool start s1 ps (omega (arith, few)) p1;
              index = omega (arith, few);
              keeps = λ x h. put_frame-Holds start s1 x (omega (arith, few)) (keeps x h);
              new = put_frame-new start s1 lt (omega (arith, few));
            },
          ),
        )
      ]
