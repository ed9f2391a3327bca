-- ===== src/Mmu/Release.antt =====
-- `mmu_mmap` on demand and `mmu_munmap` of kernel/arch/i686/mmu.c keep every frame at one owner.
use osdev_course.Common.{
  ℕ, ◌+◌, ◌-◌, ◌*◌, ◌/◌, ◌%◌, ◌^◌, ◌<◌, ◌≤◌, ◌≡◌, ◌≢◌, ◌⊎◌, inl, inr, refl, sym, ◌∙◌, bit_and, ◌==◌,
  arith, update, Bool-cases,
}
use osdev_course.Mmu.{Mmu, tables, table_of, put_back, demand_table, prot_present}
use osdev_course.Mmu.Masks.{and-present}
use osdev_course.Mmu.Tables.{IsPresent, IsMapped, frame_at, ready}
use osdev_course.Mmu.Fault.{serve_page-frames}
use osdev_course.Mmu.Owner.{IsOwned, serve_page-IsOwned}

-- No page is mapped that was not, or elsewhere.
pub IsOwned-fewer :
    (kend : ℕ) (s s' : Mmu)
    → IsOwned kend s
    → s'.frames ≡ s.frames
    → s'.frames_index ≡ s.frames_index
    → IsPresent (s'.entry (tables + 1023))
    → ((p : ℕ) → p < 2 ^ 20 → IsMapped s' p → IsMapped s p × (frame_at s' p ≡ frame_at s p))
    → IsOwned kend s'
IsOwned-fewer kend s s' o f i d old = record {
  directory = d;
  aligned = λ k lt. rw (f) (o.aligned k (omega (arith, lt, i)));
  above = λ k lt. rw (f) (o.above k (omega (arith, lt, i)));
  stacked = λ j k lt lk. rw (f) (o.stacked j k lt (omega (arith, lk, i)));
  unused =
      λ k p lt lp m. rw (f, (old p lp m).1) (o.unused k p (omega (arith, lt, i)) lp (old p lp m).0);
  once = λ p q lp lq mp mq own e.
      o.once p q lp lq (old p lp mp).0 (old q lq mq).0 (rw (sym (old p lp mp).1) own)
        (sym (old p lp mp).1 ∙ e ∙ (old q lq mq).1);
}

-- One entry changes, to one that is not present or that keeps the frame.
pub IsOwned-update :
    (kend : ℕ) (s : Mmu) (page e : ℕ)
    → IsOwned kend s
    → page < 2 ^ 20
    → page ≢ tables + 1023
    → (e % 2 ≡ 0) ⊎ (IsPresent (s.entry page) × (e / 4096 ≡ s.entry page / 4096))
    → IsOwned kend (record s { entry = update s.entry page e })
IsOwned-update kend s page e o small ne kind =
    IsOwned-fewer kend s (record s { entry = update s.entry page e }) o refl refl
      (ground (arith, o.directory))
      (λ p lp m. (
        record { table = ground (arith, m.table, kind); here = ground (arith, m.here, kind) },
        ground (arith, m.here, kind),
      ))

-- A frame that no page is mapped to goes back.
pub put_back-IsOwned :
    (kend : ℕ) (s : Mmu) (f : ℕ)
    → IsOwned kend s
    → kend ≤ f * 4096
    → s.frames_index + 1 < 2 ^ 32
    → ((i : ℕ) → i < s.frames_index → s.frames i ≢ f * 4096)
    → ((p : ℕ) → p < 2 ^ 20 → IsMapped s p → f ≢ frame_at s p)
    → IsOwned kend (put_back s.frames_index (f * 4096) s)
put_back-IsOwned kend s f o own room fresh free = record {
  directory = o.directory;
  aligned = λ i lt. ground (arith, lt, o.aligned i);
  above = λ i lt. ground (arith, lt, own, o.above i);
  stacked = λ i j lt lj. λ e. ground (arith, lt, lj, room, o.stacked i j lt, fresh i, e);
  unused = λ i p lt lp m.
      let old : IsMapped s p = record { table = m.table; here = m.here } in
      λ e. ground (arith, e, lt, room, o.unused i p, lp, old, free p lp old);
  once = λ p q lp lq mp mq mine e.
      o.once p q lp lq (record { table = mp.table; here = mp.here })
        (record { table = mq.table; here = mq.here }) mine e;
}

demand_table-IsOwned :
    (kend page : ℕ) (s : Mmu)
    → page < tables
    → IsOwned kend s
    → IsOwned kend (demand_table page s) × ((demand_table page s).frames_index ≡ s.frames_index)
unfolding demand_table
demand_table-IsOwned kend page s lt o =
    elim (Bool-cases (bit_and (s.entry (table_of page)) 0x101 == 0)) [
      | inl b ↦ rw (b) (
        IsOwned-update kend s (table_of page) 0x106 o (omega arith) (omega arith) (inl refl),
        refl,
      )
      | inr b ↦ rw (b) (o, refl)
    ]

pub ready-IsOwned :
    (kend page : ℕ) (s : Mmu)
    → page < tables
    → IsOwned kend s
    → 0 < s.frames_index
    → IsOwned kend (ready page s) × (s.frames_index - 1 ≤ (ready page s).frames_index)
unfolding ready
ready-IsOwned kend page s lt o left =
    let d = demand_table page s in
    let t = table_of page in
    let (od, same) = demand_table-IsOwned kend page s lt o in
    elim (Bool-cases (bit_and (d.entry t) prot_present == 0)) [
      | inl b ↦ rw (b) (
        serve_page-IsOwned kend t d (omega arith) od (omega (arith, same))
            (ground (arith, and-present (d.entry t))),
        omega (arith, same, (serve_page-frames t d).1),
      )
      | inr b ↦ rw (b) (od, omega (arith, same))
    ]
