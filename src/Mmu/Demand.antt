-- ===== src/Mmu/Demand.antt =====
-- `mmu_mmap` of kernel/arch/i686/mmu.c, for pages that get their frames on demand: every frame keeps
-- its one owner.
use osdev_course.Common.{
  ℕ, zero, suc, ◌+◌, ◌-◌, ◌*◌, ◌/◌, ◌%◌, ◌^◌, ◌<◌, ◌≤◌, ◌≡◌, inl, inr, refl, ◌∙◌, ap, true, ◌==◌,
  ltb, arith, ok, Bool-cases, add32,
}
use osdev_course.Mmu.{Mmu, tables, mmu_mark, mmap_from, mmu_mmap, set_entry}
use osdev_course.Mmu.Tables.{ready, ready-entry}
use osdev_course.Mmu.Mark.{marked_lem, mark-at, result, result-IsMarked}
use osdev_course.Mmu.Map.{IsWords, pages, mmap_from-done, mmap_from-step}
use osdev_course.Mmu.Owner.{IsOwned}
use osdev_course.Mmu.Release.{IsOwned-update, ready-IsOwned}

-- One page takes at most one frame off the stack, for its table.
mark-IsOwned :
    (kend at frame flag : ℕ) (s : Mmu)
    → at < tables
    → s.entry at < 2 ^ 32
    → flag / 512 % 2 ≡ 0
    → IsOwned kend s
    → 0 < s.frames_index
    → ((result at frame flag s).0 ≡ true)
      × IsOwned kend (result at frame flag s).1
      × (s.frames_index - 1 ≤ (result at frame flag s).1.frames_index)
unfolding set_entry
mark-IsOwned kend at frame flag s lt w demand o left =
    let r = ready at s in
    let (owned, few) = ready-IsOwned kend at s lt o left in
    let old = r.entry at in
    let word : old < 2 ^ 32 = ground (arith, ready-entry at s at lt lt, w) in
    let f : (flag / 512 % 2 == 0) ≡ true = ground arith in
    elim (Bool-cases (old % 2 == 0)) [
      | inl b ↦
          rw (marked_lem old frame flag word, b, f)
            (
              refl,
              IsOwned-update kend r at (0x100 + flag / 2 % 4 * 2) owned (omega arith) (omega arith)
                  (inl (omega arith)),
              few,
            )
      | inr b ↦
          rw (marked_lem old frame flag word, b, f)
            (
              refl,
              IsOwned-update kend r at (old / 8 * 8 + flag / 2 % 4 * 2 + old % 2) owned
                  (omega arith) (omega arith) (inr (ground arith, omega arith)),
              few,
            )
    ]

module _ (kend at frame size flag : ℕ) (fits : at + pages size ≤ tables)
    (below : frame + pages size ≤ 2 ^ 20) (demand : flag / 512 % 2 ≡ 0) where
  mark-run :
      (k : ℕ) (s : Mmu)
      → k < pages size
      → s.entry (at + k) < 2 ^ 32
      → IsOwned kend s
      → 0 < s.frames_index
      → mmu_mark (add32 (at * 4096) (k * 4096)) (add32 (frame * 4096) (k * 4096)) flag s
        ≡ ok (true, (result (at + k) (frame + k) flag s).1)
  mark-run k s lt w o left =
      let a : add32 (at * 4096) (k * 4096) ≡ (at + k) * 4096 = omega arith in
      let b : add32 (frame * 4096) (k * 4096) ≡ (frame + k) * 4096 = omega arith in
      let c : (at + k) * 4096 / 2 ^ 12 ≡ at + k = omega arith in
      let done = (mark-IsOwned kend (at + k) (frame + k) flag s (omega arith) w demand o left).0 in
      rw (a, b) (mark-at ((at + k) * 4096) (at + k) (frame + k) flag s c)
      ∙ ap (λ d. ok (d, (result (at + k) (frame + k) flag s).1)) done

  mmap_from-IsOwned :
      (fuel k : ℕ) (s : Mmu)
      → pages size < fuel + k
      → k ≤ pages size
      → IsWords s
      → IsOwned kend s
      → pages size ≤ s.frames_index + k
      → (s' : Mmu) × ((mmap_from fuel (at * 4096) (frame * 4096) size flag (k * 4096) s
            ≡ ok (true, s'))
          × IsOwned kend s')
  mmap_from-IsOwned zero k s enough le w o left = absurd (omega arith)
  mmap_from-IsOwned (suc fuel) k s enough le w o left = elim (Bool-cases (ltb (k * 4096) size)) [
    | inl more ↦
        let lt : k < pages size = ground arith in
        let m =
          result-IsMarked (at + k) (frame + k) flag s (omega arith) (w (at + k) (omega arith)) in
        let (_, o1, few) =
          mark-IsOwned kend (at + k) (frame + k) flag s (omega arith) (w (at + k) (omega arith))
            demand o (ground arith) in
        let s1 = (result (at + k) (frame + k) flag s).1 in
        let next : add32 (k * 4096) 4096 ≡ (k + 1) * 4096 = ground arith in
        let (s', (e, o')) =
          mmap_from-IsOwned fuel (k + 1) s1 (omega arith) (ground arith)
            (λ p lp. m.words (omega arith) p lp (w p lp)) o1 (omega (arith, few)) in
        (
          s',
          (
            mmap_from-step fuel (at * 4096) (frame * 4096) size flag (k * 4096) s s1 (ground arith)
                  (mark-run k s (ground arith) (w (at + k) (omega arith)) o (ground arith))
                ∙ ap (λ off. mmap_from fuel (at * 4096) (frame * 4096) size flag off s1) next
                ∙ e,
            o',
          ),
        )
    | inr over ↦ (
      s,
      (mmap_from-done fuel (at * 4096) (frame * 4096) size flag (k * 4096) s (ground arith), o),
    )
  ]

  pub mmu_mmap-IsOwned :
      (fuel : ℕ) (s : Mmu)
      → pages size < fuel
      → IsWords s
      → IsOwned kend s
      → pages size ≤ s.frames_index
      → (s' : Mmu) × ((mmu_mmap fuel (at * 4096) (frame * 4096) size flag s ≡ ok (true, s'))
          × IsOwned kend s')
  unfolding mmu_mmap
  mmu_mmap-IsOwned fuel s enough w o left =
      mmap_from-IsOwned fuel 0 s (omega arith) (omega arith) w o (omega arith)
