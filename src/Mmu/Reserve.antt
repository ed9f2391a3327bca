-- ===== src/Mmu/Reserve.antt =====
-- `mmu_mmap` of kernel/arch/i686/mmu.c, where there is a free frame for each page table that it may
-- need. Without one the tables would share the frame at address 0.
use osdev_course.Common.{
  ℕ, ◌+◌, ◌*◌, ◌/◌, ◌%◌, ◌^◌, ◌<◌, ◌≤◌, ◌≡◌, Bool, ok, fault, out_of_fuel, Run, ap, sym, ◌∙◌,
}
use osdev_course.Mmu.{Mmu, mmu_mmap, tables}
use osdev_course.Mmu.Map.{IsWords, pages, IsReserved, mmu_mmap-reserves}
use osdev_course.Mmu.Owner.{IsOwned}
use osdev_course.Mmu.Demand.{mmu_mmap-IsOwned}

-- The state at the end of a run, or another one.
abbrev end_state : Run (Bool × Mmu) → Mmu → Mmu
end_state (ok (done, s)) other = s
end_state fault other = other
end_state out_of_fuel other = other

module _ (kend at frame size flag : ℕ) (fits : at + pages size ≤ tables)
    (below : frame + pages size ≤ 2 ^ 20) where
  -- Where every frame from the end of the kernel's image on has one owner at most and there are as
  -- many free frames as pages, for a range of pages below the page tables, frames below 4 GiB and
  -- entries that are words, mmu_mmap ends with more fuel than pages. It fails only if frames of
  -- its own are asked for; not if the pages are free. When it succeeds, each page of the range can
  -- be used with the protection asked for, and has the frame asked for, if one was. On success and
  -- on failure no page loses its frame, and no entry outside the range changes whose table was
  -- there. For pages on demand the frames still have one owner at most.
  pub mmu_mmap-IsReserved :
      (fuel : ℕ) (s : Mmu)
      → pages size < fuel
      → IsWords s
      → IsOwned kend s
      → pages size ≤ s.frames_index
      → (done : Bool) × (s' : Mmu) × ((mmu_mmap fuel (at * 4096) (frame * 4096) size flag s
            ≡ ok (done, s'))
          × IsReserved at frame at (at + pages size) flag s done s'
          × (flag / 512 % 2 ≡ 0 → IsOwned kend s'))
  mmu_mmap-IsReserved fuel s enough w o left =
      let (done, s', (e, r)) = mmu_mmap-reserves at frame size flag fits below fuel s enough w in
      (
        done,
        s',
        (
          e,
          r,
          λ demand.
              let (s2, (e2, o2)) =
                mmu_mmap-IsOwned kend at frame size flag fits below demand fuel s enough w o left in
              let same : s2 ≡ s' = ap (λ run. end_state run s) (sym e2 ∙ e) in rw same at o2,
        ),
      )
