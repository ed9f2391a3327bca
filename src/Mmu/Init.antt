-- ===== src/Mmu/Init.antt =====
-- `mmu_init` of kernel/arch/i686/mmu.c: the frames that the boot loader's map calls available.
use osdev_course.Common.{
  ℕ, ◌+◌, ◌*◌, ◌/◌, ◌%◌, ◌^◌, ◌<◌, ◌≤◌, ◌≡◌, ◌⊎◌, inl, inr, refl, true, false, List, [], ◌∷◌, ◌==◌,
  if◌then◌else◌, arith, ok, Bool-cases, add32, add64, shl64, shr,
}
use osdev_course.Mmu.{Mmu, MmapEntry, tables, add_range, add_ranges, install, mmu_init, mmu_vma2pma}
use osdev_course.Mmu.Tables.{IsPresent}
use osdev_course.Mmu.Map.{IsWords}
use osdev_course.Mmu.Pool.{IsPool, Holds}
use osdev_course.Mmu.Range.{IsAdded, frames_below, add_range-IsAdded}

-- The first whole page of an entry, and the one behind its last.
abbrev pub first_page : MmapEntry → ℕ
first_page m = add64 m.addr 4095 / 4096

abbrev pub end_page : MmapEntry → ℕ
end_page m = add64 m.addr m.len / 4096

-- A page that the map calls available.
abbrev pub IsAvailable : List MmapEntry → ℕ → Type 0
IsAvailable [] x = ⊥
IsAvailable (m ∷ map) x = ((m.kind ≡ 1) × (first_page m ≤ x) × (x < end_page m)) ⊎ IsAvailable map x

-- The frames below 4 GiB that the map calls available.
abbrev pub available : List MmapEntry → ℕ
available [] = 0
available (m ∷ map) =
    (if m.kind == 1 then frames_below (first_page m) (end_page m) else 0) + available map

module _ (P : ℕ → Type 0) (P-frame : (x : ℕ) → P x → (x % 4096 ≡ 0) × (x < 2 ^ 32)) (kend : ℕ) where
  pub record IsFilled (map : List MmapEntry) (s s' : Mmu) : Type 0 where
    pub pool : IsPool P s'
    pub keeps : (x : ℕ) → Holds s x → Holds s' x
    pub new : (x : ℕ) → IsAvailable map x → kend ≤ x * 4096 → x < 2 ^ 20 → Holds s' (x * 4096)

  abbrev Fills : (fuel : ℕ) → List MmapEntry → (pt : ℕ) → Mmu → Type 0
  Fills fuel map pt s =
      (pt' : ℕ) × (s' : Mmu) × ((add_ranges fuel kend map pt s ≡ ok (pt', s')) × IsFilled map s s')

  other-Fills :
      (fuel : ℕ) (m : MmapEntry) (map : List MmapEntry) (pt : ℕ) (s : Mmu)
      → (m.kind == 1) ≡ false
      → Fills fuel map pt s
      → Fills fuel (m ∷ map) pt s
  unfolding add_ranges
  other-Fills fuel m map pt s kind (pt', s', (e, r)) = (
    pt',
    s',
    (
      rw (kind) e,
      record {
        pool = r.pool;
        keeps = r.keeps;
        new = λ x a k w. elim a [
          | inl here ↦ absurd (ground (arith, here.0))
          | inr later ↦ r.new x later k w
        ];
      },
    ),
  )

  range-Fills :
      (fuel : ℕ) (m : MmapEntry) (map : List MmapEntry) (pt pt1 : ℕ) (s s1 : Mmu)
      → (m.kind == 1) ≡ true
      → add_range fuel kend (first_page m * 4096) (end_page m * 4096) pt s ≡ ok (pt1, s1)
      → IsAdded P P-frame kend (first_page m) (end_page m) s s1
      → Fills fuel map pt1 s1
      → Fills fuel (m ∷ map) pt s
  unfolding add_ranges
  range-Fills fuel m map pt pt1 s s1 kind e a (pt', s', (e', r)) =
      let start : shl64 (shr (add64 m.addr 4095) 12) 12 ≡ first_page m * 4096 = omega arith in
      let end : shl64 (shr (add64 m.addr m.len) 12) 12 ≡ end_page m * 4096 = omega arith in
      (
        pt',
        s',
        (
          rw (kind, start, end, e) e',
          record {
            pool = r.pool;
            keeps = λ x h. r.keeps x (a.keeps x h);
            new = λ x v k w. elim v [
              | inl (_, low, high) ↦
                  r.keeps (x * 4096)
                    (a.new x (record { lower = low; upper = high; kernel = k; word = w }))
              | inr later ↦ r.new x later k w
            ];
          },
        ),
      )

  add_ranges-IsFilled :
      (fuel : ℕ) (map : List MmapEntry) (pt : ℕ) (s : Mmu)
      → 2 ^ 52 ≤ fuel
      → s.frames_index + available map ≤ 2 ^ 20
      → ((x : ℕ) → IsAvailable map x → kend ≤ x * 4096 → x < 2 ^ 20 → P (x * 4096))
      → IsPool P s
      → Fills fuel map pt s
  unfolding add_ranges
  add_ranges-IsFilled fuel [] pt s enough room ps p =
      (pt, s, (refl, record { pool = p; keeps = λ x h. h; new = λ x a. absurd a }))
  add_ranges-IsFilled fuel (m ∷ map) pt s enough room ps p = elim (Bool-cases (m.kind == 1)) [
    | inr other ↦
        other-Fills fuel m map pt s other
          (add_ranges-IsFilled fuel map pt s enough (ground arith) (λ x a. ps x (inr a)) p)
    | inl kind ↦
        let (pt1, s1, (e, a)) =
          add_range-IsAdded P P-frame kend fuel (first_page m) (end_page m) pt s (omega arith)
            (omega arith) (ground arith)
            (λ x u. ps x (inl (ground arith, u.lower, u.upper)) u.kernel u.word) p in
        range-Fills fuel m map pt pt1 s s1 kind e a (
          add_ranges-IsFilled fuel map pt1 s1 enough (ground (arith, a.index)) (λ x v. ps x (inr v))
            a.pool)
  ]

-- A frame that `mmu_init` may hand out: available, below 4 GiB, and above the kernel.
pub record IsFrame (kend : ℕ) (map : List MmapEntry) (y : ℕ) : Type 0 where
  pub aligned : y % 4096 ≡ 0
  pub word : y < 2 ^ 32
  pub kernel : kend ≤ y
  pub available : IsAvailable map (y / 4096)

-- The pool after `mmu_init`.
pub record IsInitialised (kend : ℕ) (map : List MmapEntry) (s : Mmu) : Type 0 where
  pub sound : (i : ℕ) → i < s.frames_index → IsFrame kend map (s.frames i)
  pub complete : (x : ℕ) → IsAvailable map x → kend ≤ x * 4096 → x < 2 ^ 20 → Holds s (x * 4096)
  pub table : IsPresent (s.entry (tables + 1022))
  pub words : IsWords s

module _ (mmu_pd framepool_pt framepool_firstpage kernel_end : ℕ) where
  install-IsPool :
      (P : ℕ → Type 0) (s : Mmu)
      → framepool_pt % 4096 ≡ 0
      → IsWords s
      → IsPool P (install mmu_pd framepool_pt framepool_firstpage kernel_end s)
  unfolding install
  install-IsPool P s aligned w = record {
    all = λ i li. absurd (omega arith);
    table = ground (arith, aligned);
    words = λ p lp. ground (arith, w p lp);
  }

  -- For a map that calls at most 2^20 frames below 4 GiB available, mmu_init ends with 2^52 fuel.
  -- Each frame on the stack is aligned, below 4 GiB, not below the page behind the kernel's end,
  -- and available by the map; and each frame of which this holds stands on the stack, or holds a
  -- part of the stack itself. The pool's table is aligned, and the entries are words.
  pub mmu_init-IsInitialised :
      (fuel : ℕ) (map : List MmapEntry) (s : Mmu)
      → 2 ^ 52 ≤ fuel
      → framepool_pt % 4096 ≡ 0
      → IsWords s
      → available map ≤ 2 ^ 20
      → (s' : Mmu) × ((mmu_init mmu_pd framepool_pt framepool_firstpage kernel_end fuel map s
            ≡ ok (true, s'))
          × IsInitialised (add32 (mmu_vma2pma kernel_end) 4096) map s')
  unfolding mmu_init
  mmu_init-IsInitialised fuel map s enough aligned w room =
      let kend = add32 (mmu_vma2pma kernel_end) 4096 in
      let s0 = install mmu_pd framepool_pt framepool_firstpage kernel_end s in
      let (pt, s', (e, r)) =
        add_ranges-IsFilled (IsFrame kend map) (λ x f. (f.aligned, f.word)) kend fuel map 0 s0
          enough (omega (arith, room))
          (λ x a k lt.
            let e : x * 4096 / 4096 ≡ x = omega arith in
            record { aligned = omega arith; word = omega arith; kernel = k; available = rw (e) a })
          (install-IsPool (IsFrame kend map) s aligned w) in
      (
        s',
        (
          rw (e) refl,
          record {
            sound = r.pool.all;
            complete = r.new;
            table = r.pool.table;
            words = r.pool.words;
          },
        ),
      )
