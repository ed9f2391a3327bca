-- ===== src/Mmu/Tables.antt =====
-- The page tables of kernel/arch/i686/mmu.c: which pages are mapped, and how the table of a page comes
-- to be there.
use osdev_course.Common.{
  ℕ, ◌-◌, ◌/◌, ◌%◌, ◌<◌, ◌≤◌, ◌≡◌, ◌≢◌, ◌⊎◌, inl, inr, Bool-cases, bit_and, bit_or, bit_or-one,
  ◌==◌, if◌then◌else◌, arith, ok,
}
use osdev_course.Mmu.{
  Mmu, tables, table_of, prot_present, mmu_alloc, zero_page, share_entry, serve_page, page_fault,
  touch, demand_table,
}
use osdev_course.Mmu.Masks.{and-present, and-ondemand, and-either}

abbrev pub IsPresent : ℕ → Type 0
IsPresent e = e % 2 ≡ 1

-- A page has a frame when its table is there and its entry is present.
pub record IsMapped (s : Mmu) (page : ℕ) : Type 0 where
  pub table : IsPresent (s.entry (table_of page))
  pub here : IsPresent (s.entry page)

pub IsMapped-cases : (s : Mmu) (p : ℕ) → IsMapped s p ⊎ ¬ IsMapped s p
IsMapped-cases s p = elim (Bool-cases (s.entry (table_of p) % 2 == 1)) [
  | inl t ↦ elim (Bool-cases (s.entry p % 2 == 1)) [
    | inl h ↦ inl (record { table = ground arith; here = ground arith })
    | inr n ↦ inr (λ m. ground (arith, m.here))
  ]
  | inr n ↦ inr (λ m. ground (arith, m.table))
]

-- The frame's number.
abbrev pub frame_at : Mmu → ℕ → ℕ
frame_at s page = s.entry page / 4096

-- The state in which the table of a page is there.
unfoldable pub ready : ℕ → Mmu → Mmu
unfolding demand_table serve_page
ready page s =
    let d = demand_table page s in
    if bit_and (d.entry (table_of page)) prot_present == 0 then serve_page (table_of page) d else d

pub touch-ready : (page : ℕ) (s : Mmu) → touch page (demand_table page s) ≡ ok (ready page s)
unfolding touch demand_table page_fault ready
touch-ready page s =
    let e = s.entry (table_of page) in
    ground
      (arith, and-present e, and-ondemand e, and-either e, and-present 0x106, and-ondemand 0x106)

-- The words of the entries after a page fault.
pub serve_page-entry_table :
    (table : ℕ) (s : Mmu)
    → tables ≤ table
    → (p : ℕ)
    → (serve_page table s).entry p ≡ (
        if p / 1024 == table - tables
        then 0
        else if p == table
        then bit_or (bit_or (mmu_alloc s).0 (bit_and (s.entry table) 6)) 1
        else s.entry p)
unfolding serve_page mmu_alloc zero_page share_entry
serve_page-entry_table table s le p = ground arith

-- The entries of the pages that are not tables: those of a new table are zero.
pub ready-entry :
    (page : ℕ) (s : Mmu) (p : ℕ)
    → page < tables
    → p < tables
    → (ready page s).entry p ≡ (
        if s.entry (table_of page) % 2 == 0
        then (if p / 1024 == page / 1024 then 0 else s.entry p)
        else s.entry p)
unfolding ready demand_table
ready-entry page s p lt lp =
    let t = table_of page in
    let d = demand_table page s in
    ground (
      arith,
      and-present (s.entry t),
      and-either (s.entry t),
      and-present 0x106,
      serve_page-entry_table t d (omega arith) p,
    )

-- The directory's words: the one that leads to the page's table is present, and no other changes.
pub ready-table :
    (page : ℕ) (s : Mmu) → page < tables → IsPresent ((ready page s).entry (table_of page))
unfolding ready demand_table
ready-table page s lt =
    let t = table_of page in
    let d = demand_table page s in
    ground (
      arith,
      and-present (s.entry t),
      and-either (s.entry t),
      and-present 0x106,
      serve_page-entry_table t d (omega arith) t,
      bit_or-one (bit_or (mmu_alloc d).0 (bit_and (d.entry t) 6)),
    )

pub ready-others :
    (page : ℕ) (s : Mmu) (q : ℕ)
    → page < tables
    → tables ≤ q
    → q ≢ table_of page
    → (ready page s).entry q ≡ s.entry q
unfolding ready demand_table
ready-others page s q lt le ne =
    let t = table_of page in
    let d = demand_table page s in
    ground (
      arith,
      and-present (s.entry t),
      and-either (s.entry t),
      and-present 0x106,
      serve_page-entry_table t d (omega arith) q,
    )

pub ready-present : (page : ℕ) (s : Mmu) → IsPresent (s.entry (table_of page)) → ready page s ≡ s
unfolding ready demand_table
ready-present page s h =
    let t = table_of page in ground (arith, and-present (s.entry t), and-either (s.entry t))
