-- ===== src/Mmu/Fault.antt =====
-- The page fault handler `INT_0E` of kernel/arch/i686/mmu.c.
use osdev_course.Common.{
  ℕ, ◌+◌, ◌-◌, ◌*◌, ◌/◌, ◌%◌, ◌^◌, ◌<◌, ◌≡◌, ◌≢◌, ◌↔◌, ◌⊎◌, inl, inr, ap, bit_and, bit_or, ◌==◌,
  leb, if◌then◌else◌, arith, ok, fault, Bool-cases,
}
use osdev_course.Mmu.{
  Mmu, tables, table_of, page_of, mmu_alloc, zero_page, share_entry, serve_page, page_fault, touch,
  int_0e,
}
use osdev_course.Mmu.Masks.{and-present, and-ondemand, or-map}
use osdev_course.Mmu.Tables.{IsPresent}

-- The entries, the stack and memory after a page fault.
pub serve_page-entry :
    (page : ℕ) (s : Mmu) (p : ℕ)
    → (serve_page page s).entry p ≡ (
        if leb tables page
        then (if p / 1024 == page - tables
            then 0
            else if p == page
            then bit_or (bit_or (mmu_alloc s).0 (bit_and (s.entry page) 6)) 1
            else s.entry p)
        else if p == page
        then bit_or (bit_or (mmu_alloc s).0 (bit_and (s.entry page) 6)) 1
        else s.entry p)
unfolding serve_page mmu_alloc zero_page share_entry
serve_page-entry page s p = ground arith

pub serve_page-frames :
    (page : ℕ) (s : Mmu)
    → ((serve_page page s).frames ≡ s.frames)
      × ((serve_page page s).frames_index ≡ s.frames_index - 1)
unfolding serve_page mmu_alloc zero_page share_entry
serve_page-frames page s = (ground arith, ground arith)

pub serve_page-memory :
    (page : ℕ) (s : Mmu) (a : ℕ)
    → page < tables
    → (serve_page page s).memory a ≡ (if a / 4096 == page then 0 else s.memory a)
unfolding serve_page mmu_alloc zero_page share_entry
serve_page-memory page s a lt = ground arith

pub mmu_alloc-top :
    (s : Mmu)
    → 0 < s.frames_index
    → mmu_alloc s ≡ (s.frames (s.frames_index - 1), record s { frames_index = s.frames_index - 1 })
unfolding mmu_alloc
mmu_alloc-top s h = ground arith

pub mmu_alloc-empty : (s : Mmu) → s.frames_index ≡ 0 → mmu_alloc s ≡ (0, s)
unfolding mmu_alloc
mmu_alloc-empty s h = ground arith

-- The entry that a fault leaves on its page, for an aligned frame.
pub serve_page-page :
    (page : ℕ) (s : Mmu)
    → page < 2 ^ 20
    → page ≢ tables + 1023
    → (mmu_alloc s).0 % 4096 ≡ 0
    → (serve_page page s).entry page ≡ (mmu_alloc s).0 + s.entry page / 2 % 4 * 2 + 1
serve_page-page page s small ne al =
    let f = (mmu_alloc s).0 in
    let g : f ≡ f / 4096 * 4096 = omega (arith, al) in
    let m = bit_and (s.entry page) 6 in
    ground (
      arith,
      g,
      serve_page-entry page s page,
      or-map (f / 4096) (s.entry page),
      ap (λ x. bit_or (bit_or x m) 1) g,
    )

int_0e_lem :
    (code addr : ℕ) (s : Mmu)
    → IsPresent (s.entry (table_of (page_of addr)))
    → int_0e code addr s ≡ (
        if code % 2 == 0
        then (if s.entry (page_of addr) / 256 % 2 == 0
            then fault
            else ok (serve_page (page_of addr) s))
        else fault)
unfolding int_0e touch page_fault
int_0e_lem code addr s t = ground (
  arith,
  t,
  and-present (s.entry (table_of (page_of addr))),
  and-present code,
  and-ondemand (s.entry (page_of addr)),
)

-- The handler halts exactly on a violation of a protection and on a page that is not there on
-- demand.
pub int_0e-halts :
    (code addr : ℕ) (s : Mmu)
    → IsPresent (s.entry (table_of (page_of addr)))
    → (int_0e code addr s ≡ fault) ↔ ((code % 2 ≡ 1) ⊎ (s.entry (page_of addr) / 256 % 2 ≡ 0))
int_0e-halts code addr s t = (
  λ e. elim (Bool-cases (code % 2 == 0)) [
    | inl c ↦ elim (Bool-cases (s.entry (page_of addr) / 256 % 2 == 0)) [
      | inl o ↦ inr (ground arith)
      | inr o ↦ absurd (ground (arith, int_0e_lem code addr s t, e))
    ]
    | inr c ↦ inl (ground arith)
  ],
  λ h. ground (arith, int_0e_lem code addr s t, h),
)

pub int_0e-serves :
    (code addr : ℕ) (s : Mmu)
    → IsPresent (s.entry (table_of (page_of addr)))
    → code % 2 ≡ 0
    → s.entry (page_of addr) / 256 % 2 ≡ 1
    → int_0e code addr s ≡ ok (serve_page (page_of addr) s)
int_0e-serves code addr s t c o = ground (arith, int_0e_lem code addr s t, c, o)
