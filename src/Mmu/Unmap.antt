-- ===== src/Mmu/Unmap.antt =====
-- The loop of `mmu_munmap` in kernel/arch/i686/mmu.c.
use osdev_course.Common.{
  ℕ, zero, suc, ◌+◌, ◌*◌, ◌/◌, ◌%◌, ◌^◌, ◌<◌, ◌≤◌, ◌≡◌, ◌≢◌, ◌⊎◌, inl, inr, refl, ◌∙◌, ap, true,
  bit_and, ◌==◌, if◌then◌else◌, arith, ok, update, Bool-cases, lt→ltb, add32,
}
use osdev_course.Mmu.{
  Mmu, tables, table_of, page_of, mmu_free, put_back, framepool_vma, unmark, touch, munmap_from,
  mmu_munmap,
}
use osdev_course.Mmu.Masks.{and-present, and-frame}
use osdev_course.Mmu.Tables.{IsPresent, IsMapped, frame_at}
use osdev_course.Mmu.Map.{pages}
use osdev_course.Mmu.Pool.{read_page-mapped}
use osdev_course.Mmu.Owner.{IsOwned}
use osdev_course.Mmu.Release.{IsOwned-update, put_back-IsOwned}

-- Whether `mmu_munmap` gives the frame of a page back.
abbrev pub gives : (flag e : ℕ) → ℕ
gives flag e =
    if e % 2 == 0 then 0 else if flag % 2 == 0 then (if e / 4096 == 0 then 0 else 1) else 0

-- How many frames `n` pages give back.
abbrev pub given : (flag from n : ℕ) → Mmu → ℕ
given flag from zero s = 0
given flag from (suc n) s = gives flag (s.entry from) + given flag (from + 1) n s

pub given-same :
    (flag from n : ℕ) (s s' : Mmu)
    → ((p : ℕ) → from ≤ p → p < from + n → s'.entry p ≡ s.entry p)
    → given flag from n s' ≡ given flag from n s
given-same flag from zero s s' same = refl
given-same flag from (suc n) s s' same =
    let rest = given-same flag (from + 1) n s s' (λ p a b. same p (omega arith) (omega arith)) in
    rw (same from (omega arith) (omega arith), rest) refl

-- One page, whose frame the pool has room for.
abbrev pub unmarked : (page flag : ℕ) → Mmu → Mmu
unmarked page flag s =
    let cleared = record s { entry = update s.entry page 0 } in
    if gives flag (s.entry page) == 0
    then cleared
    else put_back s.frames_index (s.entry page / 4096 * 4096) cleared

-- The next word of the stack is in the pool, and its page is there.
pub record HasRoom (index : ℕ) (s : Mmu) : Type 0 where
  pub small : index < 2 ^ 20
  pub mapped : IsMapped s (0xFF800 + index / 1024)

mmu_free-put_back :
    (f : ℕ) (s : Mmu) → HasRoom s.frames_index s → mmu_free f s ≡ ok (put_back s.frames_index f s)
unfolding mmu_free
mmu_free-put_back f s room =
    let at = s.frames_index in
    let small = room.small in
    let page : page_of (add32 framepool_vma (at * 4)) ≡ 0xFF800 + at / 1024 = omega arith in
    rw (lt→ltb at (2 ^ 20) small, page, read_page-mapped (0xFF800 + at / 1024) s room.mapped) refl

unmark_lem :
    (page flag : ℕ) (s : Mmu)
    → s.entry page < 2 ^ 32
    → page < 0xFF800
    → (gives flag (s.entry page) ≡ 1 → HasRoom s.frames_index s)
    → unmark page flag s ≡ ok (unmarked page flag s)
unfolding unmark
unmark_lem page flag s w low room =
    let e = s.entry page in
    let f : bit_and e 0xFFFFF000 ≡ e / 4096 * 4096 = and-frame e w in
    let cleared = record s { entry = update s.entry page 0 } in
    elim (Bool-cases (gives flag e == 0)) [
      | inl b ↦ ground (arith, and-present e, and-present flag, f)
      | inr b ↦
          let r = room (ground arith) in
          let small = r.small in
          let kept : HasRoom s.frames_index cleared = record {
            small = small;
            mapped = record {
              table = ground (arith, r.mapped.table);
              here = ground (arith, r.mapped.here);
            };
          } in
          let freed =
            ap (λ f. mmu_free f cleared) f ∙ mmu_free-put_back (e / 4096 * 4096) cleared kept in
          ground (arith, and-present e, and-present flag, f, freed)
    ]

pub unmarked-entry :
    (page flag : ℕ) (s : Mmu) (p : ℕ)
    → (unmarked page flag s).entry p ≡ (if p == page then 0 else s.entry p)
unmarked-entry page flag s p = ground arith

pub unmarked-frames :
    (page flag : ℕ) (s : Mmu)
    → s.frames_index + gives flag (s.entry page) < 2 ^ 32
    → (unmarked page flag s).frames_index ≡ s.frames_index + gives flag (s.entry page)
unmarked-frames page flag s room = ground (arith, room)

pub unmarked-IsOwned :
    (kend page flag : ℕ) (s : Mmu)
    → page < tables
    → s.frames_index + gives flag (s.entry page) < 2 ^ 32
    → IsPresent (s.entry (table_of page))
    → (IsMapped s page → kend ≤ frame_at s page * 4096)
    → IsOwned kend s
    → IsOwned kend (unmarked page flag s)
unmarked-IsOwned kend page flag s lt room t own o =
    let e = s.entry page in
    let cleared = record s { entry = update s.entry page 0 } in
    let oc : IsOwned kend cleared =
      IsOwned-update kend s page 0 o (omega arith) (omega arith) (inl refl) in
    elim (Bool-cases (gives flag e == 0)) [
      | inl b ↦ rw (b) oc
      | inr b ↦
          let mapped : IsMapped s page = record { table = t; here = ground arith } in
          rw (b) (
            put_back-IsOwned kend cleared (e / 4096) oc (own mapped) (ground arith)
              (λ i li. o.unused i page li (omega arith) mapped)
              (λ p lp m h.
                let old : IsMapped s p = record {
                  table = ground (arith, m.table);
                  here = ground (arith, m.here);
                } in
                let same : frame_at s page ≡ frame_at s p = ground (arith, h, m.here) in
                ground
                  (arith, m.here, o.once page p (omega arith) lp mapped old (own mapped) same)))
    ]

-- What `mmu_munmap` promises for the pages from `from` up to `from + n`.
pub record IsReleased (flag from n : ℕ) (s s' : Mmu) : Type 0 where
  pub cleared : (p : ℕ) → from ≤ p → p < from + n → s'.entry p ≡ 0
  pub others : (p : ℕ) → (p < from) ⊎ (from + n ≤ p) → s'.entry p ≡ s.entry p
  pub returned : s'.frames_index ≡ s.frames_index + given flag from n s
  -- A frame of the kernel's image is not to be given back.
  pub owned :
      (kend : ℕ)
      → ((p : ℕ) → from ≤ p → p < from + n → IsMapped s p → kend ≤ frame_at s p * 4096)
      → IsOwned kend s
      → IsOwned kend s'

-- The pages are below the pool and in tables that are there, their entries are words, and the pool
-- has pages for the frames that they give back.
pub record IsRange (flag from n : ℕ) (s : Mmu) : Type 0 where
  pub fits : from + n ≤ 0xFF800
  pub present : (p : ℕ) → from ≤ p → p < from + n → IsPresent (s.entry (table_of p))
  pub words : (p : ℕ) → from ≤ p → p < from + n → s.entry p < 2 ^ 32
  pub index : s.frames_index + 1 < 2 ^ 32
  pub room : (i : ℕ) → s.frames_index ≤ i → i < s.frames_index + given flag from n s → HasRoom i s

munmap_from-done :
    (fuel mem size flag off : ℕ) (s : Mmu)
    → size ≤ off
    → munmap_from (suc fuel) mem size flag off s ≡ ok (true, s)
unfolding munmap_from
munmap_from-done fuel mem size flag off s h = ground arith

touch-present : (page : ℕ) (s : Mmu) → IsPresent (s.entry (table_of page)) → touch page s ≡ ok s
unfolding touch
touch-present page s t = ground (arith, and-present (s.entry (table_of page)), t)

munmap_from-step :
    (fuel mem size flag off page : ℕ) (s s1 : Mmu)
    → off < size
    → page_of (add32 mem off) ≡ page
    → IsPresent (s.entry (table_of page))
    → unmark page flag s ≡ ok s1
    → munmap_from (suc fuel) mem size flag off s
      ≡ munmap_from fuel mem size flag (add32 off 4096) s1
unfolding munmap_from
munmap_from-step fuel mem size flag off page s s1 h e t u =
    rw (e, lt→ltb off size h, touch-present page s t, u) refl

module _ (flag from n : ℕ) (s : Mmu) (range : IsRange flag from (suc n) s) where
  first_room : gives flag (s.entry from) ≡ 1 → HasRoom s.frames_index s
  first_room g = range.room s.frames_index (omega arith) (omega (arith, g))

  unmark-first : unmark from flag s ≡ ok (unmarked from flag s)
  unmark-first =
      unmark_lem from flag s (range.words from (omega arith) (omega arith))
        (omega (arith, range.fits)) first_room

  grown : (unmarked from flag s).frames_index ≡ s.frames_index + gives flag (s.entry from)
  grown = elim (Bool-cases (gives flag (s.entry from) == 0)) [
    | inl b ↦ ground arith
    | inr b ↦ let small = (first_room (ground arith)).small in ground (arith, small)
  ]

  rest_given : given flag (from + 1) n (unmarked from flag s) ≡ given flag (from + 1) n s
  rest_given =
      given-same flag (from + 1) n s (unmarked from flag s)
        (λ p a b. ground (arith, unmarked-entry from flag s p))

  unmarked-HasRoom : (i : ℕ) → HasRoom i s → HasRoom i (unmarked from flag s)
  unmarked-HasRoom i r =
      let small = r.small in
      record {
        small = small;
        mapped = record {
          table = ground (
            arith,
            r.mapped.table,
            range.fits,
            unmarked-entry from flag s (table_of (0xFF800 + i / 1024)),
          );
          here =
              ground
                (arith, r.mapped.here, range.fits, unmarked-entry from flag s (0xFF800 + i / 1024));
        };
      }

  unmark-IsRange : IsRange flag (from + 1) n (unmarked from flag s)
  unmark-IsRange = record {
    fits = omega (arith, range.fits);
    present = λ p a b. ground (
      arith,
      range.fits,
      range.present p (omega arith) (omega arith),
      unmarked-entry from flag s (table_of p),
    );
    words = λ p a b.
        ground (arith, range.words p (omega arith) (omega arith), unmarked-entry from flag s p);
    index = elim (Bool-cases (gives flag (s.entry from) == 0)) [
      | inl b ↦
          let none : gives flag (s.entry from) ≡ 0 = ground arith in
          omega (arith, range.index, grown, none)
      | inr b ↦ let small = (first_room (ground arith)).small in ground (arith, small, grown)
    ];
    room = λ i a b.
        unmarked-HasRoom i
          (range.room i (omega (arith, a, grown)) (omega (arith, b, grown, rest_given)));
  }

  count_small : s.frames_index + gives flag (s.entry from) < 2 ^ 32
  count_small = let small = range.index in ground (arith, small)

  unmarked-IsMapped :
      (p : ℕ)
      → p ≢ from
      → IsMapped (unmarked from flag s) p
      → IsMapped s p × (frame_at (unmarked from flag s) p ≡ frame_at s p)
  unmarked-IsMapped p ne m = (
    record {
      table = ground (arith, m.table, range.fits, unmarked-entry from flag s (table_of p));
      here = ground (arith, m.here, unmarked-entry from flag s p);
    },
    ground (arith, unmarked-entry from flag s p),
  )

  unmark-IsReleased :
      (s' : Mmu)
      → IsReleased flag (from + 1) n (unmarked from flag s) s'
      → IsReleased flag from (suc n) s s'
  unmark-IsReleased s' r = record {
    cleared = λ p a b. elim (Bool-cases (p == from)) [
      | inl e ↦ ground (arith, r.others p, unmarked-entry from flag s p)
      | inr ne ↦ r.cleared p (ground arith) (ground arith)
    ];
    others = λ p out. ground (arith, out, r.others p, unmarked-entry from flag s p);
    returned = omega (arith, r.returned, grown, rest_given);
    owned = λ kend own o.
        r.owned kend
          (λ p a b m.
            let (old, same) = unmarked-IsMapped p (omega arith) m in
            rw (same) (own p (omega arith) (omega arith) old))
          (unmarked-IsOwned kend from flag s (omega (arith, range.fits)) count_small
            (range.present from (omega arith) (omega arith))
            (λ m. own from (omega arith) (omega arith) m) o);
  }

munmap_from-IsReleased :
    (fuel n from at k size flag : ℕ) (s : Mmu)
    → from ≡ at + k
    → k + n ≡ pages size
    → n < fuel
    → IsRange flag from n s
    → (s' : Mmu) × ((munmap_from fuel (at * 4096) size flag (k * 4096) s ≡ ok (true, s'))
        × IsReleased flag from n s s')
munmap_from-IsReleased zero n from at k size flag s start whole enough range = absurd (omega arith)
munmap_from-IsReleased (suc fuel) zero from at k size flag s start whole enough range = (
  s,
  (
    munmap_from-done fuel (at * 4096) size flag (k * 4096) s (omega arith),
    record {
      cleared = λ p a b. absurd (omega arith);
      others = λ p out. refl;
      returned = omega arith;
      owned = λ kend own o. o;
    },
  ),
)
munmap_from-IsReleased (suc fuel) (suc n) from at k size flag s start whole enough range =
    let next : add32 (k * 4096) 4096 ≡ (k + 1) * 4096 = omega (arith, range.fits) in
    let here : page_of (add32 (at * 4096) (k * 4096)) ≡ from = omega (arith, range.fits) in
    let step =
      munmap_from-step fuel (at * 4096) size flag (k * 4096) from s (unmarked from flag s)
        (omega arith) here (range.present from (omega arith) (omega arith))
        (unmark-first flag from n s range) in
    let (s', (e, r)) =
      munmap_from-IsReleased fuel n (from + 1) at (k + 1) size flag (unmarked from flag s)
        (omega arith) (omega arith) (omega arith) (unmark-IsRange flag from n s range) in
    (
      s',
      (
        step
            ∙ ap (λ off. munmap_from fuel (at * 4096) size flag off (unmarked from flag s)) next
            ∙ e,
        unmark-IsReleased flag from n s range s' r,
      ),
    )

-- For a range of pages below the pool of frames, in tables that are there, with entries that are
-- words and pages of the pool for the frames that go back, mmu_munmap ends with more fuel than
-- pages. The entries of the range are zero and no other one changes; the stack grows by one for
-- each page that had a frame other than 0, or not at all if nothing is to be released; and if
-- every frame from the end of the kernel's image on had one owner at most, and no page of the
-- range shows that image, it still has. The index stays below 2^32.
pub mmu_munmap-IsReleased :
    (fuel at size flag : ℕ) (s : Mmu)
    → pages size < fuel
    → IsRange flag at (pages size) s
    → (s' : Mmu) × ((mmu_munmap fuel (at * 4096) size flag s ≡ ok (true, s'))
        × IsReleased flag at (pages size) s s')
unfolding mmu_munmap
mmu_munmap-IsReleased fuel at size flag s enough range =
    munmap_from-IsReleased fuel (pages size) at at 0 size flag s (omega arith) (omega arith) enough
      range
