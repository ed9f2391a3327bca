-- ===== src/Vfs/Find.antt =====
-- The entry of kernel/vfs.cpp that a name leads to.
use osdev_course.Common.{
  ℕ, ◌+◌, ◌*◌, ◌^◌, ◌<◌, ◌≤◌, ◌≡◌, refl, ◌∙◌, ◌↔◌, ◌⊎◌, inl, inr, Bool, true, false, ◌&&◌, Option,
  none, some, List, [], ◌∷◌, ◌++◌, arith, ◌==◌, leb, if◌then◌else◌, length, ok, Bool-cases,
}
use osdev_course.Kstring.{Memory, kstrncmp}
use osdev_course.Kstring.Text.{IsString, take}
use osdev_course.Kstring.Compare.{kstrncmp-zero}
use osdev_course.Kstring.Copy.{Apart, kstrncpy-copies}
use osdev_course.Vfs.{Entry, mount, find, call}

abbrev pub begins : List ℕ → List ℕ → Bool
begins [] name = true
begins (c ∷ cs) [] = false
begins (c ∷ cs) (d ∷ ds) = (c == d) && begins cs ds

begins_iff :
    (cs name : List ℕ) → (begins cs name ≡ true) ↔ (take (length cs) cs ≡ take (length cs) name)
begins_iff [] name = (λ e. refl, λ e. refl)
begins_iff (c ∷ cs) [] = (λ e. cc, λ e. cc)
begins_iff (c ∷ cs) (d ∷ ds) =
    let (to, from) = begins_iff cs ds in
    (
      λ e.
          let head : c ≡ d = ground arith in
          let tail : take (length cs) cs ≡ take (length cs) ds = to (ground arith) in cc,
      λ e. let head : c ≡ d = cc in let tail = from cc in ground arith,
    )

not_zero :
    (d : ℕ) (path name : List ℕ)
    → (d ≡ 0 → take (length path) path ≡ take (length path) name)
    → begins path name ≡ false
    → (d == 0) ≡ false
not_zero d path name same other = elim (Bool-cases (d == 0)) [
  | inl e ↦ absurd (let starts = (begins_iff path name).1 (same (ground arith)) in cc)
  | inr e ↦ e
]

-- The entries with their paths.
abbrev pub Mounts : Type 0 → Type 0
Mounts F = List (Entry F × List ℕ)

module _ {F : Type 0} where
  abbrev pub entries_of : Mounts F → List (Entry F)
  entries_of [] = []
  entries_of ((entry, path) ∷ ms) = entry ∷ entries_of ms

  -- Each entry's path stands in memory with its length.
  abbrev pub AreMounted : ℕ → Memory → Mounts F → Type 0
  AreMounted fuel m [] = Unit
  AreMounted fuel m ((entry, path) ∷ ms) =
      IsString m entry.path path
      × (entry.path_len ≡ length path)
      × (length path < fuel)
      × (length path < 2 ^ 32)
      × AreMounted fuel m ms

  -- The first entry whose path begins the name.
  abbrev pub first_mount : List ℕ → Mounts F → Option (Entry F)
  first_mount name [] = none
  first_mount name ((entry, path) ∷ ms) =
      if begins path name then some entry else first_mount name ms

  find-cons :
      (fuel filename d : ℕ) (entry : Entry F) (entries : List (Entry F)) (m : Memory)
      → kstrncmp fuel entry.path filename entry.path_len m ≡ ok d
      → find fuel filename (entry ∷ entries) m
        ≡ (if d == 0 then ok (some entry) else find fuel filename entries m)
  unfolding find
  find-cons fuel filename d entry entries m e = rw e refl

  find-first_mount :
      (fuel filename : ℕ) (m : Memory) (name : List ℕ) (ms : Mounts F)
      → AreMounted fuel m ms
      → IsString m filename name
      → find fuel filename (entries_of ms) m ≡ ok (first_mount name ms)
  unfolding find
  find-first_mount fuel filename m name [] v str = refl
  find-first_mount fuel filename m name ((entry, path) ∷ ms) v str =
      let (d, compared, iff) =
        kstrncmp-zero fuel entry.path filename entry.path_len m path name v.2 (rw v.1 v.3) v.0
          str in
      let step = find-cons fuel filename d entry (entries_of ms) m compared in
      let rest = find-first_mount fuel filename m name ms v.4 str in
      elim (Bool-cases (begins path name)) [
        | inl starts ↦
            let zero_d : d ≡ 0 = iff.1 (rw v.1 ((begins_iff path name).0 starts)) in
            let set : (d == 0) ≡ true = ground arith in step ∙ rw (set, starts) refl
        | inr other ↦
            let set : (d == 0) ≡ false = not_zero d path name (λ e. rw v.1 at (iff.0 e)) other in
            step ∙ rw (set, other) rest
      ]

  -- Where the entries hold their paths and the lengths of these, below 2^32, a call on a name goes
  -- to the first entry whose path begins the name, with the rest of the name, and fails if there
  -- is none. It ends if the fuel is more than the bytes of each path.
  pub call-first_mount :
      {R : Type 0} (operation : F → ℕ → R) (failed : R) (fuel filename : ℕ) (m : Memory)
      (name : List ℕ) (ms : Mounts F)
      → AreMounted fuel m ms
      → IsString m filename name
      → call operation failed fuel filename (entries_of ms) m
        ≡ ok (elim (first_mount name ms) [
          | none ↦ failed
          | some entry ↦ operation entry.fs (filename + entry.path_len)
        ])
  unfolding call
  call-first_mount operation failed fuel filename m name ms v str =
      rw (find-first_mount fuel filename m name ms v str) refl

  -- mount with fewer than 64 entries and at least 256 fuel succeeds: a new entry is last, with as
  -- much of the path as 255 bytes hold and its length, and no byte outside the entry's path
  -- changes. With 64 entries it fails and changes nothing. The path is apart from the new entry.
  pub mount-entry :
      (fuel base mount_point : ℕ) (fs : F) (entries : List (Entry F)) (m : Memory) (path : List ℕ)
      → 256 ≤ fuel
      → IsString m mount_point path
      → Apart (base + 264 * length entries) 256 mount_point (length path + 1)
      → (64 ≤ length entries → mount fuel base mount_point fs entries m ≡ ok (false, entries, m))
        × (length entries < 64
            → (entry : Entry F) × (m' : Memory) × (mount fuel base mount_point fs entries m
                ≡ ok (true, entries ++ entry ∷ [], m'))
              × (entry.fs ≡ fs)
              × (entry.path_len ≡ length (take 255 path))
              × IsString m' entry.path (take 255 path)
              × ((z : ℕ)
                  → (z < base + 264 * length entries) ⊎ (base + 264 * length entries + 256 ≤ z)
                  → m' z ≡ m z))
  unfolding mount
  mount-entry fuel base mount_point fs entries m path h str apart =
      let at = base + 264 * length entries in
      let (n, m', run, len, copied, rest) =
        kstrncpy-copies fuel at mount_point 256 m path h (omega arith) (omega arith) str apart in
      (
        λ full. let out : leb 64 (length entries) ≡ true = ground arith in rw out refl,
        λ room.
            let out : leb 64 (length entries) ≡ false = ground arith in
            (
              record { path = at; path_len = n; fs = fs },
              m',
              rw (out, run) refl,
              refl,
              len,
              copied,
              rest,
            ),
      )
