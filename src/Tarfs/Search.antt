-- ===== src/Tarfs/Search.antt =====
-- The search of drivers/tarfs/tarfs.c for a file, against the list of an archive's files.
use osdev_course.Common.{
  ℕ, zero, suc, ◌+◌, ◌-◌, ◌*◌, ◌/◌, ◌^◌, ◌<◌, ◌≤◌, ◌≡◌, refl, ap, ◌∙◌, ◌≢◌, ◌↔◌, ◌⊎◌, inl, inr,
  Bool, true, false, ◌&&◌, Option, none, some, List, [], ◌∷◌, arith, ◌==◌, leb, ltb, if◌then◌else◌,
  length, add64, sub64, ok, Bool-cases,
}
use osdev_course.Kstring.{Memory, kstrcmp}
use osdev_course.Kstring.Text.{IsString, IsString-frame}
use osdev_course.Kstring.Compare.{kstrcmp-zero}
use osdev_course.Tarfs.{padded, filelen_field, find_file, tarfs_fstat, read_file, tarfs_read}
use osdev_course.Tarfs.Octal.{octal_value, AreDigits, oct2uint64-value}

-- A file of an archive: its name, and its length in octal digits.
pub record File : Type 0 where
  pub name : List ℕ
  pub digits : List ℕ

abbrev pub filelen : File → ℕ
filelen f = octal_value 0 f.digits

abbrev pub same_name : List ℕ → List ℕ → Bool
same_name [] [] = true
same_name [] (d ∷ ds) = false
same_name (c ∷ cs) [] = false
same_name (c ∷ cs) (d ∷ ds) = (c == d) && same_name cs ds

same_name_iff : (cs ds : List ℕ) → (same_name cs ds ≡ true) ↔ (cs ≡ ds)
same_name_iff [] [] = (λ e. refl, λ e. refl)
same_name_iff [] (d ∷ ds) = (λ e. cc, λ e. cc)
same_name_iff (c ∷ cs) [] = (λ e. cc, λ e. cc)
same_name_iff (c ∷ cs) (d ∷ ds) =
    let (to, from) = same_name_iff cs ds in
    (
      λ e. let head : c ≡ d = ground arith in let tail : cs ≡ ds = to (ground arith) in cc,
      λ e. let head : c ≡ d = cc in let tail = from cc in ground arith,
    )

-- The position and the length of the first file of a name; each file takes its header and its whole
-- blocks.
abbrev pub lookup : List ℕ → ℕ → List File → Option (ℕ × ℕ)
lookup name cursor [] = none
lookup name cursor (f ∷ fs) =
    if same_name f.name name
    then some (cursor, filelen f)
    else lookup name (cursor + (filelen f + 511) / 512 * 512 + 512) fs

different :
    (d : ℕ) (cs ds : List ℕ) → ((d ≡ 0) ↔ (cs ≡ ds)) → same_name cs ds ≡ false → (d == 0) ≡ false
different d cs ds iff other = elim (Bool-cases (d == 0)) [
  | inl e ↦ absurd (let same = (same_name_iff cs ds).1 (iff.0 (ground arith)) in cc)
  | inr e ↦ e
]

after_file :
    (cursor len : ℕ)
    → cursor + len + 1535 < 2 ^ 64
    → add64 (add64 cursor (padded len)) 512 ≡ cursor + (len + 511) / 512 * 512 + 512
after_file cursor len h = omega arith

module _ (disksize : ℕ) (read : (buf offset size : ℕ) → Memory → ℕ × Memory) (header : ℕ) where
  -- A read of the header at `cursor` puts the file's name and its length into the buffer, and changes
  -- no byte outside the buffer.
  pub record IsHeader (cursor : ℕ) (f : File) : Type 0 where
    pub got : (m : Memory) → (read header cursor 511 m).0 ≢ 0
    pub name : (m : Memory) → IsString (read header cursor 511 m).1 header f.name
    pub digits :
        (m : Memory) → IsString (read header cursor 511 m).1 (header + filelen_field) f.digits
    pub octal : AreDigits f.digits
    pub outside :
        (m : Memory) (z : ℕ)
        → (z < header) ⊎ (header + 511 ≤ z)
        → (read header cursor 511 m).1 z ≡ m z

  -- The files stand one behind the other up to the end of the disk.
  abbrev pub Archive : ℕ → List File → Type 0
  Archive cursor [] = disksize ≤ cursor
  Archive cursor (f ∷ fs) =
      (cursor < disksize)
      × (cursor + filelen f + 1535 < 2 ^ 64)
      × IsHeader cursor f
      × Archive (cursor + (filelen f + 511) / 512 * 512 + 512) fs

  -- More fuel than files, and than the bytes of each name and length.
  abbrev pub Enough : ℕ → List File → Type 0
  Enough fuel [] = 0 < fuel
  Enough zero (f ∷ fs) = ⊥
  Enough (suc fuel) (f ∷ fs) = (length f.name ≤ fuel) × (length f.digits ≤ fuel) × Enough fuel fs

  find_file-end :
      (fuel filename cursor : ℕ) (m : Memory)
      → disksize ≤ cursor
      → find_file disksize read (suc fuel) header filename cursor m ≡ ok (none, m)
  unfolding find_file
  find_file-end fuel filename cursor m h =
      let over : leb disksize cursor ≡ true = ground arith in rw over refl

  find_file-compare :
      (fuel filename cursor d : ℕ) (m : Memory) (f : File)
      → cursor < disksize
      → IsHeader cursor f
      → length f.digits ≤ fuel
      → filelen f < 2 ^ 64
      → kstrcmp (suc fuel) header filename (read header cursor 511 m).1 ≡ ok d
      → find_file disksize read (suc fuel) header filename cursor m ≡ (
          if d == 0
          then ok (some (cursor, filelen f), (read header cursor 511 m).1)
          else find_file disksize read fuel header filename
              (add64 (add64 cursor (padded (filelen f))) 512)
              (read header cursor 511 m).1)
  unfolding find_file
  find_file-compare fuel filename cursor d m f h v len small compared =
      let inside : leb disksize cursor ≡ false = ground arith in
      let got : ((read header cursor 511 m).0 == 0) ≡ false = ground (arith, v.got m) in
      let number =
        oct2uint64-value (suc fuel) (header + filelen_field) (read header cursor 511 m).1 f.digits
          (omega arith) (v.digits m) v.octal small in
      rw (inside, got, number, compared) refl

  find_file-lookup :
      (fuel filename cursor : ℕ) (m : Memory) (name : List ℕ) (fs : List File)
      → Archive cursor fs
      → Enough fuel fs
      → IsString m filename name
      → (filename + length name < header) ⊎ (header + 511 ≤ filename)
      → (m' : Memory) × (find_file disksize read fuel header filename cursor m
          ≡ ok (lookup name cursor fs, m'))
        × ((z : ℕ) → (z < header) ⊎ (header + 511 ≤ z) → m' z ≡ m z)
  find_file-lookup zero filename cursor m name [] v h str apart = absurd (omega arith)
  find_file-lookup (suc fuel) filename cursor m name [] v h str apart =
      (m, find_file-end fuel filename cursor m v, λ z k. refl)
  find_file-lookup zero filename cursor m name (f ∷ fs) v h str apart = absurd h
  find_file-lookup (suc fuel) filename cursor m name (f ∷ fs) v h str apart =
      let m1 = (read header cursor 511 m).1 in
      let str1 : IsString m1 filename name =
        IsString-frame m m1 filename name str (λ z lo hi. v.2.outside m z (ground arith)) in
      let (d, compared, iff) =
        kstrcmp-zero (suc fuel) header filename m1 f.name name (omega arith) (v.2.name m) str1 in
      let step = find_file-compare fuel filename cursor d m f v.0 v.2 h.1 (omega arith) compared in
      elim (Bool-cases (same_name f.name name)) [
        | inl same ↦
            let zero_d : (d == 0) ≡ true =
              ground (arith, iff.1 ((same_name_iff f.name name).0 same)) in
            (m1, step ∙ rw (zero_d, same) refl, λ z k. v.2.outside m z k)
        | inr other ↦
            let set_d : (d == 0) ≡ false = different d f.name name iff other in
            let (m', run, rest) =
              find_file-lookup fuel filename (cursor + (filelen f + 511) / 512 * 512 + 512) m1 name
                fs v.3 h.2 str1 apart in
            (
              m',
              step
                  ∙ rw (set_d, other)
                      (ap (λ c. find_file disksize read fuel header filename c m1)
                          (after_file cursor (filelen f) v.1)
                        ∙ run),
              λ z k. rest z k ∙ v.2.outside m z k,
            )
      ]

  -- On a disk that holds an archive of files one behind the other, tarfs_fstat ends with enough
  -- fuel for the files and their names, and gives the length of the first file of the name, or
  -- fails if there is none; it changes no byte outside its header buffer. The name is apart from
  -- the buffer, and the archive ends well below 2^64.
  pub tarfs_fstat-lookup :
      (fuel filename : ℕ) (m : Memory) (name : List ℕ) (fs : List File)
      → Archive 0 fs
      → Enough fuel fs
      → IsString m filename name
      → (filename + length name < header) ⊎ (header + 511 ≤ filename)
      → (m' : Memory) × (tarfs_fstat disksize read fuel header filename m
          ≡ ok (elim (lookup name 0 fs) [ none ↦ none | some (cursor, len) ↦ some len ], m'))
        × ((z : ℕ) → (z < header) ⊎ (header + 511 ≤ z) → m' z ≡ m z)
  unfolding tarfs_fstat
  tarfs_fstat-lookup fuel filename m name fs v h str apart =
      let (m', run, rest) = find_file-lookup fuel filename 0 m name fs v h str apart in
      (m', rw run refl, rest)

  read_file-some :
      (buf offset size cursor len : ℕ) (m : Memory)
      → offset + size < 2 ^ 64
      → cursor + 512 + offset < 2 ^ 64
      → len < 2 ^ 64
      → read_file disksize read buf offset size (some (cursor, len)) m ≡ (
          if leb len offset
          then (0, m)
          else read buf
              (cursor + 512 + offset)
              (if leb (offset + size) len then size else len - offset)
              m)
  unfolding read_file
  read_file-some buf offset size cursor len m fits room short = elim (Bool-cases (leb len offset)) [
    | inl out ↦ rw out refl
    | inr inside ↦
        let at : add64 (add64 cursor 512) offset ≡ cursor + 512 + offset = omega arith in
        let cut : (if ltb len (add64 offset size) then sub64 len offset else size)
            ≡ (if leb (offset + size) len then size else len - offset) =
          ground arith in
        rw (inside, at, cut) refl
  ]

  -- On a disk that holds an archive of files one behind the other, tarfs_read ends with enough
  -- fuel for the files and their names. Its result is 0 if no file has the name or the offset is
  -- not within the first one that has it, and otherwise that of one read from the disk, at the
  -- offset behind the file's header, of the number of bytes up to the file's end at most. The name
  -- is apart from the header buffer, and no sum of positions, lengths and sizes wraps at 2^64.
  pub tarfs_read-lookup :
      (fuel filename buf offset size : ℕ) (m : Memory) (name : List ℕ) (fs : List File)
      → Archive 0 fs
      → Enough fuel fs
      → IsString m filename name
      → (filename + length name < header) ⊎ (header + 511 ≤ filename)
      → offset + size < 2 ^ 64
      → (m' : Memory) × ((z : ℕ) → (z < header) ⊎ (header + 511 ≤ z) → m' z ≡ m z)
        × (lookup name 0 fs ≡ none
            → tarfs_read disksize read fuel header filename buf offset size m ≡ ok (0, m'))
        × ((cursor len : ℕ)
            → lookup name 0 fs ≡ some (cursor, len)
            → cursor + 512 + offset < 2 ^ 64
            → len < 2 ^ 64
            → tarfs_read disksize read fuel header filename buf offset size m
              ≡ ok (
                  if leb len offset
                  then (0, m')
                  else read buf
                      (cursor + 512 + offset)
                      (if leb (offset + size) len then size else len - offset)
                      m'))
  unfolding tarfs_read read_file
  tarfs_read-lookup fuel filename buf offset size m name fs v h str apart fits =
      let (m', run, rest) = find_file-lookup fuel filename 0 m name fs v h str apart in
      (
        m',
        rest,
        λ e. rw (run, e) refl,
        λ cursor len e room short.
            rw (run, e)
              (ap (λ r. ok r) (read_file-some buf offset size cursor len m' fits room short)),
      )
