-- ===== src/Vfs/Tests.antt =====
-- kernel/vfs.cpp run on inputs, and its theorem at inputs.
use osdev_course.Common.{
  ℕ, ◌+◌, ◌<◌, ◌≡◌, refl, [], ◌∷◌, arith, length, inr, ◌⊎◌, ◌≤◌, ◌*◌, ◌++◌, true, false, update, ok,
}
use osdev_course.Kstring.{Memory}
use osdev_course.Kstring.Text.{IsString, take}
use osdev_course.Vfs.{Entry, mount, call}
use osdev_course.Vfs.Find.{mount-entry, Mounts, entries_of, AreMounted, call-first_mount}

-- "/" at 1000 and "/a" at 100.
abbrev memory : Memory
memory = update (update (update (λ _. 0) 1000 47) 100 47) 101 97

abbrev root : Entry ℕ
root = record { path = 1000; path_len = 1; fs = 7 }

abbrev mounts : Mounts ℕ
mounts = (root, 47 ∷ []) ∷ []

mounted : AreMounted 2 memory mounts
mounted = ((refl, omega arith, omega arith, refl), refl, omega arith, omega arith, tt)

named : IsString memory 100 (47 ∷ 97 ∷ [])
named = (refl, omega arith, omega arith, (refl, omega arith, omega arith, refl))

call-first_mount_example : call (λ fs p. fs + p) 0 2 100 (entries_of mounts) memory ≡ ok (7 + 101)
call-first_mount_example =
    call-first_mount (λ fs p. fs + p) 0 2 100 memory (47 ∷ 97 ∷ []) mounts mounted named

mount-entry_example :
    (64 ≤ 1 → mount 256 10000 100 8 (root ∷ []) memory ≡ ok (false, root ∷ [], memory))
    × (1 < 64
        → (entry : Entry ℕ) × (m' : Memory) × (mount 256 10000 100 8 (root ∷ []) memory
            ≡ ok (true, (root ∷ []) ++ entry ∷ [], m'))
          × (entry.fs ≡ 8)
          × (entry.path_len ≡ length (take 255 (47 ∷ 97 ∷ [])))
          × IsString m' entry.path (take 255 (47 ∷ 97 ∷ []))
          × ((z : ℕ) → (z < 10000 + 264 * 1) ⊎ (10000 + 264 * 1 + 256 ≤ z) → m' z ≡ memory z))
mount-entry_example =
    mount-entry 256 10000 100 8 (root ∷ []) memory (47 ∷ 97 ∷ []) (omega arith) named
      (inr (omega arith))
