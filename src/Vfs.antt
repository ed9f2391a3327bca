-- ===== src/Vfs.antt =====
-- kernel/vfs.cpp and kernel/vfs.h: the mounted file systems, and the calls that go to the one whose
-- path begins a name. The entries stand at `base`, 264 bytes each; a file system is a value of `F`,
-- and its driver's operations are parameters.
pub mod Find
mod Tests
use osdev_course.Common.{
  ℕ, zero, suc, ◌+◌, ◌*◌, Bool, true, false, Option, none, some, List, [], ◌∷◌, ◌++◌, ◌==◌, leb,
  if◌then◌else◌, length, Run, ok, ◌>>=◌,
}
use osdev_course.Kstring.{Memory, kstrncpy, kstrncmp}

-- `VFS::Entry`, with the address of its path.
pub record Entry (F : Type 0) : Type 0 where
  pub path : ℕ
  pub path_len : ℕ
  pub fs : F

module _ {F : Type 0} where
  -- `VFS::mount`: the entries in use, and memory.
  unfoldable pub mount :
      (fuel base mount_point : ℕ)
      → F
      → List (Entry F)
      → Memory
      → Run (Bool × List (Entry F) × Memory)
  unfolding kstrncpy
  mount fuel base mount_point fs entries mem =
      let path = base + 264 * length entries in
      let mounted = kstrncpy fuel path mount_point 256 mem >>= λ (len, mem').
      ok (true, entries ++ record { path = path; path_len = len; fs = fs } ∷ [], mem') in
      if leb 64 (length entries) then ok (false, entries, mem) else mounted

  -- `VFS::find`
  unfoldable pub find : (fuel filename : ℕ) → List (Entry F) → Memory → Run (Option (Entry F))
  unfolding kstrncmp
  find fuel filename [] mem = ok none
  find fuel filename (entry ∷ entries) mem =
      let rest = find fuel filename entries mem in
      kstrncmp fuel entry.path filename entry.path_len mem >>= λ d.
      if d == 0 then ok (some entry) else rest

  -- `VFS::fstat`, `VFS::read` and `VFS::write` call the driver's operation with the rest of the name;
  -- the result is 0 or false if there is no entry, which is `failed`.
  unfoldable pub call :
      {R : Type 0}
      → (operation : F → ℕ → R) → (failed : R) → (fuel filename : ℕ) → List (Entry F)
      → Memory
      → Run R
  unfolding find
  call operation failed fuel filename entries mem = find fuel filename entries mem >>= λ r.
      ok (elim r [ none ↦ failed | some entry ↦ operation entry.fs (filename + entry.path_len) ])
