-- ===== src/Mmu/Clone.antt =====
-- `mmu_clone_pagedir` of kernel/arch/i686/mmu.c: the directory of a new address space.
use osdev_course.Common.{ℕ, ◌+◌, ◌^◌, ◌<◌, ◌≤◌, ◌≡◌, ◌≢◌, Bool}
use osdev_course.Mmu.{Mmu, tables, page_noalloc, boot_entry}
use osdev_course.Mmu.Tables.{IsMapped}
use osdev_course.Mmu.Mark.{result}
use osdev_course.Mmu.Map.{IsWords}

module _ (f : ℕ) (s : Mmu) (small : f < 2 ^ 20) (w : IsWords s) where
  abbrev mapping : Bool × Mmu
  mapping = result 0xEFFFF f page_noalloc s

-- A new address space: the user's half is empty, the kernel's half is the one of MMU_PD, and the
-- last word leads to the new directory itself.
pub record IsClone (frame : ℕ) (s : Mmu) (words : ℕ → ℕ) (s' : Mmu) : Type 0 where
  pub user : (i : ℕ) → i < 512 → words i ≡ 0
  pub kernel : (i : ℕ) → 512 ≤ i → i < 1023 → i ≢ 959 → words i ≡ boot_entry s i
  pub itself : words 1023 ≡ frame + 3
  -- The window at KADDR_CLONDPD is closed, and no other page of the old space changes.
  pub window : s'.entry 0xEFFFF ≡ 0
  pub keeps : (p : ℕ) → p < tables → IsMapped s p → s'.entry p ≡ s.entry p
  pub taken : s'.frames_index ≤ s.frames_index
