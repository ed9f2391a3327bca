-- ===== src/Scheduler/Holds.antt =====
-- Which threads stand on some list of kernel/scheduler.c, before and after a move.
use osdev_course.Common.{ℕ, ◌<◌, ◌≡◌, ◌^◌, Bool, true, false, ◌||◌, List, arith, ◌==◌, mem}
use osdev_course.Scheduler.{Scheduler}
use osdev_course.Scheduler.Lists.{Lists, set_list, IsLinked, IsLoose}

unfoldable pub holds : Lists → ℕ → Bool
holds L z =
    mem z (L 0) || (mem z (L 1) || (mem z (L 2) || (mem z (L 3) || (mem z (L 4) || mem z (L 5)))))

module _ (L : Lists) (p x z : ℕ) (xs : List ℕ) (small : p < 6) where
  pub holds-add :
      mem z xs ≡ ((z == x) || mem z (L p)) → holds (set_list L p xs) z ≡ ((z == x) || holds L z)
  unfolding holds
  holds-add e = ground arith

  pub holds-remove :
      mem z (L p) ≡ ((z == x) || mem z xs) → holds L z ≡ ((z == x) || holds (set_list L p xs) z)
  unfolding holds
  holds-remove e = ground arith

pub holds-out : (L : Lists) (z : ℕ) → ((q : ℕ) → q < 6 → mem z (L q) ≡ false) → holds L z ≡ false
unfolding holds
holds-out L z out = ground (
  arith,
  out 0 (omega arith),
  out 1 (omega arith),
  out 2 (omega arith),
  out 3 (omega arith),
  out 4 (omega arith),
  out 5 (omega arith),
)

pub holds-mem : (L : Lists) (q z : ℕ) → q < 6 → mem z (L q) ≡ true → holds L z ≡ true
unfolding holds
holds-mem L q z h m = ground arith

module _ (base : ℕ) where
  -- The whole state: the running thread is on no list, every priority names a queue, and the ticks
  -- are words of 32 bits.
  pub record IsScheduler (s : Scheduler) (L : Lists) : Type 0 where
    pub linked : IsLinked base s L
    pub running : IsLoose base L s.current
    pub running_priority : s.priority s.current < 4
    pub priorities : (x : ℕ) → holds L x ≡ true → s.priority x < 4
    pub ticks : (z : ℕ) → s.sleep_tick z < 2 ^ 32
