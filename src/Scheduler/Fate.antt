-- ===== src/Scheduler/Fate.antt =====
-- The first part of scheduler_pick in kernel/scheduler.c by the flags of the running thread.
use osdev_course.Common.{
  ℕ, ◌^◌, ◌<◌, ◌≤◌, ◌≡◌, refl, ap, ◌≢◌, true, false, ◌||◌, List, [], ◌∷◌, ◌++◌, arith, ◌==◌, length,
  mem, update, ok, add32, bit_and,
}
use osdev_course.Scheduler.{
  Scheduler, head, zombie, slept, flag_slept, flag_zombie, link_slept, scheduler_add, retire,
}
use osdev_course.Scheduler.Links.{last, first, mem-append}
use osdev_course.Scheduler.Lists.{Lists, set_list, set_list-elim, IsLinked, IsLinked-same}
use osdev_course.Scheduler.Moves.{scheduler_add-IsLinked}
use osdev_course.Scheduler.Sleep.{Slot, find_slot-Slot}
use osdev_course.Scheduler.Retire.{dead, dead-IsLinked, link_slept-IsLinked}
use osdev_course.Scheduler.Holds.{holds, holds-add, IsScheduler}

pub append-ne-nil : (xs : List ℕ) (x : ℕ) → xs ++ x ∷ [] ≢ []
append-ne-nil [] x e = cc
append-ne-nil (y ∷ ys) x e = cc

-- The ready queues are not touched by a change of another list.
ready_kept : (L : Lists) (p q : ℕ) (xs : List ℕ) → q < 4 → 4 ≤ p → L q ≢ [] → set_list L p xs q ≢ []
ready_kept L p q xs h k ne =
    set_list-elim (λ r ys. r < 4 → L r ≢ [] → ys ≢ []) L p xs (λ g _. absurd (omega arith))
      (λ r _ _ old. old) q h ne

module _ (base : ℕ) where
  -- What the later parts rely on.
  pub record Retired (s : Scheduler) (L : Lists) (s' : Scheduler) (L' : Lists) : Type 0 where
    pub linked : IsLinked base s' L'
    pub ticks : (z : ℕ) → s'.sleep_tick z < 2 ^ 32
    pub held : (z : ℕ) → holds L' z ≡ ((z == s.current) || holds L z)
    pub current : s'.current ≡ s.current
    pub elapsed : s'.elapsed ≡ s.elapsed
    pub priority : s'.priority ≡ s.priority
    pub quantum_of : s'.quantum_of ≡ s.quantum_of
    pub ready : (q : ℕ) → q < 4 → L q ≢ [] → L' q ≢ []

  module _ (fuel : ℕ) (s : Scheduler) (L : Lists) (v : IsScheduler base s L) where
    abbrev counted : Scheduler
    counted = record s {
      elapsed_of = update s.elapsed_of s.current (add32 (s.elapsed_of s.current) s.elapsed);
    }

    counted-IsLinked : IsLinked base counted L
    counted-IsLinked = IsLinked-same base s counted L refl refl refl refl v.linked

    pub retire-zombie :
        (bit_and (s.flags s.current) flag_zombie == 0) ≡ false
        → (s' : Scheduler) × (retire base fuel s ≡ ok s')
          × Retired s L s' (set_list L zombie (s.current ∷ L zombie))
    unfolding retire
    retire-zombie e = (
      dead base counted,
      rw e,
      record {
        linked = dead-IsLinked base counted L counted-IsLinked v.running;
        ticks = v.ticks;
        held = λ z. holds-add L zombie s.current z (s.current ∷ L zombie) (omega arith) refl;
        current = refl;
        elapsed = refl;
        priority = refl;
        quantum_of = refl;
        ready = λ q h ne. ready_kept L zombie q (s.current ∷ L zombie) h (omega arith) ne;
      },
    )

    pub retire-ready :
        (bit_and (s.flags s.current) flag_zombie == 0) ≡ true
        → (bit_and (s.flags s.current) flag_slept == 0) ≡ true
        → let p = s.priority s.current in
          (s' : Scheduler) × (retire base fuel s ≡ ok s')
          × Retired s L s' (set_list L p (L p ++ s.current ∷ []))
    unfolding retire
    retire-ready e f = (
      scheduler_add s.current counted,
      rw (e, f),
      record {
        linked =
            scheduler_add-IsLinked base counted L s.current counted-IsLinked v.running
              v.running_priority;
        ticks = v.ticks;
        held = λ z.
            holds-add L (s.priority s.current) s.current z
              (L (s.priority s.current) ++ s.current ∷ []) (omega (arith, v.running_priority))
              (ground (arith, mem-append z (L (s.priority s.current)) (s.current ∷ [])));
        current = refl;
        elapsed = refl;
        priority = refl;
        quantum_of = refl;
        ready = λ q h ne.
            set_list-elim (λ r ys. L r ≢ [] → ys ≢ []) L (s.priority s.current)
              (L (s.priority s.current) ++ s.current ∷ [])
              (λ _. append-ne-nil (L (s.priority s.current)) s.current) (λ r _ old. old) q ne;
      },
    )

    -- In a well-formed state, with more fuel than sleepers, a running thread with the flag to
    -- sleep and not the one to exit is put among the sleepers, whose lists stay well formed: the
    -- ticks stored up to and with it sum to its own, and those up to and with every other sleeper
    -- to what they did.
    pub retire-slept :
        (bit_and (s.flags s.current) flag_zombie == 0) ≡ true
        → (bit_and (s.flags s.current) flag_slept == 0) ≡ false
        → length (L slept) < fuel
        → (s' : Scheduler) × (xs : List ℕ) × (ys : List ℕ) × (retire base fuel s ≡ ok s')
          × Retired s L s' (set_list L slept (xs ++ s.current ∷ ys))
          × Slot s.sleep_tick s'.sleep_tick s.current (L slept) xs ys
    unfolding retire
    retire-slept e f enough =
        let (xs, ys, ticks, found, slot) =
          find_slot-Slot fuel s.current (head base slept) counted (L slept) enough
            (counted-IsLinked.rows slept (omega arith)) (v.running.out slept (omega arith))
            (v.linked.distinct slept (omega arith)) v.ticks in
        let placed : Scheduler = record counted { sleep_tick = ticks } in
        let link : ℕ × ℕ × Scheduler = (last (head base slept) xs, first ys, placed) in
        (
          link_slept s.current link,
          xs,
          ys,
          rw (e, f, found),
          record {
            linked =
                link_slept-IsLinked base counted placed L s.current xs ys counted-IsLinked v.running
                  slot.split refl refl refl refl;
            ticks = slot.small;
            held = λ z. holds-add L slept s.current z (xs ++ s.current ∷ ys) (omega arith) (
                ground (
                  arith,
                  mem-append z xs (s.current ∷ ys),
                  ap (mem z) slot.split,
                  mem-append z xs ys,
                ));
            current = refl;
            elapsed = refl;
            priority = refl;
            quantum_of = refl;
            ready = λ q h ne. ready_kept L slept q (xs ++ s.current ∷ ys) h (omega arith) ne;
          },
          slot,
        )
