-- ===== src/Scheduler/Switch.antt =====
-- The calls of kernel/scheduler.c and arch/i686/scheduler.s that run another thread.
use osdev_course.Common.{
  ℕ, zero, suc, ◌+◌, mem, bit_and, List, ◌++◌, length-append, update_self, ◌^◌, ◌<◌, ◌≤◌, ◌≡◌, refl,
  ap, ◌∙◌, ◌≢◌, ◌⊎◌, inl, inr, true, false, ◌||◌, [], ◌∷◌, arith, ◌==◌, length, Bool-cases, ok,
  add32, sub32, update, bit_or,
}
use osdev_course.Scheduler.{
  Scheduler, slept, zombie, flag_slept, flag_zombie, scheduler_yield, scheduler_tick,
  scheduler_sleep, scheduler_exitthread, scheduler_pick,
}
use osdev_course.Scheduler.Lists.{Lists, set_list, IsLinked-same}
use osdev_course.Scheduler.Holds.{holds, IsScheduler}
use osdev_course.Scheduler.Links.{first, mem-append}
use osdev_course.Scheduler.Sleep.{Slot, ticks_up_to}
use osdev_course.Scheduler.Fate.{retire-slept}
use osdev_course.Scheduler.Awake.{Woken}
use osdev_course.Scheduler.Pick.{
  Picked, pick_rest, zombies_after, IsReady, HasReady, scheduler_pick-Picked,
}

exit_flag : (f : ℕ) → f < 4 → (bit_and (bit_or f flag_zombie) flag_zombie == 0) ≡ false
exit_flag zero h = refl
exit_flag (suc zero) h = refl
exit_flag (suc (suc zero)) h = refl
exit_flag (suc (suc (suc zero))) h = refl
exit_flag (suc (suc (suc (suc f)))) h = absurd (omega arith)

module _ (base : ℕ) where
  -- Another thread runs, or the same one: no thread is lost or added, none of higher priority
  -- waits, and the quantum is the thread's own at most.
  pub record Switched (s : Scheduler) (L : Lists) (s' : Scheduler) (L' : Lists) : Type 0 where
    pub runs : IsScheduler base s' L'
    pub same_threads : (z : ℕ) → ((z == s'.current) || holds L' z) ≡ ((z == s.current) || holds L z)
    pub highest : (q : ℕ) → q < s'.priority s'.current → L' q ≡ []
    pub dead : L' zombie ≡ zombies_after s L
    pub elapsed : s'.elapsed ≡ 0
    pub quantum :
        0 < s.quantum_of s'.current
        → s.quantum_of s'.current < 2 ^ 32
        → (0 < s'.quantum) × (s'.quantum ≤ s.quantum_of s'.current)

  pub scheduler_yield-Switched :
      (fuel : ℕ) (s : Scheduler) (L : Lists)
      → IsScheduler base s L
      → length (L slept) + 1 < fuel
      → HasReady L ⊎ IsReady s
      → (s' : Scheduler) × (L' : Lists) × (scheduler_yield base fuel s ≡ ok s') × Switched s L s' L'
  unfolding scheduler_yield
  scheduler_yield-Switched fuel s L v enough some =
      let (x, s1, L1, run, p) = scheduler_pick-Picked base fuel s L v enough some in
      (
        record s1 { current = x },
        L1,
        rw run refl,
        record {
          runs = p.runs;
          same_threads = p.same_threads;
          highest = λ q h. p.highest q (rw p.priority at h);
          dead = p.dead;
          elapsed = p.elapsed;
          quantum = p.quantum;
        },
      )

  -- The state stays well formed when the counters and a thread's ticks and flags change.
  IsScheduler-same :
      (s s' : Scheduler) (L : Lists)
      → s'.next ≡ s.next
      → s'.prev ≡ s.prev
      → s'.tail ≡ s.tail
      → s'.priority ≡ s.priority
      → s'.current ≡ s.current
      → ((z : ℕ) → s'.sleep_tick z < 2 ^ 32)
      → IsScheduler base s L
      → IsScheduler base s' L
  IsScheduler-same s s' L n p t pr c ticks v = record {
    linked = IsLinked-same base s s' L n p t pr v.linked;
    running = rw c v.running;
    running_priority = rw (c, pr) v.running_priority;
    priorities = λ x h. rw pr (v.priorities x h);
    ticks = ticks;
  }

  -- In a well-formed state with a quantum of 32 bits, and with more fuel than there are sleepers
  -- and one, a tick of the timer counts the quantum down and keeps the scheduler well formed; no
  -- thread is lost or added. Before the quantum's last tick the same thread runs on and no list
  -- changes; at the last tick the thread that then runs is one of the highest priority that is
  -- ready. Some thread is ready, or the running one neither exits nor goes to sleep.
  pub scheduler_tick-Switched :
      (fuel : ℕ) (s : Scheduler) (L : Lists)
      → IsScheduler base s L
      → length (L slept) + 1 < fuel
      → HasReady L ⊎ IsReady s
      → s.quantum < 2 ^ 32
      → (s' : Scheduler) × (L' : Lists) × (scheduler_tick base fuel s ≡ ok s')
        × IsScheduler base s' L'
        × ((z : ℕ) → ((z == s'.current) || holds L' z) ≡ ((z == s.current) || holds L z))
        × ((s.quantum ≢ 1 → (s'.current ≡ s.current) × (s'.quantum ≡ sub32 s.quantum 1) × (L' ≡ L)))
        × (s.quantum ≡ 1 → (s'.elapsed ≡ 0) × ((q : ℕ) → q < s'.priority s'.current → L' q ≡ []))
  unfolding scheduler_tick
  scheduler_tick-Switched fuel s L v enough some small =
      let s1 = record s { elapsed = add32 s.elapsed 1; quantum = sub32 s.quantum 1 } in
      let v1 : IsScheduler base s1 L = IsScheduler-same s s1 L refl refl refl refl refl v.ticks v in
      elim (Bool-cases (sub32 s.quantum 1 == 0)) [
        | inl over ↦
            let (s', L', run, w) = scheduler_yield-Switched fuel s1 L v1 enough some in
            (
              s',
              L',
              rw over run,
              w.runs,
              w.same_threads,
              λ more. absurd (ground arith),
              λ last. (w.elapsed, w.highest),
            )
        | inr running ↦ (
          s1,
          L,
          rw running refl,
          v1,
          λ z. refl,
          λ more. (refl, refl, refl),
          λ last. absurd (ground arith),
        )
      ]

  -- In a well-formed state, with more fuel than there are sleepers and one, a running thread with
  -- no other flags than the two that there are exits: it is then first among the zombies, and
  -- another one runs, of the highest priority that is ready; no thread is lost or added, and the
  -- state stays well formed. Some other thread must be ready.
  pub scheduler_exitthread-Dead :
      (fuel : ℕ) (s : Scheduler) (L : Lists)
      → IsScheduler base s L
      → length (L slept) + 1 < fuel
      → HasReady L
      → s.flags s.current < 4
      → (s' : Scheduler) × (L' : Lists) × (scheduler_exitthread base fuel s ≡ ok s')
        × IsScheduler base s' L'
        × (L' zombie ≡ s.current ∷ L zombie)
        × (s'.current ≢ s.current)
        × ((z : ℕ) → ((z == s'.current) || holds L' z) ≡ ((z == s.current) || holds L z))
        × ((q : ℕ) → q < s'.priority s'.current → L' q ≡ [])
  unfolding scheduler_exitthread
  scheduler_exitthread-Dead fuel s L v enough some bits =
      let s1 = record s {
        flags = update s.flags s.current (bit_or (s.flags s.current) flag_zombie);
      } in
      let v1 : IsScheduler base s1 L = IsScheduler-same s s1 L refl refl refl refl refl v.ticks v in
      let (s', L', run, w) = scheduler_yield-Switched fuel s1 L v1 enough (inl some) in
      let dead : L' zombie ≡ s.current ∷ L zombie = w.dead ∙ put_dead in
      let here : mem s.current (L' zombie) ≡ true = ap (mem s.current) dead ∙ ground arith in
      (
        s',
        L',
        run,
        w.runs,
        dead,
        λ same. absurd (ground (arith, w.runs.running.out zombie (omega arith), here)),
        w.same_threads,
        w.highest,
      )
    where
      put_dead :
          zombies_after
            (record s { flags = update s.flags s.current (bit_or (s.flags s.current) flag_zombie) })
            L
          ≡ s.current ∷ L zombie
      put_dead =
          let flag = exit_flag (s.flags s.current) bits in
          let self : (s.current == s.current) ≡ true = ground arith in rw (self, flag) refl

  -- How a thread goes to sleep for `tick` ticks: it is put among the sleepers, where the ticks
  -- stored up to it sum to its own and those up to the others do not change. Then the first sleepers
  -- whose stored ticks are not above the ticks counted wake up. If it is not one of these, it is
  -- among the sleepers afterwards, and another thread runs.
  pub record Naps (s : Scheduler) (L : Lists) (tick : ℕ) (s' : Scheduler) (L' : Lists)
      (ticks : ℕ → ℕ) (xs ys ws rest : List ℕ) : Type 0 where
    pub slot : Slot (update s.sleep_tick s.current tick) ticks s.current (L slept) xs ys
    pub own : ticks_up_to ticks (xs ++ s.current ∷ ys) s.current ≡ tick
    pub split : xs ++ s.current ∷ ys ≡ ws ++ rest
    pub left : L' slept ≡ rest
    pub due : (x : ℕ) → mem x ws ≡ true → ticks x ≤ s.elapsed
    pub later : (rest ≡ []) ⊎ (s.elapsed < ticks (first rest))
    pub away :
        mem s.current ws ≡ false → (mem s.current (L' slept) ≡ true) × (s'.current ≢ s.current)

  -- The state with the sleep noted.
  abbrev drowsy : ℕ → Scheduler → Scheduler
  drowsy tick s = record s {
    sleep_tick = update s.sleep_tick s.current tick;
    flags = update s.flags s.current (bit_or (s.flags s.current) flag_slept);
  }

  drowsy-flags :
      (tick : ℕ) (s : Scheduler)
      → s.flags s.current ≡ 0
      → ((bit_and ((drowsy tick s).flags s.current) flag_zombie == 0) ≡ true)
        × ((bit_and ((drowsy tick s).flags s.current) flag_slept == 0) ≡ false)
  drowsy-flags tick s clear =
      let self : (s.current == s.current) ≡ true = ground arith in rw (self, clear) (refl, refl)

  naps :
      (s : Scheduler) (L : Lists) (tick : ℕ) (s1 : Scheduler) (xs ys ws rest : List ℕ)
      (s2 : Scheduler) (L2 : Lists) (s' : Scheduler) (L' : Lists)
      → s1.elapsed ≡ s.elapsed
      → Slot (update s.sleep_tick s.current tick) s1.sleep_tick s.current (L slept) xs ys
      → Woken base s1 (set_list L slept (xs ++ s.current ∷ ys)) s2 L2 ws rest
      → L' slept ≡ rest
      → mem s'.current rest ≡ false
      → Naps s L tick s' L' s1.sleep_tick xs ys ws rest
  naps s L tick s1 xs ys ws rest s2 L2 s' L' same slot w left out =
      let self : (s.current == s.current) ≡ true = ground arith in
      let inside : mem s.current (xs ++ s.current ∷ ys) ≡ true =
        rw (mem-append s.current xs (s.current ∷ ys), self) (ground arith) in
      record {
        slot = slot;
        own = slot.own_sum ∙ update_self s.sleep_tick s.current tick;
        split = w.split;
        left = left;
        due = λ x m. omega (arith, w.due x m, same);
        later = elim (w.later) [ inl none ↦ inl none | inr more ↦ inr (omega (arith, more, same)) ];
        away = λ not.
            let stays : mem s.current rest ≡ true =
              ground
                (arith, not, inside, ap (mem s.current) w.split, mem-append s.current ws rest) in
            (rw left stays, λ e. absurd (ground (arith, stays, out, ap (λ x. mem x rest) e)));
      }

  -- The pick of a thread when the running one goes to sleep.
  pick-Naps :
      (fuel tick : ℕ) (s : Scheduler) (L : Lists)
      → IsScheduler base (drowsy tick s) L
      → length (L slept) + 1 < fuel
      → HasReady L
      → s.flags s.current ≡ 0
      → (target : ℕ) × (s' : Scheduler) × (L' : Lists) × (ticks : ℕ → ℕ) × (xs : List ℕ)
        × (ys : List ℕ) × (ws : List ℕ) × (rest : List ℕ) × (scheduler_pick base fuel
              (drowsy tick s)
            ≡ ok (target, s'))
        × Picked base (drowsy tick s) L target s' L'
        × Naps s L tick (record s' { current = target }) L' ticks xs ys ws rest
  pick-Naps fuel tick s L v enough ready clear =
      let s0 = drowsy tick s in
      let (alive, asleep) = drowsy-flags tick s clear in
      let (s1, xs, ys, run, r, slot) = retire-slept base fuel s0 L v alive asleep (omega arith) in
      let L1 = set_list L slept (xs ++ s.current ∷ ys) in
      let len : length (xs ++ s.current ∷ ys) < fuel =
        rw length-append (omega (arith, ap length slot.split ∙ length-append xs ys)) in
      let (q, low, ne) = ready in
      let (x, s', L', ws, rest, s2, L2, ran, p, w, left, out) =
        pick_rest base fuel s0 L v s1 L1 run r len (rw alive refl) (q, low, r.ready q low ne) in
      (
        x,
        s',
        L',
        s1.sleep_tick,
        xs,
        ys,
        ws,
        rest,
        ran,
        p,
        naps s L tick s1 xs ys ws rest s2 L2 (record s' { current = x }) L' r.elapsed slot w left
            out,
      )

  -- In a well-formed state, with more fuel than there are sleepers and one, a running thread with
  -- no flags that sleeps for a positive number of ticks of 32 bits is put among the sleepers: the
  -- ticks stored up to and with it sum to its own, and those up to the others to what they did.
  -- Then the first sleepers wake up, as long as the ticks stored with each are not above those
  -- counted. If it is not one of them it is among the sleepers afterwards, and another thread
  -- runs. The thread that runs has the highest priority that is ready; no thread is lost or added,
  -- none becomes a zombie, and the scheduler stays well formed. Some other thread must be ready.
  pub scheduler_sleep-Asleep :
      (fuel tick : ℕ) (s : Scheduler) (L : Lists)
      → IsScheduler base s L
      → length (L slept) + 1 < fuel
      → HasReady L
      → s.flags s.current ≡ 0
      → 0 < tick
      → tick < 2 ^ 32
      → (s' : Scheduler) × (L' : Lists) × (ticks : ℕ → ℕ) × (xs : List ℕ) × (ys : List ℕ)
        × (ws : List ℕ) × (rest : List ℕ) × (scheduler_sleep base fuel tick s ≡ ok s')
        × Naps s L tick s' L' ticks xs ys ws rest
        × IsScheduler base s' L'
        × (L' zombie ≡ L zombie)
        × ((z : ℕ) → ((z == s'.current) || holds L' z) ≡ ((z == s.current) || holds L z))
        × ((q : ℕ) → q < s'.priority s'.current → L' q ≡ [])
  unfolding scheduler_sleep scheduler_yield
  scheduler_sleep-Asleep fuel tick s L v enough some clear pos small =
      let s0 = drowsy tick s in
      let v0 : IsScheduler base s0 L =
        IsScheduler-same s s0 L refl refl refl refl refl (λ z. ground (arith, v.ticks z)) v in
      let (x, s', L', ticks, xs, ys, ws, rest, run, p, naps) =
        pick-Naps fuel tick s L v0 enough some clear in
      let set : (tick == 0) ≡ false = ground arith in
      let (alive, _) = drowsy-flags tick s clear in
      (
        record s' { current = x },
        L',
        ticks,
        xs,
        ys,
        ws,
        rest,
        rw (set, run) refl,
        naps,
        p.runs,
        p.dead ∙ rw alive refl,
        p.same_threads,
        λ q h. p.highest q (rw p.priority at h),
      )

  -- A sleep of any length, for no tick too.
  pub scheduler_sleep_lem :
      (fuel tick : ℕ) (s : Scheduler) (L : Lists)
      → IsScheduler base s L
      → length (L slept) + 1 < fuel
      → HasReady L
      → s.flags s.current ≡ 0
      → tick < 2 ^ 32
      → (s' : Scheduler) × (L' : Lists) × (scheduler_sleep base fuel tick s ≡ ok s')
        × IsScheduler base s' L'
        × (L' zombie ≡ L zombie)
        × ((z : ℕ) → ((z == s'.current) || holds L' z) ≡ ((z == s.current) || holds L z))
  unfolding scheduler_sleep
  scheduler_sleep_lem fuel tick s L v enough some clear small = elim (Bool-cases (tick == 0)) [
    | inl none ↦
        let (s', L', run, w) = scheduler_yield-Switched fuel s L v enough (inl some) in
        (s', L', rw none run, w.runs, w.dead ∙ rw clear refl, w.same_threads)
    | inr ticks ↦
        let (s', L', _, _, _, _, _, run, _, runs, dead, same, _) =
          scheduler_sleep-Asleep fuel tick s L v enough some clear (ground arith) small in
        (s', L', run, runs, dead, same)
  ]
