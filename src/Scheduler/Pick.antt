-- ===== src/Scheduler/Pick.antt =====
-- The whole of scheduler_pick in kernel/scheduler.c, and the calls that switch threads through it.
use osdev_course.Common.{
  ℕ, ◌+◌, ◌^◌, ◌<◌, ◌≤◌, ◌≡◌, refl, ap, sym, ◌∙◌, ◌≢◌, ◌⊎◌, inl, inr, true, false, ◌||◌, List, [],
  ◌∷◌, ◌++◌, arith, ◌==◌, length, length-append, mem, Bool-cases, ok, bit_and, sub32, leb,
  if◌then◌else◌, update,
}
use osdev_course.Scheduler.{
  Scheduler, slept, zombie, flag_slept, flag_zombie, start, retire, scheduler_pick,
}
use osdev_course.Scheduler.Lists.{Lists, set_list, IsLinked-same}
use osdev_course.Scheduler.Moves.{front-IsLoose}
use osdev_course.Scheduler.Holds.{holds, holds-remove, holds-mem, IsScheduler}
use osdev_course.Scheduler.Fate.{Retired, retire-zombie, retire-ready, retire-slept, append-ne-nil}
use osdev_course.Scheduler.Awake.{select, Woken, awake-Woken}
use osdev_course.Scheduler.Target.{dequeued, Front, take_target-Front, dequeued-IsLinked}

-- The running thread neither exits nor goes to sleep.
abbrev pub IsReady : Scheduler → Type 0
IsReady s =
    ((bit_and (s.flags s.current) flag_zombie == 0) ≡ true)
    × ((bit_and (s.flags s.current) flag_slept == 0) ≡ true)

abbrev pub HasReady : Lists → Type 0
HasReady L = (q : ℕ) × (q < 4) × (L q ≢ [])

append-ne-left : (xs ys : List ℕ) → xs ≢ [] → xs ++ ys ≢ []
append-ne-left [] ys ne e = ne refl
append-ne-left (x ∷ xs) ys ne e = cc

-- The ticks that a thread has used of its quantum when it starts to run.
abbrev spent : ℕ → Scheduler → ℕ → ℕ
spent x s = if leb (s.quantum_of x) (s.elapsed_of x) then update s.elapsed_of x 0 else s.elapsed_of

abbrev started : ℕ → Scheduler → Scheduler
started x s = record s {
  elapsed_of = spent x s;
  elapsed = 0;
  quantum = sub32 (s.quantum_of x) (spent x s x);
}

start_lem : (x : ℕ) (s : Scheduler) → 0 < x → start (x, s) ≡ ok (x, started x s)
unfolding start
start_lem x s pos = let set : (x == 0) ≡ false = ground arith in rw set refl

quantum-bounds :
    (x : ℕ) (s : Scheduler)
    → 0 < s.quantum_of x
    → s.quantum_of x < 2 ^ 32
    → (0 < (started x s).quantum) × ((started x s).quantum ≤ s.quantum_of x)
quantum-bounds x s q b = ground arith

-- The zombies after the running thread is put away.
abbrev pub zombies_after : Scheduler → Lists → List ℕ
zombies_after s L =
    if bit_and (s.flags s.current) flag_zombie == 0 then L zombie else s.current ∷ L zombie

module _ (base : ℕ) where
  -- After the first part some thread is ready to run.
  retire_lem :
      (fuel : ℕ) (s : Scheduler) (L : Lists)
      → IsScheduler base s L
      → length (L slept) < fuel
      → HasReady L ⊎ IsReady s
      → (s' : Scheduler) × (L' : Lists) × (retire base fuel s ≡ ok s')
        × Retired base s L s' L'
        × (length (L' slept) ≤ length (L slept) + 1)
        × (L' zombie ≡ zombies_after s L)
        × HasReady L'
  retire_lem fuel s L v enough some =
      elim (Bool-cases (bit_and (s.flags s.current) flag_zombie == 0)) [
        | inl alive ↦ elim (Bool-cases (bit_and (s.flags s.current) flag_slept == 0)) [
          | inl woke ↦
              let p = s.priority s.current in
              let (s1, run, r) = retire-ready base fuel s L v alive woke in
              let other : (slept == p) ≡ false = ground (arith, v.running_priority) in
              let self : (p == p) ≡ true = ground arith in
              (
                s1,
                set_list L p (L p ++ s.current ∷ []),
                run,
                r,
                rw other (omega arith),
                rw (alive, not_dead p v.running_priority) refl,
                (p, v.running_priority, rw self (append-ne-nil (L p) s.current)),
              )
          | inr asleep ↦
              let (s1, xs, ys, run, r, slot) = retire-slept base fuel s L v alive asleep enough in
              (
                s1,
                set_list L slept (xs ++ s.current ∷ ys),
                run,
                r,
                rw (length-append, length_split xs ys slot.split) (omega arith),
                rw alive refl,
                kept s1 (set_list L slept (xs ++ s.current ∷ ys)) r (λ i. ground arith),
              )
        ]
        | inr gone ↦
            let (s1, run, r) = retire-zombie base fuel s L v gone in
            (
              s1,
              set_list L zombie (s.current ∷ L zombie),
              run,
              r,
              omega arith,
              rw gone refl,
              kept s1 (set_list L zombie (s.current ∷ L zombie)) r (λ i. ground arith),
            )
      ]
    where
      not_dead : (p : ℕ) → p < 4 → (zombie == p) ≡ false
      not_dead p h = ground arith

      length_split :
          (xs ys : List ℕ) → L slept ≡ xs ++ ys → length (L slept) ≡ length xs + length ys
      length_split xs ys e = ap length e ∙ length-append xs ys

      kept : (s1 : Scheduler) (L1 : Lists) → Retired base s L s1 L1 → (IsReady s → ⊥) → HasReady L1
      kept s1 L1 r not = elim some [
        | inl old ↦ (old.0, old.1, r.ready old.0 old.1 old.2)
        | inr now ↦ absurd (not now)
      ]

  -- What the choice of `target` leaves.
  pub record Picked (s : Scheduler) (L : Lists) (target : ℕ) (s' : Scheduler) (L' : Lists)
      : Type 0 where
    pub runs : IsScheduler base (record s' { current = target }) L'
    pub same_threads : (z : ℕ) → ((z == target) || holds L' z) ≡ ((z == s.current) || holds L z)
    pub highest : (q : ℕ) → q < s.priority target → L' q ≡ []
    pub dead : L' zombie ≡ zombies_after s L
    pub elapsed : s'.elapsed ≡ 0
    pub priority : s'.priority ≡ s.priority
    pub quantum_of : s'.quantum_of ≡ s.quantum_of
    pub quantum :
        0 < s.quantum_of target
        → s.quantum_of target < 2 ^ 32
        → (0 < s'.quantum) × (s'.quantum ≤ s.quantum_of target)

  -- The three parts together.
  module _ (s : Scheduler) (L : Lists) (v : IsScheduler base s L) (s1 : Scheduler) (L1 : Lists)
      (r : Retired base s L s1 L1) (s2 : Scheduler) (L2 : Lists) (ws rest : List ℕ)
      (w : Woken base s1 L1 s2 L2 ws rest) (q x : ℕ) (ys : List ℕ) (front : Front base L2 0 q x ys)
      (gone : L1 zombie ≡ zombies_after s L) where
    parts-held :
        (z : ℕ) → ((z == x) || holds (set_list L2 q ys) z) ≡ ((z == s.current) || holds L z)
    parts-held z =
        sym (holds-remove L2 q x z ys (omega (arith, front.queue)) (ap (mem z) front.front))
        ∙ (w.held z ∙ r.held z)

    parts-priority : s2.priority ≡ s.priority
    parts-priority = w.priority ∙ r.priority

    parts-small : (z : ℕ) → ((z == s.current) || holds L z) ≡ true → s2.priority z < 4
    parts-small z m = rw parts-priority (ground (arith, v.priorities z, v.running_priority))

    front-priority : s2.priority x ≡ q
    front-priority = w.linked.ready q x front.queue (ap (mem x) front.front ∙ ground arith)

    parts-IsScheduler :
        IsScheduler base
          (record (started x (dequeued base q x s2)) { current = x })
          (set_list L2 q ys)
    parts-IsScheduler =
        let s3 = dequeued base q x s2 in
        let s4 = record (started x s3) { current = x } in
        record {
          linked =
              IsLinked-same base s3 s4 (set_list L2 q ys) refl refl refl refl
                (dequeued-IsLinked base s2 L2 q x ys w.linked front.queue front.front);
          running =
              front-IsLoose base s2 L2 q x ys w.linked (omega (arith, front.queue)) front.front;
          running_priority = rw front-priority front.queue;
          priorities = λ z m. parts-small z (ground (arith, parts-held z));
          ticks = w.ticks;
        }

    parts-Picked : Picked s L x (started x (dequeued base q x s2)) (set_list L2 q ys)
    parts-Picked = record {
      runs = parts-IsScheduler;
      same_threads = parts-held;
      highest = λ i h. above i (rw own at h);
      dead = rw not_zombie (w.dead ∙ gone);
      elapsed = refl;
      priority = parts-priority;
      quantum_of = w.quantum_of ∙ r.quantum_of;
      quantum = rw at (quantum-bounds x (dequeued base q x s2));
    }
      where
        at : s.quantum_of x ≡ s2.quantum_of x
        at = ap (λ f. f x) (sym (w.quantum_of ∙ r.quantum_of))

        not_zombie : (zombie == q) ≡ false
        not_zombie = ground (arith, front.queue)

        own : s.priority x ≡ q
        own = ap (λ f. f x) (sym parts-priority) ∙ front-priority

        above : (i : ℕ) → i < q → set_list L2 q ys i ≡ []
        above i h =
            let other : (i == q) ≡ false = ground arith in rw other (front.empty i (omega arith) h)

  ready_after :
      (s1 : Scheduler) (L1 : Lists) (s2 : Scheduler) (L2 : Lists) (ws rest : List ℕ)
      → Woken base s1 L1 s2 L2 ws rest
      → HasReady L1
      → HasReady L2
  ready_after s1 L1 s2 L2 ws rest w (q, h, ne) =
      (q, h, rw (w.queues q h) (append-ne-left (L1 q) (select s1.priority q ws) ne))

  -- The parts behind the first one, from what that leaves.
  pub pick_rest :
      (fuel : ℕ) (s : Scheduler) (L : Lists)
      → IsScheduler base s L
      → (s1 : Scheduler) (L1 : Lists) → retire base fuel s ≡ ok s1
      → Retired base s L s1 L1
      → length (L1 slept) < fuel
      → L1 zombie ≡ zombies_after s L
      → HasReady L1
      → (target : ℕ) × (s' : Scheduler) × (L' : Lists) × (ws : List ℕ) × (rest : List ℕ)
        × (s2 : Scheduler) × (L2 : Lists) × (scheduler_pick base fuel s ≡ ok (target, s'))
        × Picked s L target s' L'
        × Woken base s1 L1 s2 L2 ws rest
        × (L' slept ≡ rest)
        × (mem target rest ≡ false)
  unfolding scheduler_pick
  pick_rest fuel s L v s1 L1 run1 r len gone ready =
      let (s2, L2, ws, rest, run2, w) =
        awake-Woken base fuel s1 L1 (L1 slept) len r.linked refl prio r.ticks in
      let ready2 = ready_after s1 L1 s2 L2 ws rest w ready in
      let (q, x, ys, took, front) =
        take_target-Front base 4 0 s2 L2 (L2 0) refl w.linked refl ready2.0 (omega arith) ready2.1
          ready2.2 in
      let loose =
        front-IsLoose base s2 L2 q x ys w.linked (omega (arith, front.queue)) front.front in
      let s3 = dequeued base q x s2 in
      let other : (slept == q) ≡ false = ground (arith, front.queue) in
      let left : set_list L2 q ys slept ≡ rest = rw other w.left in
      (
        x,
        started x s3,
        set_list L2 q ys,
        ws,
        rest,
        s2,
        L2,
        rw (run1, run2, took, start_lem x s3 loose.thread.0),
        parts-Picked s L v s1 L1 r s2 L2 ws rest w q x ys front gone,
        w,
        left,
        ap (mem x) (sym left) ∙ loose.out slept (omega arith),
      )
    where
      prio : (x : ℕ) → mem x (L1 slept) ≡ true → s1.priority x < 4
      prio x m =
          let held : ((x == s.current) || holds L x) ≡ true =
            sym (r.held x) ∙ holds-mem L1 slept x (omega arith) m in
          rw r.priority (ground (arith, v.priorities x, v.running_priority))

  -- In a well-formed state where some thread is ready, or the running one neither exits nor goes
  -- to sleep, scheduler_pick ends, with more fuel than there are sleepers and one, and picks a
  -- thread. With it running the state is well formed, no thread is lost or added, every queue of a
  -- higher priority is empty, the running thread is first of the zombies exactly when it exits,
  -- the count of ticks restarts, and the quantum is positive and at most the thread's own, where
  -- that is positive and has 32 bits.
  pub scheduler_pick-Picked :
      (fuel : ℕ) (s : Scheduler) (L : Lists)
      → IsScheduler base s L
      → length (L slept) + 1 < fuel
      → HasReady L ⊎ IsReady s
      → (target : ℕ) × (s' : Scheduler) × (L' : Lists) × (scheduler_pick base fuel s
          ≡ ok (target, s'))
        × Picked s L target s' L'
  scheduler_pick-Picked fuel s L v enough some =
      let (s1, L1, run1, r, len, gone, ready) = retire_lem fuel s L v (omega arith) some in
      let (x, s', L', _, _, _, _, run, p, _, _, _) =
        pick_rest fuel s L v s1 L1 run1 r (omega arith) gone ready in
      (x, s', L', run, p)
