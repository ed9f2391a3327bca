-- ===== src/Scheduler/Awake.antt =====
-- The second part of scheduler_pick in kernel/scheduler.c: which sleepers become ready.
use Prim.Native.Nat.{bit_xor}
use mathlib.Core.List.{append-nil, append_assoc}
use osdev_course.Common.{
  ℕ, zero, suc, ◌-◌, ◌^◌, ◌<◌, ◌≤◌, ◌≡◌, refl, sym, ap, ◌∙◌, ◌≢◌, ◌⊎◌, inl, inr, true, false, List,
  [], ◌∷◌, ◌++◌, arith, ◌==◌, ltb, if◌then◌else◌, length, mem, Distinct, update, Bool-cases, ok,
  sub32,
}
use osdev_course.Scheduler.{Scheduler, head, zombie, slept, flag_slept, scheduler_add, awake}
use osdev_course.Scheduler.Links.{Seg, first, first-mem, mem-append, update_some}
use osdev_course.Scheduler.Lists.{Lists, set_list, IsLinked, IsLinked-same}
use osdev_course.Scheduler.Moves.{scheduler_add-IsLinked, front_row, front-IsLoose, pop-IsLinked}
use osdev_course.Scheduler.Holds.{holds, holds-add, holds-remove}

-- The threads of one priority, in order.
pub select : (ℕ → ℕ) → ℕ → List ℕ → List ℕ
select priority q [] = []
select priority q (x ∷ xs) =
    if priority x == q then x ∷ select priority q xs else select priority q xs

module _ (base : ℕ) where
  -- The sleepers `ws` at the front have no more ticks to wait than have elapsed, and become ready;
  -- the others, `rest`, stay, and only the first of them has its ticks reduced.
  pub record Woken (s : Scheduler) (L : Lists) (s' : Scheduler) (L' : Lists) (ws rest : List ℕ)
      : Type 0 where
    pub linked : IsLinked base s' L'
    pub ticks : (z : ℕ) → s'.sleep_tick z < 2 ^ 32
    pub split : L slept ≡ ws ++ rest
    pub due : (x : ℕ) → mem x ws ≡ true → s.sleep_tick x ≤ s.elapsed
    pub later : (rest ≡ []) ⊎ (s.elapsed < s.sleep_tick (first rest))
    pub left : L' slept ≡ rest
    pub queues : (q : ℕ) → q < 4 → L' q ≡ L q ++ select s.priority q ws
    pub dead : L' zombie ≡ L zombie
    pub woken :
        (x : ℕ)
        → mem x ws ≡ true
        → (s'.sleep_tick x ≡ 0) × (s'.flags x ≡ bit_xor (s.flags x) flag_slept)
    pub others : (x : ℕ) → mem x ws ≡ false → s'.flags x ≡ s.flags x
    pub reduced : (rest ≡ []) ⊎ (s'.sleep_tick (first rest) ≡ s.sleep_tick (first rest) - s.elapsed)
    pub kept : (x : ℕ) → mem x (L slept) ≡ false → s'.sleep_tick x ≡ s.sleep_tick x
    pub held : (z : ℕ) → holds L' z ≡ holds L z
    pub current : s'.current ≡ s.current
    pub elapsed : s'.elapsed ≡ s.elapsed
    pub priority : s'.priority ≡ s.priority
    pub quantum_of : s'.quantum_of ≡ s.quantum_of

  -- The first sleeper off the list.
  abbrev popped : ℕ → Scheduler → Scheduler
  popped x s = record s {
    sleep_tick = update s.sleep_tick x 0;
    flags = update s.flags x (bit_xor (s.flags x) flag_slept);
    next = update s.next (head base slept) (s.next x);
    prev = update_some s.prev (s.next x) (s.prev x);
  }

  awake-step :
      (fuel x : ℕ) (s : Scheduler)
      → s.next (head base slept) ≡ x
      → x ≢ 0
      → ltb s.elapsed (s.sleep_tick x) ≡ false
      → awake base (suc fuel) s ≡ awake base fuel (scheduler_add x (popped x s))
  unfolding awake
  awake-step fuel x s e ne due = let set : (x == 0) ≡ false = ground arith in rw (e, set, due)

  awake-rest :
      (fuel x : ℕ) (s : Scheduler)
      → s.next (head base slept) ≡ x
      → x ≢ 0
      → ltb s.elapsed (s.sleep_tick x) ≡ true
      → awake base (suc fuel) s
        ≡ ok (record s { sleep_tick = update s.sleep_tick x (sub32 (s.sleep_tick x) s.elapsed) })
  unfolding awake
  awake-rest fuel x s e ne late = let set : (x == 0) ≡ false = ground arith in rw (e, set, late)

  awake-none :
      (fuel : ℕ) (s : Scheduler) → s.next (head base slept) ≡ 0 → awake base (suc fuel) s ≡ ok s
  unfolding awake
  awake-none fuel s e = rw e

  -- The lists once the first sleeper is ready.
  abbrev one_woken : Scheduler → Lists → ℕ → List ℕ → Lists
  one_woken s L x xs =
      let L1 = set_list L slept xs in let p = s.priority x in set_list L1 p (L1 p ++ x ∷ [])

  one_woken-IsLinked :
      (s : Scheduler) (L : Lists) (x : ℕ) (xs : List ℕ)
      → IsLinked base s L
      → L slept ≡ x ∷ xs
      → s.priority x < 4
      → IsLinked base (scheduler_add x (popped x s)) (one_woken s L x xs)
  one_woken-IsLinked s L x xs v e h =
      scheduler_add-IsLinked base (popped x s) (set_list L slept xs) x
        (pop-IsLinked base s L slept x xs v (omega arith) e (popped x s) refl
          (ap (λ w. update_some s.prev (s.next x) w)
            (front_row base s L slept x xs v (omega arith) e).2)
          refl (λ r k. refl) (λ k. absurd (omega arith)))
        (front-IsLoose base s L slept x xs v (omega arith) e) h

  one_woken-slept :
      (s : Scheduler) (L : Lists) (x : ℕ) (xs : List ℕ)
      → s.priority x < 4
      → one_woken s L x xs slept ≡ xs
  one_woken-slept s L x xs h = ground arith

  module _ (s : Scheduler) (L : Lists) (x : ℕ) (xs : List ℕ) (s' : Scheduler) (L' : Lists)
      (ws rest : List ℕ) (v : IsLinked base s L) (e : L slept ≡ x ∷ xs)
      (due : ltb s.elapsed (s.sleep_tick x) ≡ false) (h : s.priority x < 4)
      (w : Woken (scheduler_add x (popped x s)) (one_woken s L x xs) s' L' ws rest) where
    split_tail : xs ≡ ws ++ rest
    split_tail = sym (one_woken-slept s L x xs h) ∙ w.split

    distinct : Distinct (x ∷ xs)
    distinct = rw e at (v.distinct slept (omega arith))

    x_out : mem x (ws ++ rest) ≡ false
    x_out = rw split_tail at (distinct.0)

    x_pos : 0 < x
    x_pos = (v.threads slept x (omega arith) (ground (arith, ap (mem x) e))).0

    still_slept : one_woken s L x xs slept ≡ xs
    still_slept = one_woken-slept s L x xs h

    x_gone : mem x (one_woken s L x xs slept) ≡ false
    x_gone = ap (mem x) still_slept ∙ distinct.0

    was : (z : ℕ) → mem z (L slept) ≡ false → mem z (one_woken s L x xs slept) ≡ false
    was z m = ap (mem z) still_slept ∙ ground (arith, ap (mem z) e)

    one_woken-zombie : one_woken s L x xs zombie ≡ L zombie
    one_woken-zombie = ground arith

    one_woken-ready :
        (q : ℕ) → q < 4 → one_woken s L x xs q ≡ (if s.priority x == q then L q ++ x ∷ [] else L q)
    one_woken-ready q k = ground arith

    queue_step :
        (q : ℕ)
        → q < 4
        → one_woken s L x xs q ++ select s.priority q ws ≡ L q ++ select s.priority q (x ∷ ws)
    unfolding select
    queue_step q k = elim (Bool-cases (s.priority x == q)) [
      | inl here ↦
          rw (one_woken-ready q k, here) (append_assoc (L q) (x ∷ []) (select s.priority q ws))
      | inr there ↦ rw (one_woken-ready q k, there)
    ]

    held_step : (z : ℕ) → holds (one_woken s L x xs) z ≡ holds L z
    held_step z =
        let L1 = set_list L slept xs in
        holds-add L1 (s.priority x) x z (L1 (s.priority x) ++ x ∷ []) (omega arith)
          (ground (arith, mem-append z (L1 (s.priority x)) (x ∷ [])))
        ∙ sym (holds-remove L slept x z xs (omega arith) (ap (mem z) e))

    Woken-cons : Woken s L s' L' (x ∷ ws) rest
    unfolding scheduler_add select
    Woken-cons = record {
      linked = w.linked;
      ticks = w.ticks;
      split = e ∙ ap (λ (l : List ℕ). x ∷ l) split_tail;
      due = λ z m. ground (arith, w.due z);
      later = ground (arith, w.later, first-mem rest, mem-append x ws rest, x_out, x_pos);
      left = w.left;
      queues = λ q k. w.queues q k ∙ queue_step q k;
      dead = w.dead ∙ one_woken-zombie;
      woken = λ z m.
          ground (arith, w.woken z, w.others x, mem-append x ws rest, x_out, w.kept x x_gone);
      others = λ z m. ground (arith, w.others z);
      reduced = ground (arith, w.reduced, first-mem rest, mem-append x ws rest, x_out, x_pos);
      kept = λ z m. ground (arith, w.kept z (was z m), ap (mem z) e);
      held = λ z. w.held z ∙ held_step z;
      current = w.current;
      elapsed = w.elapsed;
      priority = w.priority;
      quantum_of = w.quantum_of;
    }

  -- From well-formed lists, with more fuel than sleepers, the loop ends. It wakes the first
  -- sleepers of the list, as long as the ticks stored in each are at most the ticks that have
  -- passed: they go behind the ready threads of their priority, with no ticks and the flag to
  -- sleep toggled. The next sleeper's ticks are reduced by those that have passed, the lists stay
  -- well formed, and no thread is lost or added.
  pub awake-Woken :
      (fuel : ℕ) (s : Scheduler) (L : Lists) (xs : List ℕ)
      → length xs < fuel
      → IsLinked base s L
      → L slept ≡ xs
      → ((x : ℕ) → mem x xs ≡ true → s.priority x < 4)
      → ((z : ℕ) → s.sleep_tick z < 2 ^ 32)
      → (s' : Scheduler) × (L' : Lists) × (ws : List ℕ) × (rest : List ℕ) × (awake base fuel s
          ≡ ok s')
        × Woken s L s' L' ws rest
  unfolding scheduler_add select
  awake-Woken zero s L xs h v e prio small = absurd (omega arith)
  awake-Woken (suc fuel) s L [] h v e prio small =
      let row : s.next (head base slept) ≡ 0 = rw e at (v.rows slept (omega arith)) in
      (
        s,
        L,
        [],
        [],
        awake-none fuel s row,
        record {
          linked = v;
          ticks = small;
          split = e;
          due = λ x m. cc;
          later = inl refl;
          left = e;
          queues = λ q k. sym (append-nil (L q));
          dead = refl;
          woken = λ x m. cc;
          others = λ x m. refl;
          reduced = inl refl;
          kept = λ x m. refl;
          held = λ z. refl;
          current = refl;
          elapsed = refl;
          priority = refl;
          quantum_of = refl;
        },
      )
  awake-Woken (suc fuel) s L (x ∷ xs) h v e prio small =
      let row : Seg s.next s.prev (head base slept) (x ∷ xs) =
        front_row base s L slept x xs v (omega arith) e in
      elim (Bool-cases (ltb s.elapsed (s.sleep_tick x))) [
        | inl late ↦
            let s' = record s {
              sleep_tick = update s.sleep_tick x (sub32 (s.sleep_tick x) s.elapsed);
            } in
            (
              s',
              L,
              [],
              x ∷ xs,
              awake-rest fuel x s row.0 row.1 late,
              record {
                linked = IsLinked-same base s s' L refl refl refl refl v;
                ticks = λ z. ground (arith, small z);
                split = e;
                due = λ z m. cc;
                later = inr (ground arith);
                left = e;
                queues = λ q k. sym (append-nil (L q));
                dead = refl;
                woken = λ z m. cc;
                others = λ z m. refl;
                reduced = inr (ground (arith, small x));
                kept = λ z m. ground (arith, ap (mem z) e);
                held = λ z. refl;
                current = refl;
                elapsed = refl;
                priority = refl;
                quantum_of = refl;
              },
            )
        | inr due ↦
            let s1 = scheduler_add x (popped x s) in
            let L1 = one_woken s L x xs in
            let (s', L', ws, rest, ran, w) =
              awake-Woken fuel s1 L1 xs (omega arith)
                (one_woken-IsLinked s L x xs v e (prio x (ground arith)))
                (one_woken-slept s L x xs (prio x (ground arith))) (λ z m. prio z (ground arith))
                (λ z. ground (arith, small z)) in
            (
              s',
              L',
              x ∷ ws,
              rest,
              awake-step fuel x s row.0 row.1 due ∙ ran,
              Woken-cons s L x xs s' L' ws rest v e due (prio x (ground arith)) w,
            )
      ]
