-- ===== src/Scheduler/Boot.antt =====
-- scheduler_init, scheduler_run and scheduler_cleanzombie of kernel/scheduler.c.
use osdev_course.Common.{
  ℕ, ◌+◌, ◌^◌, ◌<◌, ◌≤◌, ◌≡◌, refl, ap, ◌∙◌, ◌≢◌, inl, inr, true, false, ◌||◌, List, [], ◌∷◌, ◌++◌,
  arith, ◌==◌, Bool-cases, if◌then◌else◌, mem, Distinct, update, Chain, Chain-update, add32,
}
use osdev_course.Kmalloc.{Kmalloc, kfree}
use osdev_course.Scheduler.{
  Scheduler, head, zombie, zero_from, scheduler_init, scheduler_add, scheduler_run,
  scheduler_cleanzombie,
}
use osdev_course.Scheduler.Links.{mem-append}
use osdev_course.Scheduler.Lists.{
  Lists, set_list, set_list-elim, Row, IsThread, IsLinked, IsLinked-same, IsLoose,
  IsLinked-set_list,
}
use osdev_course.Scheduler.Moves.{head-new, scheduler_add-IsLinked}
use osdev_course.Scheduler.Holds.{holds, holds-add, holds-remove, holds-out, IsScheduler}

-- All lists are empty.
abbrev pub no_threads : Lists
no_threads q = []

zero_from-inside :
    (from size a : ℕ) (f : ℕ → ℕ) → from ≤ a → a < from + size → zero_from from size f a ≡ 0
zero_from-inside from size a f lo hi = ground arith

zero_from-zero : (from size a : ℕ) (f : ℕ → ℕ) → f a ≡ 0 → zero_from from size f a ≡ 0
zero_from-zero from size a f e = ground arith

zero_from-small :
    (from size a bound : ℕ) (f : ℕ → ℕ) → 0 < bound → f a < bound → zero_from from size f a < bound
zero_from-small from size a bound f pos h = ground arith

module _ (base : ℕ) where
  -- After scheduler_init the scheduler is well formed with no thread on any list, and the main
  -- thread runs. The main thread lies outside the scheduler's own data, and the ticks in memory
  -- are words.
  pub scheduler_init-IsScheduler :
      (kthread : ℕ) (s : Scheduler)
      → IsThread base kthread
      → ((z : ℕ) → s.sleep_tick z < 2 ^ 32)
      → IsScheduler base (scheduler_init base kthread s) no_threads
        × ((scheduler_init base kthread s).current ≡ kthread)
        × ((scheduler_init base kthread s).flags kthread ≡ 0)
        × (holds no_threads kthread ≡ false)
  unfolding scheduler_init
  scheduler_init-IsScheduler kthread s thread small = (
    record {
      linked = record {
        rows = rows;
        tails = λ q h. refl;
        distinct = λ q h. tt;
        apart = λ q r x _ _ _ _. refl;
        threads = λ q x h m. cc;
        ready = λ q x h m. cc;
      };
      running = record { thread = thread; out = λ q h. refl };
      running_priority = ground arith;
      priorities = λ x h. absurd (ground (arith, holds-out no_threads x (λ q k. refl)));
      ticks = λ z.
          zero_from-small kthread 84 z (2 ^ 32) (zero_from base 540 s.sleep_tick) (omega arith)
            (zero_from-small base 540 z (2 ^ 32) s.sleep_tick (omega arith) (small z));
    },
    refl,
    zero_from-inside kthread 84 kthread (zero_from base 540 s.flags) (omega arith) (omega arith),
    holds-out no_threads kthread (λ q k. refl),
  )
    where
      first : (q : ℕ) → q < 6 → (scheduler_init base kthread s).next (head base q) ≡ 0
      first q h =
          zero_from-zero kthread 84 (head base q) (zero_from base 540 s.next)
            (zero_from-inside base 540 (head base q) s.next (omega arith) (omega arith))

      rows :
          (q : ℕ)
          → q < 6
          → Row
              (q == zombie)
              (scheduler_init base kthread s).next
              (scheduler_init base kthread s).prev
              (head base q)
              []
      rows q h = elim (Bool-cases (q == zombie)) [
        | inl e ↦ rw e (first q h)
        | inr e ↦ rw e (first q h)
      ]

  -- In a well-formed state, a new thread with one of the four priorities, on no list and not
  -- running, becomes ready behind those of its priority, with the next number; the running thread
  -- and all other lists are as before, and the state stays well formed.
  pub scheduler_run-IsScheduler :
      (x : ℕ) (s : Scheduler) (L : Lists)
      → IsScheduler base s L
      → IsLoose base L x
      → x ≢ s.current
      → s.priority x < 4
      → let p = s.priority x in
        IsScheduler base (scheduler_run x s) (set_list L p (L p ++ x ∷ []))
        × ((scheduler_run x s).thread_id x ≡ s.next_thread_id)
        × ((scheduler_run x s).next_thread_id ≡ add32 s.next_thread_id 1)
        × ((scheduler_run x s).current ≡ s.current)
        × ((z : ℕ) → holds (set_list L p (L p ++ x ∷ [])) z ≡ ((z == x) || holds L z))
  unfolding scheduler_run scheduler_add
  scheduler_run-IsScheduler x s L v loose other h = (
    record {
      linked = linked;
      running = record { thread = v.running.thread; out = out };
      running_priority = v.running_priority;
      priorities = λ z m. ground (arith, held z, v.priorities z);
      ticks = v.ticks;
    },
    ground arith,
    refl,
    refl,
    held,
  )
    where
      p : ℕ
      p = s.priority x

      numbered : Scheduler
      numbered = record s {
        thread_id = update s.thread_id x s.next_thread_id;
        next_thread_id = add32 s.next_thread_id 1;
      }

      linked : IsLinked base (scheduler_run x s) (set_list L p (L p ++ x ∷ []))
      linked =
          scheduler_add-IsLinked base numbered L x
            (IsLinked-same base s numbered L refl refl refl refl v.linked) loose h

      out : (q : ℕ) → q < 6 → mem s.current (set_list L p (L p ++ x ∷ []) q) ≡ false
      out =
          set_list-elim (λ r ys. r < 6 → mem s.current ys ≡ false) L p (L p ++ x ∷ [])
            (λ k. ground (arith, mem-append s.current (L p) (x ∷ []), v.running.out p k))
            (λ r _. v.running.out r)

      held : (z : ℕ) → holds (set_list L p (L p ++ x ∷ [])) z ≡ ((z == x) || holds L z)
      held z =
          holds-add L p x z (L p ++ x ∷ []) (omega arith)
            (ground (arith, mem-append z (L p) (x ∷ [])))

  -- In a well-formed state, scheduler_cleanzombie without a zombie changes nothing and returns
  -- false. Otherwise the first zombie goes off its list and on no other, its TCB is freed, and
  -- before it its stack if it has one; the scheduler stays well formed, and the other lists and
  -- the running thread are as before.
  pub scheduler_cleanzombie-IsScheduler :
      {M : Type 0} (s : Scheduler) (k : Kmalloc M) (L : Lists)
      → IsScheduler base s L
      → (L zombie ≡ [] → scheduler_cleanzombie base s k ≡ (false, s, k))
        × ((x : ℕ)
            → (xs : List ℕ) → L zombie ≡ x ∷ xs
            → (s' : Scheduler) × (scheduler_cleanzombie base s k
                ≡ (true, s', kfree x (if s.kstack x == 0 then k else kfree (s.kstack x) k)))
              × IsScheduler base s' (set_list L zombie xs)
              × IsLoose base (set_list L zombie xs) x
              × (s'.current ≡ s.current)
              × ((z : ℕ) → holds L z ≡ ((z == x) || holds (set_list L zombie xs) z)))
  unfolding scheduler_cleanzombie
  scheduler_cleanzombie-IsScheduler s k L v = (
    λ e.
        let none : s.next (head base zombie) ≡ 0 = rw e at (v.linked.rows zombie (omega arith)) in
        rw none refl,
    λ x xs e. (popped x, run x xs e, well x xs e, loose x xs e, refl, held x xs e),
  )
    where
      popped : ℕ → Scheduler
      popped x = record s { next = update s.next (head base zombie) (s.next x) }

      chain :
          (x : ℕ) (xs : List ℕ)
          → L zombie ≡ x ∷ xs
          → Chain s.next (s.next (head base zombie)) (x ∷ xs)
      chain x xs e = rw e at (v.linked.rows zombie (omega arith))

      distinct : (x : ℕ) (xs : List ℕ) → L zombie ≡ x ∷ xs → Distinct (x ∷ xs)
      distinct x xs e = rw e at (v.linked.distinct zombie (omega arith))

      run :
          (x : ℕ) (xs : List ℕ)
          → L zombie ≡ x ∷ xs
          → scheduler_cleanzombie base s k
            ≡ (true, popped x, kfree x (if s.kstack x == 0 then k else kfree (s.kstack x) k))
      run x xs e =
          let c = chain x xs e in
          let set : (x == 0) ≡ false = ground (arith, c.1) in rw (c.0, set) refl

      held :
          (x : ℕ) (xs : List ℕ)
          → L zombie ≡ x ∷ xs
          → (z : ℕ) → holds L z ≡ ((z == x) || holds (set_list L zombie xs) z)
      held x xs e z = holds-remove L zombie x z xs (omega arith) (ap (mem z) e)

      loose : (x : ℕ) (xs : List ℕ) → L zombie ≡ x ∷ xs → IsLoose base (set_list L zombie xs) x
      loose x xs e = record {
        thread = v.linked.threads zombie x (omega arith) (ap (mem x) e ∙ ground arith);
        out =
            set_list-elim (λ r ys. r < 6 → mem x ys ≡ false) L zombie xs (λ _. (distinct x xs e).0)
              λ r n h.
                v.linked.apart zombie r x (omega arith) h (ground arith)
                  (ap (mem x) e ∙ ground arith);
      }

      linked :
          (x : ℕ) (xs : List ℕ)
          → L zombie ≡ x ∷ xs
          → IsLinked base (popped x) (set_list L zombie xs)
      linked x xs e =
          let c = chain x xs e in
          let fresh : mem (head base zombie) (x ∷ xs) ≡ false =
            rw e at (head-new base s L zombie v.linked (omega arith)) in
          IsLinked-set_list base s (popped x) L zombie x xs v.linked (omega arith)
            (loose x xs e).thread (λ q h n. rw n at ((loose x xs e).out q h))
            (record {
              nexts = λ z m. ground arith;
              prevs = λ z m. refl;
              tails = λ q n. refl;
              priorities = λ z. refl;
            })
            (let self : (head base zombie == head base zombie) ≡ true = ground arith in
              rw self (
                Chain-update s.next (s.next x) xs (head base zombie) (s.next x) c.2 (ground arith)))
            (λ h. absurd (omega arith)) (distinct x xs e).1 (λ z m. ground (arith, ap (mem z) e))
            (λ h. absurd (omega arith))

      well :
          (x : ℕ) (xs : List ℕ)
          → L zombie ≡ x ∷ xs
          → IsScheduler base (popped x) (set_list L zombie xs)
      well x xs e = record {
        linked = linked x xs e;
        running = record {
          thread = v.running.thread;
          out =
              set_list-elim (λ r ys. r < 6 → mem s.current ys ≡ false) L zombie xs
                (λ h. ground (arith, ap (mem s.current) e, v.running.out zombie h))
                (λ r _. v.running.out r);
        };
        running_priority = v.running_priority;
        priorities = λ z m. v.priorities z (held x xs e z ∙ ground arith);
        ticks = v.ticks;
      }
