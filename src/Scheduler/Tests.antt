-- ===== src/Scheduler/Tests.antt =====
-- kernel/scheduler.c run on inputs, and its theorems at inputs.
use osdev_course.Common.{
  ℕ, ◌*◌, ◌<◌, ◌≡◌, refl, ◌≢◌, inl, inr, true, false, ◌||◌, List, [], ◌∷◌, ◌++◌, arith, ◌==◌,
  if◌then◌else◌, mem, ok, update, sub32, add32,
}
use osdev_course.Kmalloc.{Kmalloc, kfree}
use osdev_course.Scheduler.{
  Scheduler, head, slept, zombie, link_slept, scheduler_init, scheduler_run, retire, awake,
  scheduler_pick, scheduler_tick, scheduler_sleep, scheduler_exitthread, scheduler_cleanzombie,
}
use osdev_course.Scheduler.Lists.{Lists, set_list, set_list-elim, IsLinked, IsLinked-same, IsLoose}
use osdev_course.Scheduler.Holds.{holds, IsScheduler}
use osdev_course.Scheduler.Retire.{dead, dead-IsLinked, link_slept-IsLinked}
use osdev_course.Scheduler.Sleep.{Slot}
use osdev_course.Scheduler.Fate.{Retired, retire-slept}
use osdev_course.Scheduler.Awake.{Woken, awake-Woken}
use osdev_course.Scheduler.Pick.{Picked, scheduler_pick-Picked}
use osdev_course.Scheduler.Switch.{
  scheduler_tick-Switched, scheduler_sleep-Asleep, Naps, scheduler_exitthread-Dead,
}
use osdev_course.Scheduler.Boot.{
  no_threads, scheduler_init-IsScheduler, scheduler_run-IsScheduler,
  scheduler_cleanzombie-IsScheduler,
}

-- Memory before the kernel starts, with the TCBs of two threads of normal priority at 0x3000 and
-- 0x4000; `g_scheduler` is at 0x1000 and `g_kthread_main` at 0x2000.
abbrev memory : Scheduler
memory = record {
  next = λ _. 7;
  prev = λ _. 7;
  elapsed_of = λ _. 0;
  quantum_of = λ _. 10;
  sleep_tick = λ _. 0;
  priority = λ _. 1;
  thread_id = λ _. 0;
  flags = λ _. 0;
  kstack = λ _. 0;
  tail = λ _. 7;
  elapsed = 7;
  quantum = 7;
  current = 7;
  next_thread_id = 1;
}

abbrev pub booted : Scheduler
unfolding scheduler_init
booted = scheduler_init 0x1000 0x2000 memory

abbrev pub one : Scheduler
unfolding scheduler_run
one = scheduler_run 0x3000 booted

abbrev pub one_list : Lists
one_list = set_list no_threads 1 (0x3000 ∷ [])

booted-IsScheduler : IsScheduler 0x1000 booted no_threads
unfolding booted scheduler_init
booted-IsScheduler =
    (scheduler_init-IsScheduler 0x1000 0x2000 memory (omega arith, inr (omega arith))
      (λ z. omega arith)).0

one-IsLoose : IsLoose 0x1000 no_threads 0x3000
one-IsLoose = record { thread = (omega arith, inr (omega arith)); out = λ q h. refl }

pub one-IsScheduler : IsScheduler 0x1000 one one_list
unfolding booted one scheduler_run
one-IsScheduler =
    (scheduler_run-IsScheduler 0x1000 0x3000 booted no_threads booted-IsScheduler one-IsLoose
      (omega arith) (omega arith)).0

pub one-clear : one.flags one.current ≡ 0
unfolding booted one
one-clear = refl

pub nonempty : one_list 1 ≢ []
nonempty e = cc

scheduler_init-IsScheduler_example :
    IsScheduler 0x1000 (scheduler_init 0x1000 0x2000 memory) no_threads
    × ((scheduler_init 0x1000 0x2000 memory).current ≡ 0x2000)
    × ((scheduler_init 0x1000 0x2000 memory).flags 0x2000 ≡ 0)
    × (holds no_threads 0x2000 ≡ false)
scheduler_init-IsScheduler_example =
    scheduler_init-IsScheduler 0x1000 0x2000 memory (omega arith, inr (omega arith))
      (λ z. omega arith)

scheduler_run-IsScheduler_example :
    IsScheduler 0x1000 (scheduler_run 0x3000 booted) (set_list no_threads 1 ([] ++ 0x3000 ∷ []))
    × ((scheduler_run 0x3000 booted).thread_id 0x3000 ≡ 1)
    × ((scheduler_run 0x3000 booted).next_thread_id ≡ add32 1 1)
    × ((scheduler_run 0x3000 booted).current ≡ 0x2000)
    × ((z : ℕ)
        → holds (set_list no_threads 1 ([] ++ 0x3000 ∷ [])) z
          ≡ ((z == 0x3000) || holds no_threads z))
unfolding booted
scheduler_run-IsScheduler_example =
    scheduler_run-IsScheduler 0x1000 0x3000 booted no_threads booted-IsScheduler one-IsLoose
      (omega arith) (omega arith)

scheduler_pick-Picked_example :
    (target : ℕ) × (s' : Scheduler) × (L' : Lists) × (scheduler_pick 0x1000 2 one ≡ ok (target, s'))
    × Picked 0x1000 one one_list target s' L'
unfolding one booted
scheduler_pick-Picked_example =
    scheduler_pick-Picked 0x1000 2 one one_list one-IsScheduler (omega arith)
      (inl (1, omega arith, nonempty))

scheduler_tick-Switched_example :
    (s' : Scheduler) × (L' : Lists) × (scheduler_tick 0x1000 2 one ≡ ok s')
    × IsScheduler 0x1000 s' L'
    × ((z : ℕ) → ((z == s'.current) || holds L' z) ≡ ((z == 0x2000) || holds one_list z))
    × (one.quantum ≢ 1
        → (s'.current ≡ 0x2000) × (s'.quantum ≡ sub32 one.quantum 1) × (L' ≡ one_list))
    × (one.quantum ≡ 1 → (s'.elapsed ≡ 0) × ((q : ℕ) → q < s'.priority s'.current → L' q ≡ []))
unfolding one booted
scheduler_tick-Switched_example =
    scheduler_tick-Switched 0x1000 2 one one_list one-IsScheduler (omega arith)
      (inl (1, omega arith, nonempty)) (omega arith)

scheduler_exitthread-Dead_example :
    (s' : Scheduler) × (L' : Lists) × (scheduler_exitthread 0x1000 2 one ≡ ok s')
    × IsScheduler 0x1000 s' L'
    × (L' zombie ≡ 0x2000 ∷ [])
    × (s'.current ≢ 0x2000)
    × ((z : ℕ) → ((z == s'.current) || holds L' z) ≡ ((z == 0x2000) || holds one_list z))
    × ((q : ℕ) → q < s'.priority s'.current → L' q ≡ [])
unfolding one booted
scheduler_exitthread-Dead_example =
    scheduler_exitthread-Dead 0x1000 2 one one_list one-IsScheduler (omega arith)
      (1, omega arith, nonempty) (omega arith)

scheduler_sleep-Asleep_example :
    (s' : Scheduler) × (L' : Lists) × (ticks : ℕ → ℕ) × (xs : List ℕ) × (ys : List ℕ) × (ws : List
      ℕ)
    × (rest : List ℕ) × (scheduler_sleep 0x1000 2 5 one ≡ ok s')
    × Naps 0x1000 one one_list 5 s' L' ticks xs ys ws rest
    × IsScheduler 0x1000 s' L'
    × (L' zombie ≡ [])
    × ((z : ℕ) → ((z == s'.current) || holds L' z) ≡ ((z == 0x2000) || holds one_list z))
    × ((q : ℕ) → q < s'.priority s'.current → L' q ≡ [])
unfolding one booted
scheduler_sleep-Asleep_example =
    scheduler_sleep-Asleep 0x1000 2 5 one one_list one-IsScheduler (omega arith)
      (1, omega arith, nonempty) refl (omega arith) (omega arith)

abbrev kernel_heap : Kmalloc ℕ
kernel_heap = record {
  head = λ _. 0;
  next = λ _. 0;
  size = λ _. 64;
  heap = record { start = 0xF0200000; ptr = 128; size = 1024 * 1024 * 16; flag = 0 };
  mmu = 0;
}

-- A thread has exited, and the main thread runs.
abbrev exited : Scheduler
exited = record (dead 0x1000 (record booted { current = 0x3000 })) { current = 0x2000 }

abbrev exited_list : Lists
exited_list = set_list no_threads zombie (0x3000 ∷ [])

exited-IsScheduler : IsScheduler 0x1000 exited exited_list
unfolding booted
exited-IsScheduler =
    let exiting = record booted { current = 0x3000 } in
    let linked =
      dead-IsLinked 0x1000 exiting no_threads
        (IsLinked-same 0x1000 booted exiting no_threads refl refl refl refl
          booted-IsScheduler.linked)
        one-IsLoose in
    record {
      linked =
          IsLinked-same 0x1000 (dead 0x1000 exiting) exited exited_list refl refl refl refl linked;
      running = record {
        thread = booted-IsScheduler.running.thread;
        out =
            set_list-elim (λ r ys. r < 6 → mem 0x2000 ys ≡ false) no_threads zombie (0x3000 ∷ [])
              (λ _. refl) λ r _ _. refl;
      };
      running_priority = booted-IsScheduler.running_priority;
      priorities = λ x m. ground arith;
      ticks = booted-IsScheduler.ticks;
    }

scheduler_cleanzombie-IsScheduler_example :
    (exited_list zombie ≡ []
      → scheduler_cleanzombie 0x1000 exited kernel_heap ≡ (false, exited, kernel_heap))
    × ((x : ℕ)
        → (xs : List ℕ) → exited_list zombie ≡ x ∷ xs
        → (s' : Scheduler) × (scheduler_cleanzombie 0x1000 exited kernel_heap ≡ (
          true,
          s',
          kfree x
              (if exited.kstack x == 0 then kernel_heap else kfree (exited.kstack x) kernel_heap),
        ))
          × IsScheduler 0x1000 s' (set_list exited_list zombie xs)
          × IsLoose 0x1000 (set_list exited_list zombie xs) x
          × (s'.current ≡ 0x2000)
          × ((z : ℕ)
              → holds exited_list z ≡ ((z == x) || holds (set_list exited_list zombie xs) z)))
scheduler_cleanzombie-IsScheduler_example =
    scheduler_cleanzombie-IsScheduler 0x1000 exited kernel_heap exited_list exited-IsScheduler

-- The same state, where the running thread has asked to sleep for 5 ticks.
abbrev drowsy : Scheduler
drowsy = record one {
  sleep_tick = update one.sleep_tick 0x2000 5;
  flags = update one.flags 0x2000 1;
}

drowsy-IsScheduler : IsScheduler 0x1000 drowsy one_list
unfolding one booted
drowsy-IsScheduler = record {
  linked = IsLinked-same 0x1000 one drowsy one_list refl refl refl refl one-IsScheduler.linked;
  running = one-IsScheduler.running;
  running_priority = one-IsScheduler.running_priority;
  priorities = one-IsScheduler.priorities;
  ticks = λ z. ground (arith, one-IsScheduler.ticks z);
}

retire-slept_example :
    (s' : Scheduler) × (xs : List ℕ) × (ys : List ℕ) × (retire 0x1000 1 drowsy ≡ ok s')
    × Retired 0x1000 drowsy one_list s' (set_list one_list slept (xs ++ 0x2000 ∷ ys))
    × Slot drowsy.sleep_tick s'.sleep_tick 0x2000 [] xs ys
unfolding one booted
retire-slept_example =
    retire-slept 0x1000 1 drowsy one_list drowsy-IsScheduler refl refl (omega arith)

-- The main thread sleeps for 5 ticks, of which 3 have passed.
abbrev sleeping : Scheduler
unfolding link_slept
sleeping = record (link_slept 0x2000 (head 0x1000 slept, 0, drowsy)) { elapsed = 3 }

abbrev sleeping_list : Lists
sleeping_list = set_list one_list slept (0x2000 ∷ [])

sleeping-IsLinked : IsLinked 0x1000 sleeping sleeping_list
unfolding sleeping link_slept one booted
sleeping-IsLinked =
    IsLinked-same 0x1000 (link_slept 0x2000 (head 0x1000 slept, 0, drowsy)) sleeping sleeping_list
      refl refl refl refl
      (link_slept-IsLinked 0x1000 drowsy drowsy one_list 0x2000 [] [] drowsy-IsScheduler.linked
        drowsy-IsScheduler.running refl refl refl refl refl)

awake-Woken_example :
    (s' : Scheduler) × (L' : Lists) × (ws : List ℕ) × (rest : List ℕ) × (awake 0x1000 2 sleeping
      ≡ ok s')
    × Woken 0x1000 sleeping sleeping_list s' L' ws rest
unfolding sleeping one booted
awake-Woken_example =
    awake-Woken 0x1000 2 sleeping sleeping_list (0x2000 ∷ []) (omega arith) sleeping-IsLinked refl
      (λ x m. ground arith) (λ z. drowsy-IsScheduler.ticks z)
