-- ===== src/Syscall/Serve.antt =====
-- `_syscall` of kernel/arch/i686/syscall.s with the services of kernel/syscall_service.c: what a
-- system call leaves of the kernel's state.
use osdev_course.Common.{
  ℕ, ◌+◌, ◌-◌, ◌*◌, ◌^◌, ◌<◌, ◌≤◌, ◌≡◌, ◌≢◌, inl, inr, refl, ap, ◌==◌, ◌||◌, ◌∷◌, length, arith, ok,
  ◌>>=◌, Bool-cases, if◌then◌else◌, false, ltb,
}
use osdev_course.Scheduler.{Scheduler, slept, zombie, scheduler_sleep, scheduler_exitthread}
use osdev_course.Scheduler.Lists.{Lists}
use osdev_course.Scheduler.Holds.{holds, IsScheduler}
use osdev_course.Scheduler.Pick.{HasReady}
use osdev_course.Scheduler.Switch.{scheduler_sleep_lem, scheduler_exitthread-Dead}
use osdev_course.Thread.{process_current}
use osdev_course.Heap.{heap_alloc}
use osdev_course.Syscall.Read.{IsAsked, answer-ok}
use osdev_course.Syscall.{
  Kernel, minus_one, ticks_of, kservice_sbrk, kservice_exit, kservice_usleep, syscall_table,
  syscall,
}

module _ {M : Type 0} (mmap : (mem paddr size flag : ℕ) → M → M) (base : ℕ) where
  -- What the system call `eax` with the first argument `ebx` leaves behind, and its result `r`.
  pub record Served (fuel eax ebx : ℕ) (s : Kernel M) (L : Lists) (r : ℕ) (s' : Kernel M)
      (L' : Lists) : Type 0 where
    pub runs : IsScheduler base s'.scheduler L'
    pub same_threads :
        (z : ℕ)
        → ((z == s'.scheduler.current) || holds L' z) ≡ ((z == s.scheduler.current) || holds L z)
    pub dead : L' zombie ≡ (if eax == 1 then s.scheduler.current ∷ L zombie else L zombie)
    -- Only exit and usleep reach the scheduler.
    pub still : eax ≢ 1 → eax ≢ 12 → s'.scheduler ≡ s.scheduler
    pub others :
        (p : ℕ)
        → p ≢ process_current s.scheduler s.threads
        → (s'.heap p ≡ s.heap p) × (s'.pid p ≡ s.pid p)
    -- A sleep takes 18 ticks a second, rounded down, as long as the product does not wrap.
    pub ticks :
        eax ≡ 12
        → ebx * 18 < 2 ^ 32
        → (t : ℕ) × (t * 1000000 ≤ ebx * 18)
          × (ebx * 18 < (t + 1) * 1000000)
          × (scheduler_sleep base fuel t s.scheduler ≡ ok s'.scheduler)
    pub beyond : 12 < eax → (r ≡ 2 ^ 32 - 1) × (s' ≡ s)

  pub ticks_of-bounds :
      (usec : ℕ)
      → usec * 18 < 2 ^ 32
      → (ticks_of usec * 1000000 ≤ usec * 18) × (usec * 18 < (ticks_of usec + 1) * 1000000)
  ticks_of-bounds usec small = omega arith

  pub exit-ok :
      (fuel ebx : ℕ) (s : Kernel M) (t : Scheduler)
      → scheduler_exitthread base fuel s.scheduler ≡ ok t
      → kservice_exit base fuel ebx s ≡ ok (0, record s { scheduler = t })
  unfolding kservice_exit
  exit-ok fuel ebx s t e = ap (λ r. r >>= λ t. ok (0, record s { scheduler = t })) e

  pub usleep-ok :
      (fuel ebx : ℕ) (s : Kernel M) (t : Scheduler)
      → scheduler_sleep base fuel (ticks_of ebx) s.scheduler ≡ ok t
      → kservice_usleep base fuel ebx s ≡ ok (0, record s { scheduler = t })
  unfolding kservice_usleep
  usleep-ok fuel ebx s t e = ap (λ r. r >>= λ t. ok (0, record s { scheduler = t })) e

  -- A service that does not reach the scheduler.
  quiet :
      (fuel eax ebx r : ℕ) (s s' : Kernel M) (L : Lists)
      → IsScheduler base s.scheduler L
      → (eax == 1) ≡ false
      → (eax == 12) ≡ false
      → s'.scheduler ≡ s.scheduler
      → s'.pid ≡ s.pid
      → ((p : ℕ) → p ≢ process_current s.scheduler s.threads → s'.heap p ≡ s.heap p)
      → (12 < eax → (r ≡ 2 ^ 32 - 1) × (s' ≡ s))
      → Served fuel eax ebx s L r s' L
  quiet fuel eax ebx r s s' L v not_exit not_sleep e e' heaps beyond = record {
    runs = rw e v;
    same_threads = λ z. rw e refl;
    dead = rw not_exit refl;
    still = λ _ _. e;
    others = λ p h. (heaps p h, ap (λ f. f p) e');
    ticks = λ h _. absurd (ground arith);
    beyond = beyond;
  }

  module _ (fuel ebx ecx edx : ℕ) (s : Kernel M) (L : Lists) (v : IsScheduler base s.scheduler L)
      (enough : length (L slept) + 1 < fuel) (some : HasReady L)
      (clear : s.scheduler.flags s.scheduler.current ≡ 0) where
    exits :
        (r : ℕ) × (s' : Kernel M) × (L' : Lists) × (syscall base mmap fuel 1 ebx ecx edx s
          ≡ ok (r, s'))
        × Served fuel 1 ebx s L r s' L'
    unfolding syscall syscall_table
    exits =
        let (t, L', e, runs, dead, _, same, _) =
          scheduler_exitthread-Dead base fuel s.scheduler L v enough some (omega arith) in
        (
          0,
          record s { scheduler = t },
          L',
          exit-ok fuel ebx s t e,
          record {
            runs = runs;
            same_threads = same;
            dead = dead;
            still = λ h _. absurd (h refl);
            others = λ p h. (refl, refl);
            ticks = λ h _. absurd (omega arith);
            beyond = λ h. absurd (omega arith);
          },
        )

    sleeps :
        (r : ℕ) × (s' : Kernel M) × (L' : Lists) × (syscall base mmap fuel 12 ebx ecx edx s
          ≡ ok (r, s'))
        × Served fuel 12 ebx s L r s' L'
    unfolding syscall syscall_table
    sleeps =
        let (t, L', e, runs, dead, same) =
          scheduler_sleep_lem base fuel (ticks_of ebx) s.scheduler L v enough some clear
            (omega arith) in
        (
          0,
          record s { scheduler = t },
          L',
          usleep-ok fuel ebx s t e,
          record {
            runs = runs;
            same_threads = same;
            dead = dead;
            still = λ _ h. absurd (h refl);
            others = λ p h. (refl, refl);
            ticks = λ h small.
                let (low, high) = ticks_of-bounds ebx small in (ticks_of ebx, low, high, e);
            beyond = λ h. absurd (omega arith);
          },
        )

    -- In a well-formed state where some thread is ready and the running one has no flags, with
    -- more fuel than there are sleepers and one, every system call of a process ends, whatever its
    -- number, if open and unlink get a string that can be read, with more fuel than it has bytes,
    -- and write a buffer that can be read. The scheduler stays well formed and no thread is lost
    -- or added; only exit makes a zombie, of the thread that runs, and only exit and usleep change
    -- the scheduler. The heaps of other processes and all process numbers stay. usleep sleeps for
    -- 18 ticks a second, rounded down, if the product of the microseconds and 18 does not wrap. A
    -- number above 12 gives -1 and changes nothing.
    pub syscall-Served :
        (eax : ℕ)
        → IsAsked fuel eax ebx ecx edx s
        → (r : ℕ) × (s' : Kernel M) × (L' : Lists) × (syscall base mmap fuel eax ebx ecx edx s
            ≡ ok (r, s'))
          × Served fuel eax ebx s L r s' L'
    unfolding syscall syscall_table kservice_sbrk
    syscall-Served eax asked = elim (Bool-cases (eax == 1)) [
      | inl one ↦ let is : eax ≡ 1 = ground arith in rw is exits
      | inr not_exit ↦ elim (Bool-cases (eax == 12)) [
        | inl twelve ↦ let is : eax ≡ 12 = ground arith in rw is sleeps
        | inr not_sleep ↦ elim (Bool-cases (ltb 12 eax)) [
          | inl high ↦ (
            minus_one,
            s,
            L,
            rw high refl,
            quiet fuel eax ebx minus_one s s L v not_exit not_sleep refl refl (λ p h. refl)
                (λ h. (refl, refl)),
          )
          | inr low ↦ elim (Bool-cases (eax == 11)) [
            | inl eleven ↦
                let p = process_current s.scheduler s.threads in
                let (r, heap, mmu) = heap_alloc mmap (s.heap p) ebx s.mmu in
                let s' : Kernel M = record s {
                  heap = λ a. if a == p then heap else s.heap a;
                  mmu = mmu;
                } in
                let set : (p == 0) ≡ false = ground (arith, asked.process) in
                (
                  r,
                  s',
                  L,
                  rw (low, not_exit, eleven, set) refl,
                  quiet fuel eax ebx r s s' L v not_exit not_sleep refl refl (λ p h. ground arith)
                      (λ h. absurd (ground arith)),
                )
            | inr not_sbrk ↦
                let (r, e) = answer-ok fuel eax ebx ecx edx s asked in
                (
                  r,
                  s,
                  L,
                  rw (low, not_exit, not_sbrk, not_sleep, e) refl,
                  quiet fuel eax ebx r s s L v not_exit not_sleep refl refl (λ p h. refl)
                      (λ h. absurd (ground arith)),
                )
          ]
        ]
      ]
    ]
