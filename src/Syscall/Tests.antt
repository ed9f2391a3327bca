-- ===== src/Syscall/Tests.antt =====
-- kernel/syscall_service.c run on inputs, and its theorem at an input.
use osdev_course.Common.{
  ℕ, ◌+◌, ◌*◌, some, ◌≡◌, refl, Bool, true, false, none, fault, arith, Run, ok,
}
use osdev_course.Scheduler.Lists.{Lists}
use osdev_course.Scheduler.Tests.{one, one_list, one-IsScheduler, one-clear, nonempty}
use osdev_course.Thread.{no_context, process_current}
use osdev_course.Syscall.{Kernel, ticks_of, syscall}
use osdev_course.Syscall.Serve.{Served, syscall-Served}

-- The memory manager counts its calls.
abbrev mmap : ℕ → ℕ → ℕ → ℕ → ℕ → ℕ
mmap mem paddr size flag m = m + 1

-- The main thread runs, and one thread is ready.
abbrev kernel : Kernel ℕ
kernel = record {
  scheduler = one;
  threads = record { context = λ _. no_context; process = λ _. 0x5000; word = λ _. 0 };
  pid = λ _. 1;
  heap = λ _. record { start = 0x40000000; ptr = 0; size = 1024 * 1024 * 32; flag = 6 };
  mmu = 0;
  user = λ a. some 0;
}

-- A second is 18 ticks. The product wraps behind 238 seconds.
second : ticks_of 1000000 ≡ 18
second = refl

wrapped : ticks_of 238609295 ≡ 0
wrapped = refl

-- A string that cannot be read halts the kernel.
is_fault : Run (ℕ × Kernel ℕ) → Bool
is_fault fault = true
is_fault r = false

halts : is_fault (syscall 0x1000 mmap 9 2 0 0 0 (record kernel { user = λ a. none })) ≡ true
unfolding syscall is_fault
halts = refl

syscall-Served_example :
    (r : ℕ) × (s' : Kernel ℕ) × (L' : Lists) × (syscall 0x1000 mmap 2 12 1000000 0 0 kernel
      ≡ ok (r, s'))
    × Served mmap 0x1000 2 12 1000000 kernel one_list r s' L'
unfolding process_current
syscall-Served_example =
    syscall-Served mmap 0x1000 2 1000000 0 0 kernel one_list one-IsScheduler (omega arith)
      (1, omega arith, nonempty) one-clear 12
      (record {
        process = omega arith;
        text = λ _. (
          0,
          omega arith,
          record { below = omega arith; bytes = λ k lt. absurd (omega (arith, lt)); ends = refl },
        );
        buffer = λ h. absurd (omega (arith, h));
      })
