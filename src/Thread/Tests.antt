-- ===== src/Thread/Tests.antt =====
-- Threads run on inputs, and the theorems at inputs.
use osdev_course.Common.{ℕ, ◌+◌, ◌*◌, ◌≡◌, refl, Bool, some, [], arith}
use osdev_course.Kmalloc.{Kmalloc}
use osdev_course.Kmalloc.Lists.{Free}
use osdev_course.Kmalloc.Blocks.{IsArena}
use osdev_course.Scheduler.{Scheduler}
use osdev_course.Thread.{
  Threads, Cpu, no_context, save_context, load_context, switch_context, tcb_init,
}
use osdev_course.Thread.Start.{Prepared, tcb_init-Prepared}
use osdev_course.Thread.Switch.{switch_context-resumes}

-- No block has been cut yet. The memory manager counts its calls.
abbrev mmap : ℕ → ℕ → ℕ → ℕ → ℕ → ℕ
mmap mem paddr size flag m = m + 1

abbrev fresh : Kmalloc ℕ
fresh = record {
  head = λ _. 0;
  next = λ _. 0;
  size = λ _. 0;
  heap = record { start = 0xF0200000; ptr = 0; size = 1024 * 1024 * 16; flag = 0 };
  mmu = 0;
}

abbrev none_free : Free
none_free _ = []

fresh-IsArena : IsArena fresh none_free []
fresh-IsArena = record {
  lists = record {
    chain = λ _. refl;
    distinct = λ _. tt;
    apart = λ l k x e m. refl;
    sized = λ l x m. cc;
    room = λ l x m. cc;
  };
  heap = omega arith;
  carved = omega arith;
  sizes = λ x m. cc;
  known = λ l x m. m;
}

-- Memory of which nothing is known but that it holds words.
abbrev threads : Threads
threads = record { context = λ _. no_context; process = λ _. 0; word = λ _. 9 }

abbrev scheduler : Scheduler
scheduler = record {
  next = λ _. 7;
  prev = λ _. 7;
  elapsed_of = λ _. 7;
  quantum_of = λ _. 7;
  sleep_tick = λ _. 7;
  priority = λ _. 7;
  thread_id = λ _. 7;
  flags = λ _. 7;
  kstack = λ _. 7;
  tail = λ _. 7;
  elapsed = 0;
  quantum = 1;
  current = 0x2000;
  next_thread_id = 1;
}

tcb_init-Prepared_example :
    (done : Bool) × (t' : Threads) × (threads' : Scheduler) × (s' : Kmalloc ℕ) × (tcb_init mmap 1
        0x3000 0x5000 0 1 4 4096 0x100 0x200 0x300 threads scheduler fresh
      ≡ some (done, t', threads', s'))
    × Prepared fresh none_free [] 0x3000 0x5000 0 4096 0x100 0x200 0x300 threads done t' threads' s'
tcb_init-Prepared_example =
    tcb_init-Prepared mmap 1 0x3000 0x5000 0 1 4 4096 0x100 0x200 0x300 threads scheduler fresh
      none_free [] fresh-IsArena (omega arith) (omega arith) (λ _. omega arith)

-- The thread at 0x1000, with its return address 9 on its stack.
abbrev first : Cpu
first = record {
  eip = 0x400;
  regs = record no_context { eax = 5; esi = 6; esp = 0x8000; eflags = 0x202; pagedir = 0x7000 };
}

abbrev second : Cpu
second = record { eip = 0x500; regs = record no_context { esp = 0x9000; pagedir = 0x6000 } }

abbrev away : Threads
unfolding switch_context save_context load_context
away = (switch_context 0x1000 0x2000 first threads).1

switch_context-resumes_example : (switch_context 0x2000 0x1000 second away).0 ≡ record {
  eip = 9;
  regs = record no_context { eax = 5; esi = 6; esp = 0x8004; eflags = 0x202; pagedir = 0x6000 };
}
unfolding away switch_context save_context load_context
switch_context-resumes_example =
    switch_context-resumes 0x1000 0x2000 first second threads away (omega arith) (omega arith)
      (omega arith) (omega arith) (omega arith) refl refl (omega arith) (omega arith)
