-- ===== src/Thread.antt =====
-- kernel/arch/i686/tcb.c and tcb.h, and the registers in scheduler.s of that folder: how a new thread's
-- stack is laid out, and what a switch of threads saves and loads. TCBs are apart from each other and
-- from the stacks. Stacks are in the kernel's half, which all address spaces share, so that a word
-- has one value whatever the page directory. The fields that the lists use are in `Scheduler`.
pub mod Switch
pub mod Start
mod Tests
use osdev_course.Common.{
  ℕ, ◌+◌, ◌*◌, Bool, true, false, Option, none, some, ◌==◌, if◌then◌else◌, add32, sub32, update,
}
use osdev_course.Kmalloc.{Kmalloc, kmalloc}
use osdev_course.Scheduler.{Scheduler, zero_from}

-- The registers, `context` of `struct TCB`.
pub record Context : Type 0 where
  pub eax : ℕ
  pub ebx : ℕ
  pub ecx : ℕ
  pub edx : ℕ
  pub ebp : ℕ
  pub esp : ℕ
  pub esi : ℕ
  pub edi : ℕ
  pub eflags : ℕ
  pub esp0 : ℕ
  pub pagedir : ℕ

-- The TCBs' contexts and processes by address, and the words of the stacks by address.
pub record Threads : Type 0 where
  pub context : ℕ → Context
  pub process : ℕ → ℕ
  pub word : ℕ → ℕ

-- The processor: `regs.esp0` is the word of the task state segment, `regs.pagedir` is CR3.
pub record Cpu : Type 0 where
  pub eip : ℕ
  pub regs : Context

abbrev pub no_context : Context
no_context = record {
  eax = 0;
  ebx = 0;
  ecx = 0;
  edx = 0;
  ebp = 0;
  esp = 0;
  esi = 0;
  edi = 0;
  eflags = 0;
  esp0 = 0;
  pagedir = 0;
}

-- A thread's context is overwritten.
abbrev pub put_context : ℕ → Context → (ℕ → Context) → ℕ → Context
put_context tcb c f a = if a == tcb then c else f a

-- `pop` and `push` of a word, on the stack pointer and the words.
abbrev pub push : ℕ → ℕ × (ℕ → ℕ) → ℕ × (ℕ → ℕ)
push v (esp, word) = (sub32 esp 4, update word (sub32 esp 4) v)

abbrev pub pop : ℕ × (ℕ → ℕ) → ℕ × ℕ × (ℕ → ℕ)
pop (esp, word) = (word esp, add32 esp 4, word)

-- The first part of `scheduler_yield`: the registers go to the thread's context. EFLAGS and ESI
-- take the way over the stack.
unfoldable pub save_context : ℕ → Cpu → Threads → Threads
save_context tcb cpu t =
    let r = cpu.regs in
    let (esi, esp, word) = pop (push r.esi (push r.eflags (r.esp, t.word))) in
    let (eflags, esp, word) = pop (esp, word) in
    record t {
      word = word;
      context =
          put_context tcb
            (record (t.context tcb) {
              eax = r.eax;
              ebx = r.ebx;
              ecx = r.ecx;
              edx = r.edx;
              ebp = r.ebp;
              esp = esp;
              esi = esi;
              edi = r.edi;
              eflags = eflags;
            })
            t.context;
    }

-- `ret`
unfoldable pub ret : Cpu → Threads → Cpu
ret cpu t =
    let (eip, esp, _) = pop (cpu.regs.esp, t.word) in
    record { eip = eip; regs = record cpu.regs { esp = esp } }

-- The last part of `scheduler_yield`: the registers come from the context of the thread picked,
-- EFLAGS over its stack. A context without a page directory keeps the one in use.
unfoldable pub load_context : ℕ → Cpu → Threads → Cpu × Threads
unfolding ret
load_context tcb cpu t =
    let c = t.context tcb in
    let (eflags, esp, word) = pop (push c.eflags (c.esp, t.word)) in
    let t = record t { word = word } in
    let dir = if c.pagedir == 0 then cpu.regs.pagedir else c.pagedir in
    (ret (record cpu { regs = record c { esp = esp; eflags = eflags; pagedir = dir } }) t, t)

-- `scheduler_yield`, with `to` as the thread that `scheduler_pick` finds. The frame of that call, below
-- the stack pointer of the thread that gives way, is left out.
unfoldable pub switch_context : (from to : ℕ) → Cpu → Threads → Cpu × Threads
unfolding save_context load_context
switch_context from to cpu t = load_context to cpu (save_context from cpu t)

-- The words that `tcb_init` puts on a stack that ends at `top`.
abbrev pub stack_words : (top startfunc exitfunc ud : ℕ) → (ℕ → ℕ) → ℕ × (ℕ → ℕ)
stack_words top startfunc exitfunc ud word =
    push startfunc (push exitfunc (push ud (push ud (top, word))))

-- `tcb_init` zeroes the 84 bytes of the TCB: what is in `Threads`, and the scheduler's fields.
abbrev pub clear_thread : ℕ → Threads → Threads
clear_thread tcb t = record t {
  context = put_context tcb no_context t.context;
  process = update t.process tcb 0;
}

abbrev pub clear_fields : ℕ → Scheduler → Scheduler
clear_fields tcb s =
    let z = λ (f : ℕ → ℕ). zero_from tcb 84 f in
    record s {
      next = z s.next;
      prev = z s.prev;
      elapsed_of = z s.elapsed_of;
      quantum_of = z s.quantum_of;
      sleep_tick = z s.sleep_tick;
      priority = z s.priority;
      thread_id = z s.thread_id;
      flags = z s.flags;
      kstack = z s.kstack;
    }

-- The rest of `tcb_init`, with a stack that ends at `top`.
abbrev pub set_thread : (tcb process pagedir top startfunc exitfunc ud : ℕ) → Threads → Threads
set_thread tcb process pagedir top startfunc exitfunc ud t =
    let (esp, word) = stack_words top startfunc exitfunc ud t.word in
    record {
      context =
          put_context tcb
            (record ((t.context) tcb) {
              pagedir = pagedir;
              eflags = 0x202;
              esp = esp;
              esp0 = sub32 esp 32;
            })
            t.context;
      process = update t.process tcb process;
      word = word;
    }

abbrev pub set_fields : (tcb kstack priority quantum : ℕ) → Scheduler → Scheduler
set_fields tcb kstack priority quantum s = record s {
  kstack = update s.kstack tcb kstack;
  priority = update s.priority tcb priority;
  quantum_of = update s.quantum_of tcb quantum;
  elapsed_of = update s.elapsed_of tcb 0;
  prev = update s.prev tcb 0;
  next = update s.next tcb 0;
}

module _ {M : Type 0} where
  -- `tcb_init` behind the request for the stack, whose result is the third argument from the end.
  unfoldable pub fill_tcb :
      (tcb process pagedir priority quantum kstack_size startfunc exitfunc ud : ℕ)
      → Option (ℕ × Kmalloc M)
      → Threads
      → Scheduler
      → Option (Bool × Threads × Scheduler × Kmalloc M)
  fill_tcb tcb process pagedir priority quantum kstack_size startfunc exitfunc ud none t s = none
  fill_tcb tcb process pagedir priority quantum kstack_size startfunc exitfunc ud (some (kstack, k))
        t s =
      let top = add32 kstack kstack_size in
      some (
        if kstack == 0 then (false, t, s, k) else (
          true,
          set_thread tcb process pagedir top startfunc exitfunc ud t,
          set_fields tcb kstack priority quantum s,
          k,
        ))

  -- `tcb_init`, on the threads, on the scheduler's fields and on the allocator. `none` means that
  -- kmalloc ran out of fuel.
  unfoldable pub tcb_init :
      (mmap : (mem paddr size flag : ℕ) → M → M)
      (fuel tcb process pagedir priority quantum kstack_size startfunc exitfunc ud : ℕ)
      → Threads
      → Scheduler
      → Kmalloc M
      → Option (Bool × Threads × Scheduler × Kmalloc M)
  unfolding kmalloc fill_tcb
  tcb_init mmap fuel tcb process pagedir priority quantum kstack_size startfunc exitfunc ud t s k =
      fill_tcb tcb process pagedir priority quantum kstack_size startfunc exitfunc ud
        (kmalloc mmap fuel kstack_size k) (clear_thread tcb t) (clear_fields tcb s)

-- `process_current` of kernel/process.cpp
unfoldable pub process_current : Scheduler → Threads → ℕ
process_current s t = t.process s.current
