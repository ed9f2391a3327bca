-- ===== src/Thread/Start.antt =====
-- `tcb_init` of kernel/arch/i686/tcb.c and the first steps of the thread.
use osdev_course.Common.{
  ℕ, ◌+◌, ◌-◌, ◌^◌, ◌<◌, ◌≤◌, ◌≡◌, ◌≢◌, ◌⊎◌, inl, inr, refl, sym, ap, ◌∙◌, ◌==◌, Bool, true, false,
  some, List, if◌then◌else◌, arith, add32, sub32, length, Bool-cases, update_self,
}
use osdev_course.Kmalloc.{FreeList, Kmalloc, kmalloc}
use osdev_course.Kmalloc.Lists.{Free}
use osdev_course.Kmalloc.Blocks.{IsArena, Live, Got, Carved-bounds}
use osdev_course.Kmalloc.Alloc.{kmalloc-Got}
use osdev_course.Scheduler.{Scheduler}
use osdev_course.Thread.{
  Threads, Cpu, no_context, stack_words, clear_thread, clear_fields, set_thread, set_fields, ret,
  load_context, fill_tcb, tcb_init,
}
use osdev_course.Thread.Switch.{put_self, put_other, load_lem}

-- The words that a new thread finds on its stack, which ends at `top`.
abbrev FirstWords : (top startfunc exitfunc ud : ℕ) → (ℕ → ℕ) → Type 0
FirstWords top startfunc exitfunc ud word =
    (word (top - 16) ≡ startfunc)
    × (word (top - 12) ≡ exitfunc)
    × (word (top - 8) ≡ ud)
    × (word (top - 4) ≡ ud)

pub stack_words_lem :
    (top startfunc exitfunc ud : ℕ) (word : ℕ → ℕ)
    → 20 ≤ top
    → top < 2 ^ 32
    → let (esp, word') = stack_words top startfunc exitfunc ud word in
      (esp ≡ top - 16)
      × FirstWords top startfunc exitfunc ud word'
      × ((a : ℕ) → (a < top - 16) ⊎ (top ≤ a) → word' a ≡ word a)
stack_words_lem top startfunc exitfunc ud word room small =
    (omega arith, (ground arith, ground arith, ground arith, ground arith), λ a h. ground arith)

-- A thread that gets the processor for the first time: it enters `startfunc` with the argument `ud`,
-- and on a return from there, with these words still on its stack, `exitfunc` with `ud`.
pub record Starts (tcb pagedir startfunc exitfunc ud : ℕ) (t : Threads) : Type 0 where
  pub enters :
      (cpu : Cpu)
      → let (cpu', t') = load_context tcb cpu t in
        (cpu'.eip ≡ startfunc)
        × (cpu'.regs.eflags ≡ 0x202)
        × (cpu'.regs.pagedir ≡ (if pagedir == 0 then cpu.regs.pagedir else pagedir))
        × (t'.word (cpu'.regs.esp + 4) ≡ ud)
  pub exits :
      (cpu last : Cpu) (t'' : Threads)
      → let (cpu', t') = load_context tcb cpu t in
        last.regs.esp ≡ cpu'.regs.esp
        → t''.word cpu'.regs.esp ≡ t'.word cpu'.regs.esp
        → t''.word (cpu'.regs.esp + 8) ≡ t'.word (cpu'.regs.esp + 8)
        → ((ret last t'').eip ≡ exitfunc) × (t''.word ((ret last t'').regs.esp + 4) ≡ ud)

module _ (tcb pagedir startfunc exitfunc ud top : ℕ) (t : Threads) (room : 20 ≤ top)
    (small : top < 2 ^ 32) (words : FirstWords top startfunc exitfunc ud t.word)
    (c : t.context tcb ≡ record no_context {
      pagedir = pagedir;
      eflags = 0x202;
      esp = top - 16;
      esp0 = sub32 (top - 16) 32;
    }) where
  loaded :
      (cpu : Cpu)
      → (load_context tcb cpu t).0 ≡ record {
        eip = t.word (top - 16);
        regs = record no_context {
          eflags = 0x202;
          esp = top - 12;
          esp0 = sub32 (top - 16) 32;
          pagedir = if pagedir == 0 then cpu.regs.pagedir else pagedir;
        };
      }
  loaded cpu =
      let next : add32 (top - 16) 4 ≡ top - 12 = omega arith in
      load_lem tcb cpu t _ c (omega arith) (omega arith) ∙ rw next refl

  loaded-word : (cpu : Cpu) (a : ℕ) → a + 20 ≢ top → (load_context tcb cpu t).1.word a ≡ t.word a
  unfolding load_context
  loaded-word cpu a h = rw c (ground arith)

  pub starts : Starts tcb pagedir startfunc exitfunc ud t
  unfolding ret
  starts = record {
    enters = λ cpu.
        let at : (load_context tcb cpu t).0.regs.esp ≡ top - 12 =
          ap (λ x. x.regs.esp) (loaded cpu) in
        let arg : (top - 12) + 4 ≡ top - 8 = omega arith in
        (
          ap (λ x. x.eip) (loaded cpu) ∙ words.0,
          ap (λ x. x.regs.eflags) (loaded cpu),
          ap (λ x. x.regs.pagedir) (loaded cpu),
          rw (at, arg) (loaded-word cpu (top - 8) (omega arith) ∙ words.2),
        );
    exits = λ cpu last t'' e0 e1 e2.
        let at : (load_context tcb cpu t).0.regs.esp ≡ top - 12 =
          ap (λ x. x.regs.esp) (loaded cpu) in
        let arg : (top - 12) + 8 ≡ top - 4 = omega arith in
        let next : add32 (top - 12) 4 + 4 ≡ top - 4 = omega arith in
        (
          rw (e0) (e1 ∙ rw (at) (loaded-word cpu (top - 12) (omega arith) ∙ words.1)),
          rw (e0, at, next)
              (ap t''.word (sym arg)
                ∙ ap (λ x. t''.word (x + 8)) (sym at)
                ∙ e2
                ∙ rw (at, arg) (loaded-word cpu (top - 4) (omega arith) ∙ words.3)),
        );
  }

set_thread-Starts :
    (tcb process pagedir startfunc exitfunc ud top : ℕ) (t : Threads)
    → 20 ≤ top
    → top < 2 ^ 32
    → Starts tcb pagedir startfunc exitfunc ud
        (set_thread tcb process pagedir top startfunc exitfunc ud (clear_thread tcb t))
set_thread-Starts tcb process pagedir startfunc exitfunc ud top t room small =
    let (esp, words, _) = stack_words_lem top startfunc exitfunc ud t.word room small in
    starts tcb pagedir startfunc exitfunc ud top
      (set_thread tcb process pagedir top startfunc exitfunc ud (clear_thread tcb t)) room small
      words
      (put_self tcb _ (clear_thread tcb t).context
        ∙ rw (put_self tcb no_context t.context, esp) refl)

-- What `tcb_init` leaves behind when it returns `done`.
pub record Prepared {M : Type 0} (s : Kmalloc M) (free : Free) (blocks : List ℕ)
    (tcb process pagedir kstack_size startfunc exitfunc ud : ℕ) (t : Threads) (done : Bool)
    (t' : Threads) (threads' : Scheduler) (s' : Kmalloc M) : Type 0 where
  -- The thread has a stack of its own, which no caller of kmalloc held, and is ready to run on it.
  pub ready :
      done ≡ true
      → Starts tcb pagedir startfunc exitfunc ud t'
        × (t'.process tcb ≡ process)
        × ((y : ℕ)
            → Live free blocks y
            → (threads'.kstack tcb + kstack_size ≤ y) ⊎ (y + s.size y ≤ threads'.kstack tcb - 16))
        × ((a : ℕ)
            → (a < threads'.kstack tcb) ⊎ (threads'.kstack tcb + kstack_size ≤ a)
            → t'.word a ≡ t.word a)
  -- Without memory for the stack, no word changes and the thread has no stack.
  pub failed : done ≡ false → (t'.word ≡ t.word) × (threads'.kstack tcb ≡ 0)
  -- The other threads keep their contexts.
  pub others : (a : ℕ) → a ≢ tcb → (t'.context a ≡ t.context a) × (t'.process a ≡ t.process a)
  -- The allocator stays well formed.
  pub arena : (free' : Free) × (blocks' : List ℕ) × IsArena s' free' blocks'

module _ {M : Type 0} (mmap : (mem paddr size flag : ℕ) → M → M) where
  stack_bound :
      (s s' : Kmalloc M) (free free' : Free) (blocks blocks' : List ℕ) (n a : ℕ)
      → Got s free blocks n a s' free' blocks'
      → (a == 0) ≡ false
      → (a + n < 2 ^ 32) × ((y : ℕ) → Live free blocks y → (a + n ≤ y) ⊎ (y + s.size y ≤ a - 16))
  stack_bound s s' free free' blocks blocks' n a g z = elim (g.block) [
    | inl null ↦ ground arith
    | inr (low, live, room, apart) ↦
        let v = g.arena in
        let b =
          Carved-bounds s'.size s'.heap.start (s'.heap.start + s'.heap.ptr) (a - 16) blocks'
            v.carved live.cut in
        let used = v.heap.used in let inside = v.heap.inside in (omega arith, apart)
  ]

  ends :
      (fuel tcb process pagedir priority quantum kstack_size startfunc exitfunc ud a : ℕ)
      (t : Threads) (threads : Scheduler) (s s' : Kmalloc M)
      → kmalloc mmap fuel kstack_size s ≡ some (a, s')
      → tcb_init mmap fuel tcb process pagedir priority quantum kstack_size startfunc exitfunc ud t
          threads s
        ≡ fill_tcb tcb process pagedir priority quantum kstack_size startfunc exitfunc ud
            (some (a, s'))
            (clear_thread tcb t)
            (clear_fields tcb threads)
  unfolding tcb_init
  ends fuel tcb process pagedir priority quantum kstack_size startfunc exitfunc ud a t threads s s'
        e =
      ap
        (λ r.
          fill_tcb tcb process pagedir priority quantum kstack_size startfunc exitfunc ud r
            (clear_thread tcb t) (clear_fields tcb threads))
        e

  -- With a well-formed allocator, more fuel than a free list has nodes, and a stack of 20 bytes or
  -- more whose size with 1024 and the heap's size stays below 4 GiB, tcb_init ends and the
  -- allocator stays well formed. If it returns true, the thread has its process and a stack that
  -- overlaps no block that was held, and no word outside of the stack changes; when its context is
  -- loaded, it enters startfunc with the argument ud, with interrupts on and in its page directory
  -- (the one in use if that is 0), and on a return with the words above still on its stack it
  -- enters exitfunc with the argument ud. If it returns false, it has no stack and no word
  -- changes. The contexts and the processes of other TCBs stay.
  pub tcb_init-Prepared :
      (fuel tcb process pagedir priority quantum kstack_size startfunc exitfunc ud : ℕ)
      (t : Threads) (threads : Scheduler) (s : Kmalloc M) (free : Free) (blocks : List ℕ)
      → IsArena s free blocks
      → 20 ≤ kstack_size
      → kstack_size + 1024 + s.heap.size < 2 ^ 32
      → ((l : FreeList) → length (free l) < fuel)
      → (done : Bool) × (t' : Threads) × (threads' : Scheduler) × (s' : Kmalloc M) × (tcb_init mmap
            fuel tcb process pagedir priority quantum kstack_size startfunc exitfunc ud t threads s
          ≡ some (done, t', threads', s'))
        × Prepared s free blocks tcb process pagedir kstack_size startfunc exitfunc ud t done t'
            threads' s'
  unfolding fill_tcb
  tcb_init-Prepared fuel tcb process pagedir priority quantum kstack_size startfunc exitfunc ud t
        threads s free blocks v room small enough =
      let (a, s', free', blocks', e, g) =
        kmalloc-Got mmap fuel kstack_size s free blocks v small enough in
      elim (Bool-cases (a == 0)) [
        | inl z ↦ (
          false,
          clear_thread tcb t,
          clear_fields tcb threads,
          s',
          ends fuel tcb process pagedir priority quantum kstack_size startfunc exitfunc ud a t
                threads s s' e
              ∙ rw (z) refl,
          record {
            ready = λ f. cc;
            failed = λ _. (refl, ground arith);
            others = λ x h. (put_other tcb no_context t.context x h, ground arith);
            arena = (free', blocks', g.arena);
          },
        )
        | inr z ↦ (
          true,
          set_thread tcb process pagedir (add32 a kstack_size) startfunc exitfunc ud
              (clear_thread tcb t),
          set_fields tcb a priority quantum (clear_fields tcb threads),
          s',
          ends fuel tcb process pagedir priority quantum kstack_size startfunc exitfunc ud a t
                threads s s' e
              ∙ rw (z) refl,
          record {
            ready = λ _.
                let (bound, apart) = stack_bound s s' free free' blocks blocks' kstack_size a g z in
                let top : add32 a kstack_size ≡ a + kstack_size = omega arith in
                let own = update_self (clear_fields tcb threads).kstack tcb a in
                let (_, _, rest) =
                  stack_words_lem (a + kstack_size) startfunc exitfunc ud t.word (omega arith)
                    bound in
                (
                  set_thread-Starts tcb process pagedir startfunc exitfunc ud (add32 a kstack_size)
                      t (omega arith) (omega arith),
                  update_self (clear_thread tcb t).process tcb process,
                  rw (own) apart,
                  rw (own, top) (λ x out. rest x (ground arith)),
                );
            failed = λ f. cc;
            others = λ x h. (
              put_other tcb _ (clear_thread tcb t).context x h
                  ∙ put_other tcb no_context t.context x h,
              ground arith,
            );
            arena = (free', blocks', g.arena);
          },
        )
      ]
