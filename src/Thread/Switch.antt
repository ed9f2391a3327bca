-- ===== src/Thread/Switch.antt =====
-- The switch of threads in kernel/arch/i686/scheduler.s.
use osdev_course.Common.{
  ℕ, ◌+◌, ◌^◌, ◌<◌, ◌≤◌, ◌≡◌, ◌≢◌, refl, sym, ◌∙◌, ◌==◌, if◌then◌else◌, arith, add32, sub32, update,
}
use osdev_course.Thread.{
  Context, Threads, Cpu, put_context, save_context, ret, load_context, switch_context,
}

pub push-pop : (n : ℕ) → 4 ≤ n → n < 2 ^ 32 → add32 (sub32 n 4) 4 ≡ n
push-pop n room small = omega arith

pub put_self : (tcb : ℕ) (c : Context) (f : ℕ → Context) → put_context tcb c f tcb ≡ c
put_self tcb c f = ground arith

pub put_other :
    (tcb : ℕ) (c : Context) (f : ℕ → Context) (a : ℕ) → a ≢ tcb → put_context tcb c f a ≡ f a
put_other tcb c f a h = ground arith

module _ (tcb : ℕ) (cpu : Cpu) (t : Threads) (room : 8 ≤ cpu.regs.esp)
    (small : cpu.regs.esp < 2 ^ 32) where
  esi_kept :
      (update
          (update t.word (sub32 cpu.regs.esp 4) cpu.regs.eflags)
          (sub32 (sub32 cpu.regs.esp 4) 4)
          cpu.regs.esi)
        (sub32 (sub32 cpu.regs.esp 4) 4)
      ≡ cpu.regs.esi
  esi_kept = ground arith

  esp_kept : add32 (add32 (sub32 (sub32 cpu.regs.esp 4) 4) 4) 4 ≡ cpu.regs.esp
  esp_kept = omega arith

  eflags_kept :
      (update
          (update t.word (sub32 cpu.regs.esp 4) cpu.regs.eflags)
          (sub32 (sub32 cpu.regs.esp 4) 4)
          cpu.regs.esi)
        (add32 (sub32 (sub32 cpu.regs.esp 4) 4) 4)
      ≡ cpu.regs.eflags
  eflags_kept = ground arith

  -- The context has the registers as they were.
  pub saved :
      (save_context tcb cpu t).context tcb
      ≡ record cpu.regs { esp0 = (t.context tcb).esp0; pagedir = (t.context tcb).pagedir }
  unfolding save_context
  saved = put_self tcb _ t.context ∙ rw (esi_kept, esp_kept, eflags_kept) refl

  pub saved-other : (a : ℕ) → a ≢ tcb → (save_context tcb cpu t).context a ≡ t.context a
  unfolding save_context
  saved-other a h = put_other tcb _ t.context a h

  pub saved-word :
      (a : ℕ)
      → a + 4 ≢ cpu.regs.esp
      → a + 8 ≢ cpu.regs.esp
      → (save_context tcb cpu t).word a ≡ t.word a
  unfolding save_context
  saved-word a h h' = ground arith

-- The processor takes over a context and returns on its stack.
pub load_lem :
    (tcb : ℕ) (cpu : Cpu) (t : Threads) (c : Context)
    → t.context tcb ≡ c
    → 4 ≤ c.esp
    → c.esp < 2 ^ 32
    → (load_context tcb cpu t).0 ≡ record {
      eip = t.word c.esp;
      regs = record c {
        esp = add32 c.esp 4;
        pagedir = if c.pagedir == 0 then cpu.regs.pagedir else c.pagedir;
      };
    }
unfolding load_context ret
load_lem tcb cpu t c e room small =
    let esp = push-pop c.esp room small in
    let self : update t.word (sub32 c.esp 4) c.eflags (sub32 c.esp 4) ≡ c.eflags = ground arith in
    let below : update t.word (sub32 c.esp 4) c.eflags c.esp ≡ t.word c.esp = ground arith in
    rw (e, esp, self, below) refl

-- A thread gives up the processor, with its return address on top of its stack at an address from
-- 8 up to 4 GiB; later another one gives it up to the first, on a stack pointer in the same range
-- that is not 4 or 8 above the first one's. If the context and the return address of the first
-- thread are as the first switch left them, it goes on behind its call with all its registers, the
-- stack pointer above the return address, the task state segment's stack from its context, and its
-- page directory, or the one in use if it has none.
pub switch_context-resumes :
    (from to : ℕ) (cpu cpu' : Cpu) (t t' : Threads)
    → from ≢ to
    → 8 ≤ cpu.regs.esp
    → cpu.regs.esp < 2 ^ 32
    → 8 ≤ cpu'.regs.esp
    → cpu'.regs.esp < 2 ^ 32
    → t'.context from ≡ (switch_context from to cpu t).1.context from
    → t'.word cpu.regs.esp ≡ t.word cpu.regs.esp
    → cpu'.regs.esp ≢ cpu.regs.esp + 4
    → cpu'.regs.esp ≢ cpu.regs.esp + 8
    → (switch_context to from cpu' t').0 ≡ record {
      eip = t.word cpu.regs.esp;
      regs = record cpu.regs {
        esp = add32 cpu.regs.esp 4;
        esp0 = (t.context from).esp0;
        pagedir =
            if (t.context from).pagedir == 0 then cpu'.regs.pagedir else (t.context from).pagedir;
      };
    }
unfolding switch_context load_context
switch_context-resumes from to cpu cpu' t t' other room small room' small' kept held apart apart' =
    load_lem from cpu' (save_context to cpu' t') _
      (saved-other to cpu' t' room' small' from other ∙ kept ∙ saved from cpu t room small)
      (omega arith) small
    ∙ rw
        (
          saved-word to cpu' t' room' small' cpu.regs.esp (λ h. apart (sym h))
              (λ h. apart' (sym h)),
          held,
        )
        refl
