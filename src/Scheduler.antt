-- ===== src/Scheduler.antt =====
-- kernel/scheduler.c and kernel/scheduler.h: four queues of ready threads by priority, the list of
-- sleeping threads, the list of zombies, and the choice of the next thread.
-- A `struct TCB*` is an address, 0 for NULL; each field of the TCBs in memory is a function of the
-- address. The lists' heads are TCBs inside `g_scheduler`, whose address is the parameter `base`:
-- the list `q` is `active[q]` for `q < 4`, `slept` for 4 and `zombie` for 5.
pub mod Links
pub mod Lists
pub mod Moves
pub mod Sleep
pub mod Retire
pub mod Holds
pub mod Fate
pub mod Awake
pub mod Target
pub mod Pick
pub mod Switch
pub mod Boot
pub mod Tests
use Prim.Native.Nat.{bit_xor}
use osdev_course.Common.{
  ℕ, zero, suc, ◌+◌, ◌-◌, ◌*◌, Bool, true, false, List, [], ◌∷◌, bit_and, bit_or, ◌==◌, leb, ltb,
  if◌then◌else◌, add32, sub32, Run, ok, fault, out_of_fuel, ◌>>=◌, update,
}
use osdev_course.Kmalloc.{Kmalloc, kfree}

-- The fields of the TCBs that the scheduler reads or writes, and `g_scheduler` but for its heads.
pub record Scheduler : Type 0 where
  pub next : ℕ → ℕ
  pub prev : ℕ → ℕ
  pub elapsed_of : ℕ → ℕ
  pub quantum_of : ℕ → ℕ
  pub sleep_tick : ℕ → ℕ
  pub priority : ℕ → ℕ
  pub thread_id : ℕ → ℕ
  pub flags : ℕ → ℕ
  pub kstack : ℕ → ℕ
  pub tail : ℕ → ℕ
  pub elapsed : ℕ
  pub quantum : ℕ
  pub current : ℕ
  pub next_thread_id : ℕ

abbrev pub flag_slept : ℕ
flag_slept = 1

abbrev pub flag_zombie : ℕ
flag_zombie = 2

-- `SCHEDULE_PRIORITY_MAX`, the number of ready queues, and the two other lists behind them.
abbrev pub priority_max : ℕ
priority_max = 4

abbrev pub slept : ℕ
slept = 4

abbrev pub zombie : ℕ
zombie = 5

-- A field of the TCBs, where the bytes from an address on are zeroed.
abbrev pub zero_from : ℕ → ℕ → (ℕ → ℕ) → ℕ → ℕ
zero_from from size f a = if leb from a then (if ltb a (from + size) then 0 else f a) else f a

-- `scheduler_current`
pub scheduler_current : Scheduler → ℕ
scheduler_current s = s.current

-- `scheduler_add` links a thread behind the last of its priority.
unfoldable pub scheduler_add : ℕ → Scheduler → Scheduler
scheduler_add tcb s =
    let q = s.priority tcb in
    let last = s.tail q in
    record s {
      next = update (update s.next tcb 0) last tcb;
      prev = update s.prev tcb last;
      tail = update s.tail q tcb;
    }

-- `scheduler_run` numbers a new thread and makes it ready.
unfoldable pub scheduler_run : ℕ → Scheduler → Scheduler
unfolding scheduler_add
scheduler_run tcb s = scheduler_add tcb (record s {
  thread_id = update s.thread_id tcb s.next_thread_id;
  next_thread_id = add32 s.next_thread_id 1;
})

-- The walk along the sleepers: each stores its ticks behind the one before it, so the ticks of
-- those passed are taken off the newcomer's, and the newcomer's off the one that it stops at.
-- The result is the node to link behind, and its successor.
unfoldable pub find_slot : ℕ → ℕ → ℕ → Scheduler → Run (ℕ × ℕ × Scheduler)
find_slot zero current at s = out_of_fuel
find_slot (suc fuel) current at s =
    let next = s.next at in
    let mine = s.sleep_tick current in
    let its = s.sleep_tick next in
    let rest =
      find_slot fuel current next
        (record s { sleep_tick = update s.sleep_tick current (sub32 mine its) }) in
    if next == 0
    then ok (at, 0, s)
    else if leb mine its
    then ok (at, next, record s { sleep_tick = update s.sleep_tick next (sub32 its mine) })
    else rest

-- The newcomer is linked between the two.
unfoldable pub link_slept : ℕ → ℕ × ℕ × Scheduler → Scheduler
link_slept current (at, next, s) =
    let prev = update s.prev current at in
    record s {
      next = update (update s.next current next) at current;
      prev = if next == 0 then prev else update prev next current;
    }

-- The last part: a thread that has used up its quantum starts anew. No thread to run is a read
-- through NULL.
unfoldable pub start : ℕ × Scheduler → Run (ℕ × Scheduler)
start (target, s) =
    let spent =
      if leb (s.quantum_of target) (s.elapsed_of target)
      then update s.elapsed_of target 0
      else s.elapsed_of in
    if target == 0
    then fault
    else ok (
      target,
      record s {
        elapsed_of = spent;
        elapsed = 0;
        quantum = sub32 (s.quantum_of target) (spent target);
      },
    )

module _ (base : ℕ) where
  -- The address of a list's head: three words, then lists of 88 bytes.
  abbrev pub head : ℕ → ℕ
  head q = base + 12 + 88 * q

  -- The first part of `scheduler_pick`: the running thread goes to the list that its flags name.
  unfoldable pub retire : ℕ → Scheduler → Run Scheduler
  unfolding scheduler_add find_slot link_slept
  retire fuel s =
      let current = s.current in
      let s = record s {
        elapsed_of = update s.elapsed_of current (add32 (s.elapsed_of current) s.elapsed);
      } in
      let dead = record s {
        next = update (update s.next current (s.next (head zombie))) (head zombie) current;
      } in
      let asleep = find_slot fuel current (head slept) s >>= λ r. ok (link_slept current r) in
      if bit_and (s.flags current) flag_zombie == 0
      then (if bit_and (s.flags current) flag_slept == 0
          then ok (scheduler_add current s)
          else asleep)
      else ok dead

  -- The second part: sleepers whose ticks have passed become ready.
  unfoldable pub awake : ℕ → Scheduler → Run Scheduler
  unfolding scheduler_add
  awake zero s = out_of_fuel
  awake (suc fuel) s =
      let first = s.next (head slept) in
      let second = s.next first in
      let woken = scheduler_add first (record s {
        sleep_tick = update s.sleep_tick first 0;
        flags = update s.flags first (bit_xor (s.flags first) flag_slept);
        next = update s.next (head slept) second;
        prev = if second == 0 then s.prev else update s.prev second (s.prev first);
      }) in
      let rest = awake fuel woken in
      if first == 0
      then ok s
      else if ltb s.elapsed (s.sleep_tick first)
      then ok (record s {
        sleep_tick = update s.sleep_tick first (sub32 (s.sleep_tick first) s.elapsed);
      })
      else rest

  -- The third part: the first thread of the first queue that has one, taken off it; 0 if none has.
  -- The first argument counts the queues left, the second is the loop's `i`.
  unfoldable pub take_target : ℕ → ℕ → Scheduler → ℕ × Scheduler
  take_target zero i s = (0, s)
  take_target (suc rounds) i s =
      let target = s.next (head i) in
      let after = s.next target in
      let rest = take_target rounds (i + 1) s in
      if target == 0 then rest else (
        target,
        record s {
          next = update s.next (head i) after;
          prev = if after == 0 then s.prev else update s.prev after (head i);
          tail = if s.tail i == target then update s.tail i (head i) else s.tail;
        },
      )

  -- `scheduler_pick`
  unfoldable pub scheduler_pick : ℕ → Scheduler → Run (ℕ × Scheduler)
  unfolding retire awake take_target start
  scheduler_pick fuel s = do
    s ← retire fuel s
    s ← awake fuel s
    start (take_target priority_max 0 s)

  -- `scheduler_yield` of arch/i686/scheduler.s, less the registers: the thread picked runs on.
  unfoldable pub scheduler_yield : ℕ → Scheduler → Run Scheduler
  unfolding scheduler_pick
  scheduler_yield fuel s =
      scheduler_pick fuel s >>= λ (target, s). ok (record s { current = target })

  -- `scheduler_tick` of arch/i686/scheduler.s
  unfoldable pub scheduler_tick : ℕ → Scheduler → Run Scheduler
  unfolding scheduler_yield
  scheduler_tick fuel s =
      let s = record s { elapsed = add32 s.elapsed 1; quantum = sub32 s.quantum 1 } in
      if s.quantum == 0 then scheduler_yield fuel s else ok s

  -- `scheduler_sleep`
  unfoldable pub scheduler_sleep : ℕ → ℕ → Scheduler → Run Scheduler
  unfolding scheduler_yield
  scheduler_sleep fuel tick s = scheduler_yield fuel (
      if tick == 0 then s else record s {
        sleep_tick = update s.sleep_tick s.current tick;
        flags = update s.flags s.current (bit_or (s.flags s.current) flag_slept);
      })

  -- `scheduler_exitthread`
  unfoldable pub scheduler_exitthread : ℕ → Scheduler → Run Scheduler
  unfolding scheduler_yield
  scheduler_exitthread fuel s =
      scheduler_yield fuel
        (record s { flags = update s.flags s.current (bit_or (s.flags s.current) flag_zombie) })

  -- `scheduler_cleanzombie` takes the last thread to exit off its list and frees it, with its
  -- stack. The result tells whether there was one.
  unfoldable pub scheduler_cleanzombie :
      {M : Type 0} → Scheduler → Kmalloc M → Bool × Scheduler × Kmalloc M
  unfolding kfree
  scheduler_cleanzombie s k =
      let tcb = s.next (head zombie) in
      let stack = s.kstack tcb in
      if tcb == 0 then (false, s, k) else (
        true,
        record s { next = update s.next (head zombie) (s.next tcb) },
        kfree tcb (if stack == 0 then k else kfree stack k),
      )

  -- `scheduler_init`, with the address of `g_kthread_main`. A TCB's fields are zeroed with the
  -- object that it stands in, of 540 or of 84 bytes.
  unfoldable pub scheduler_init : ℕ → Scheduler → Scheduler
  scheduler_init kthread s =
      let zeroed = λ (f : ℕ → ℕ). zero_from kthread 84 (zero_from base 540 f) in
      record s {
        next = zeroed s.next;
        prev = zeroed s.prev;
        elapsed_of = zeroed s.elapsed_of;
        quantum_of = update (zeroed s.quantum_of) kthread 4;
        sleep_tick = zeroed s.sleep_tick;
        priority = update (zeroed s.priority) kthread 3;
        thread_id = zeroed s.thread_id;
        flags = zeroed s.flags;
        kstack = zeroed s.kstack;
        tail = head;
        elapsed = 0;
        quantum = 1;
        current = kthread;
      }
