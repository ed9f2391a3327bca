-- ===== src/Syscall.antt =====
-- kernel/syscall_service.c and arch/i686/syscall.s: the services that a program asks of the kernel.
-- The output of kdebug is left out, but not the memory of the program that it reads. A read that the
-- page fault handler halts on, be it of a program's memory or through a NULL process, is a fault.
pub mod Read
pub mod Serve
mod Tests
use osdev_course.Common.{
  ℕ, zero, suc, ◌-◌, ◌*◌, ◌/◌, ◌%◌, ◌^◌, Option, none, some, ◌==◌, ltb, if◌then◌else◌, add32, Run,
  ok, fault, out_of_fuel, ◌>>=◌,
}
use osdev_course.Heap.{Heap, heap_alloc}
use osdev_course.Scheduler.{Scheduler, scheduler_sleep, scheduler_exitthread}
use osdev_course.Thread.{Threads, process_current}

-- What the services change or read: the scheduler, the processes' fields by address, the memory
-- manager, and the byte at an address of the program's, `none` where a read of it halts.
pub record Kernel (M : Type 0) : Type 0 where
  pub scheduler : Scheduler
  pub threads : Threads
  pub pid : ℕ → ℕ
  pub heap : ℕ → Heap
  pub mmu : M
  pub user : ℕ → Option ℕ

-- -1
abbrev pub minus_one : ℕ
minus_one = 2 ^ 32 - 1

-- A byte of the program's memory is read.
abbrev pub read_byte : Option ℕ → (ℕ → Run ℕ) → Run ℕ
read_byte none k = fault
read_byte (some c) k = k c

-- `kdebug` reads a string of the program for `%s`.
unfoldable pub read_string : (fuel at : ℕ) → (ℕ → Option ℕ) → Run ℕ
read_string zero at user = out_of_fuel
read_string (suc fuel) at user =
    let rest = read_string fuel (add32 at 1) user in
    read_byte (user at) (λ c. if c == 0 then ok at else rest)

-- The loop of `kservice_write`, with the number of bytes left.
unfoldable pub read_bytes : (left at : ℕ) → (ℕ → Option ℕ) → Run ℕ
read_bytes zero at user = ok at
read_bytes (suc left) at user =
    let rest = read_bytes left (add32 at 1) user in read_byte (user at) (λ c. rest)

-- The services that change nothing.
pub kservice_null : ℕ
kservice_null = minus_one

pub kservice_close : (fd : ℕ) → ℕ
kservice_close fd = minus_one

pub kservice_read : (fd buf len : ℕ) → ℕ
kservice_read fd buf len = minus_one

pub kservice_lseek : (fd offset whence : ℕ) → ℕ
kservice_lseek fd offset whence = minus_one

pub kservice_kill : (pid sig : ℕ) → ℕ
kservice_kill pid sig = minus_one

pub kservice_fstat : (fd st : ℕ) → ℕ
kservice_fstat fd st = if st == 0 then minus_one else 0

-- The ticks of a sleep, `usec * 18 /1000/1000` in words.
abbrev pub ticks_of : ℕ → ℕ
ticks_of usec = (usec * 18) % 2 ^ 32 / 1000 / 1000

-- The entries of `syscall_table` that change nothing and read nothing.
pub plain : (eax ebx ecx edx : ℕ) → ℕ
plain eax ebx ecx edx =
    if eax == 0
    then kservice_null
    else if eax == 3
    then kservice_close ebx
    else if eax == 4
    then kservice_read ebx ecx edx
    else if eax == 6
    then kservice_lseek ebx ecx edx
    else if eax == 9
    then kservice_kill ebx ecx
    else kservice_fstat ebx ecx

module _ {M : Type 0} where
  pub kservice_open : (fuel file flags mode : ℕ) → Kernel M → Run ℕ
  unfolding read_string
  kservice_open fuel file flags mode s = read_string fuel file s.user >>= λ _. ok minus_one

  pub kservice_unlink : (fuel file : ℕ) → Kernel M → Run ℕ
  unfolding read_string
  kservice_unlink fuel file s = read_string fuel file s.user >>= λ _. ok minus_one

  pub kservice_write : (fd buf len : ℕ) → Kernel M → Run ℕ
  unfolding read_bytes
  kservice_write fd buf len s = read_bytes len buf s.user >>= λ _. ok len

  -- `kservice_getpid`
  pub kservice_getpid : Kernel M → Run ℕ
  unfolding process_current
  kservice_getpid s =
      let p = process_current s.scheduler s.threads in if p == 0 then fault else ok (s.pid p)

  -- The entries of `syscall_table` that change nothing.
  pub answer : (fuel eax ebx ecx edx : ℕ) → Kernel M → Run ℕ
  unfolding kservice_open kservice_unlink kservice_write kservice_getpid
  answer fuel eax ebx ecx edx s =
      let opened = kservice_open fuel ebx ecx edx s in
      let unlinked = kservice_unlink fuel ebx s in
      let written = kservice_write ebx ecx edx s in
      let pid = kservice_getpid s in
      if eax == 2
      then opened
      else if eax == 5
      then written
      else if eax == 7
      then unlinked
      else if eax == 8
      then pid
      else ok (plain eax ebx ecx edx)

  -- `kservice_sbrk` returns an address, 0 for NULL.
  unfoldable pub kservice_sbrk :
      (mmap : (mem paddr size flag : ℕ) → M → M) (nbytes : ℕ) → Kernel M → Run (ℕ × Kernel M)
  unfolding heap_alloc process_current
  kservice_sbrk mmap nbytes s =
      let p = process_current s.scheduler s.threads in
      let (mem, heap, mmu) = heap_alloc mmap (s.heap p) nbytes s.mmu in
      if p == 0
      then fault
      else ok (mem, record s { heap = λ a. if a == p then heap else s.heap a; mmu = mmu })

  -- The services that call the scheduler, with the address of `g_scheduler`.
  module _ (base : ℕ) where
    unfoldable pub kservice_exit : (fuel code : ℕ) → Kernel M → Run (ℕ × Kernel M)
    unfolding scheduler_exitthread
    kservice_exit fuel code s =
        scheduler_exitthread base fuel s.scheduler >>= λ t. ok (0, record s { scheduler = t })

    unfoldable pub kservice_usleep : (fuel usec : ℕ) → Kernel M → Run (ℕ × Kernel M)
    unfolding scheduler_sleep
    kservice_usleep fuel usec s = scheduler_sleep base fuel (ticks_of usec) s.scheduler >>= λ t.
        ok (0, record s { scheduler = t })

    -- The call through `syscall_table`, with the arguments in three registers.
    unfoldable pub syscall_table :
        (mmap : (mem paddr size flag : ℕ) → M → M) (fuel eax ebx ecx edx : ℕ)
        → Kernel M
        → Run (ℕ × Kernel M)
    unfolding kservice_sbrk kservice_exit kservice_usleep answer
    syscall_table mmap fuel eax ebx ecx edx s =
        let exited = kservice_exit fuel ebx s in
        let slept = kservice_usleep fuel ebx s in
        let grown = kservice_sbrk mmap ebx s in
        let answered = answer fuel eax ebx ecx edx s >>= λ r. ok (r, s) in
        if eax == 1
        then exited
        else if eax == 11
        then grown
        else if eax == 12
        then slept
        else answered

    -- `_syscall`, less the registers that it saves and restores.
    unfoldable pub syscall :
        (mmap : (mem paddr size flag : ℕ) → M → M) (fuel eax ebx ecx edx : ℕ)
        → Kernel M
        → Run (ℕ × Kernel M)
    unfolding syscall_table
    syscall mmap fuel eax ebx ecx edx s =
        let served = syscall_table mmap fuel eax ebx ecx edx s in
        if ltb 12 eax then ok (minus_one, s) else served
