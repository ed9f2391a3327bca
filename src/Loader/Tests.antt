-- ===== src/Loader/Tests.antt =====
-- kernel/ld.cpp run on a small program, and its theorem at it.
use osdev_course.Common.{
  ℕ, ◌+◌, ◌-◌, ◌/◌, ◌≡◌, refl, Bool, true, false, leb, List, [], ◌∷◌, ltb, if◌then◌else◌, Run, ok,
  fault, ◌==◌, get_elem?, none, some,
}
use osdev_course.Kmalloc.{kheap_kmalloc}
use osdev_course.Loader.{Machine, load_segments, load_file, translate_addr}

-- A program of 88 bytes: the header, and from 52 on a program header for six bytes of memory at
-- 0x400000, of which the file has the four from 84 on.
abbrev image_bytes : List ℕ
image_bytes =
    0x7F ∷ 0x45 ∷ 0x4C ∷ 0x46 ∷ 1 ∷ 1 ∷ 1 ∷ 0 ∷ 0 ∷ 0 ∷ 0 ∷ 0 ∷ 0 ∷ 0 ∷ 0 ∷ 0 ∷ 2 ∷ 0 ∷ 3 ∷ 0 ∷ 1
    ∷ 0 ∷ 0 ∷ 0 ∷ 2 ∷ 0 ∷ 0x40 ∷ 0 ∷ 52 ∷ 0 ∷ 0 ∷ 0 ∷ 0 ∷ 0 ∷ 0 ∷ 0 ∷ 0 ∷ 0 ∷ 0 ∷ 0 ∷ 52 ∷ 0 ∷ 32
    ∷ 0 ∷ 1 ∷ 0 ∷ 40 ∷ 0 ∷ 0 ∷ 0 ∷ 0 ∷ 0 ∷ 1 ∷ 0 ∷ 0 ∷ 0 ∷ 84 ∷ 0 ∷ 0 ∷ 0 ∷ 0 ∷ 0 ∷ 0x40 ∷ 0 ∷ 0 ∷ 0
    ∷ 0x40 ∷ 0 ∷ 4 ∷ 0 ∷ 0 ∷ 0 ∷ 6 ∷ 0 ∷ 0 ∷ 0 ∷ 7 ∷ 0 ∷ 0 ∷ 0 ∷ 0 ∷ 0 ∷ 0 ∷ 0 ∷ 0x90 ∷ 0x91 ∷ 0x92
    ∷ 0xC3 ∷ []

-- The file is at 0x1000; other bytes are 5.
abbrev machine : Machine (ℕ → Bool)
machine = record {
  loader = record { segments = []; symbols = []; entrypoint = 0 };
  memory = λ a.
      if ltb a 0x1000
      then 5
      else elim (get_elem? image_bytes (a - 0x1000)) [ none ↦ 5 | some b ↦ b ];
  kernel = record {
    head = λ _. 0;
    next = λ _. 0;
    size = λ _. 0;
    heap = kheap_kmalloc 0xF0100000;
    mmu = λ p. false;
  };
}

-- The state of the memory manager is the pages that are mapped.
abbrev open_pages : ℕ → ℕ → ℕ → ℕ → (ℕ → Bool) → ℕ → Bool
open_pages mem paddr size flag m p =
    if leb (mem / 4096) p then (if ltb p (mem / 4096 + size / 4096) then true else m p) else m p

abbrev is_open : (ℕ → Bool) → ℕ → Bool
is_open m a = m (a / 4096)

abbrev byte_after : Run (Bool × Machine (ℕ → Bool)) → ℕ → ℕ
byte_after (ok (_, s)) a = s.memory a
byte_after r a = 1000

entry_after : Run (Bool × Machine (ℕ → Bool)) → ℕ
entry_after (ok (_, s)) = s.loader.entrypoint
entry_after r = 1000

last_of_file : byte_after (load_file open_pages is_open 9 0x1000 machine) 0x400003 ≡ 0xC3
unfolding load_file
last_of_file = refl

zero_behind : byte_after (load_file open_pages is_open 9 0x1000 machine) 0x400005 ≡ 0
unfolding load_file
zero_behind = refl

-- A segment that ends behind the page that is mapped for it halts.
abbrev unaligned : Machine (ℕ → Bool)
unaligned = record machine {
  memory = λ a. if a == 0x103C then 0xFF else if a == 0x103D then 0x0F else machine.memory a;
}

is_fault : Run (Bool × Machine (ℕ → Bool)) → Bool
is_fault fault = true
is_fault r = false

halts : is_fault (load_segments open_pages is_open 2 0x1000 0 unaligned) ≡ true
unfolding load_segments is_fault
halts = refl

entry : entry_after (load_file open_pages is_open 9 0x1000 machine) ≡ 0x400002
unfolding load_file entry_after translate_addr
entry = refl
