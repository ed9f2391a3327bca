-- ===== src/Scheduler/Lists.antt =====
-- The state of kernel/scheduler.c seen as six lists of threads, and a change to one of them.
use osdev_course.Common.{
  ℕ, ◌+◌, ◌*◌, ◌<◌, ◌≤◌, ◌≡◌, ◌∙◌, ◌⊎◌, inl, inr, Bool, true, false, ◌||◌, List, ◌∷◌, arith, ◌==◌,
  if◌then◌else◌, mem, Distinct, Chain, Chain-frame, Bool-cases,
}
use osdev_course.Scheduler.{Scheduler, head, zombie}
use osdev_course.Scheduler.Links.{Seg, last, Seg-frame}

-- The threads of each list, first one first.
abbrev pub Lists : Type 0
Lists = ℕ → List ℕ

abbrev pub set_list : Lists → ℕ → List ℕ → Lists
set_list L q xs r = if r == q then xs else L r

-- Zombies are linked by `next` alone, the other lists both ways.
abbrev pub Row : Bool → (ℕ → ℕ) → (ℕ → ℕ) → ℕ → List ℕ → Type 0
Row true next prev from xs = Chain next (next from) xs
Row false next prev from xs = Seg next prev from xs

Row-frame :
    (b : Bool) (next prev next' prev' : ℕ → ℕ) (from : ℕ) (xs : List ℕ)
    → Row b next prev from xs
    → next' from ≡ next from
    → ((z : ℕ) → mem z xs ≡ true → (next' z ≡ next z) × (prev' z ≡ prev z))
    → Row b next' prev' from xs
Row-frame true next prev next' prev' from xs row e same =
    rw e (Chain-frame next next' (next from) xs row (λ z m. (same z m).0))
Row-frame false next prev next' prev' from xs row e same =
    Seg-frame next prev next' prev' from xs row e same

-- A property of every list, where the list `p` is replaced by `xs`.
pub set_list-elim :
    (P : ℕ → List ℕ → Type 0) (L : Lists) (p : ℕ) (xs : List ℕ)
    → P p xs
    → ((q : ℕ) → (q == p) ≡ false → P q (L q))
    → (q : ℕ) → P q (set_list L p xs q)
set_list-elim P L p xs new old q = elim (Bool-cases (q == p)) [
  | inl e ↦
      let at : q ≡ p = ground arith in
      let self : (p == p) ≡ true = ground arith in rw (at, self) new
  | inr e ↦ rw e (old q e)
]

module _ (base : ℕ) where
  -- A TCB lies outside `g_scheduler`, which holds three words and six lists.
  abbrev pub IsThread : ℕ → Type 0
  IsThread x = (0 < x) × ((x < base) ⊎ (base + 12 + 88 * 6 ≤ x))

  -- The words in memory represent the lists, no thread stands twice, and the ready queues are sorted
  -- by priority.
  pub record IsLinked (s : Scheduler) (L : Lists) : Type 0 where
    pub rows : (q : ℕ) → q < 6 → Row (q == zombie) s.next s.prev (head base q) (L q)
    pub tails : (q : ℕ) → q < 4 → s.tail q ≡ last (head base q) (L q)
    pub distinct : (q : ℕ) → q < 6 → Distinct (L q)
    pub apart :
        (q r x : ℕ) → q < 6 → r < 6 → (q == r) ≡ false → mem x (L q) ≡ true → mem x (L r) ≡ false
    pub threads : (q x : ℕ) → q < 6 → mem x (L q) ≡ true → IsThread x
    pub ready : (q x : ℕ) → q < 4 → mem x (L q) ≡ true → s.priority x ≡ q

  -- A thread on no list.
  pub record IsLoose (L : Lists) (x : ℕ) : Type 0 where
    pub thread : IsThread x
    pub out : (q : ℕ) → q < 6 → mem x (L q) ≡ false

  -- Two states that differ at most in the links of the list `p` and of the thread `x`.
  pub record SameBut (s s' : Scheduler) (L : Lists) (p x : ℕ) : Type 0 where
    pub nexts : (z : ℕ) → mem z (x ∷ head base p ∷ L p) ≡ false → s'.next z ≡ s.next z
    pub prevs : (z : ℕ) → mem z (x ∷ L p) ≡ false → s'.prev z ≡ s.prev z
    pub tails : (q : ℕ) → (q == p) ≡ false → s'.tail q ≡ s.tail q
    pub priorities : (z : ℕ) → s'.priority z ≡ s.priority z

  -- The list `p` becomes `xs`, by a change of its own links and those of `x`, which stood on no
  -- other list.
  pub IsLinked-set_list :
      (s s' : Scheduler) (L : Lists) (p x : ℕ) (xs : List ℕ)
      → IsLinked s L
      → p < 6
      → IsThread x
      → ((q : ℕ) → q < 6 → (q == p) ≡ false → mem x (L q) ≡ false)
      → SameBut s s' L p x
      → Row (p == zombie) s'.next s'.prev (head base p) xs
      → (p < 4 → s'.tail p ≡ last (head base p) xs)
      → Distinct xs
      → ((z : ℕ) → mem z xs ≡ true → (z == x) || mem z (L p) ≡ true)
      → (p < 4 → mem x xs ≡ true → s.priority x ≡ p)
      → IsLinked s' (set_list L p xs)
  IsLinked-set_list s s' L p x xs v small thread out same row tail d was prio = record {
    rows =
        set_list-elim (λ q ys. q < 6 → Row (q == zombie) s'.next s'.prev (head base q) ys) L p xs
          (λ _. row)
          λ q e h.
            Row-frame (q == zombie) s.next s.prev s'.next s'.prev (head base q) (L q) (v.rows q h)
              (same.nexts (head base q) (head_apart q h e))
              λ z m. (
                same.nexts z (ground (arith, node_apart q z h e m)),
                same.prevs z (ground (arith, node_apart q z h e m)),
              );
    tails =
        set_list-elim (λ q ys. q < 4 → s'.tail q ≡ last (head base q) ys) L p xs tail
          λ q e h. same.tails q e ∙ v.tails q h;
    distinct = set_list-elim (λ q ys. q < 6 → Distinct ys) L p xs (λ _. d) λ q _. v.distinct q;
    apart = λ q r z hq hr ne m. elim (Bool-cases (q == p)) [
      | inl e ↦ elim (Bool-cases (r == p)) [
        | inl f ↦ absurd (ground arith)
        | inr f ↦ rw f (foreign r z hr f (ground arith))
      ]
      | inr e ↦ elim (Bool-cases (r == p)) [
        | inl f ↦ rw f (elim (Bool-cases (mem z xs)) [
          | inl k ↦ absurd (ground (arith, foreign q z hq e k))
          | inr k ↦ k
        ])
        | inr f ↦ rw f (v.apart q r z hq hr ne (ground arith))
      ]
    ];
    threads =
        set_list-elim (λ q ys. (z : ℕ) → q < 6 → mem z ys ≡ true → IsThread z) L p xs
          (λ z _ m. ground (arith, was z m, thread, v.threads p z small)) λ q _. v.threads q;
    ready =
        set_list-elim (λ q ys. (z : ℕ) → q < 4 → mem z ys ≡ true → s'.priority z ≡ q) L p xs
          (λ z h m. ground (arith, was z m, same.priorities z, prio h, v.ready p z h))
          λ q _ z h m. same.priorities z ∙ v.ready q z h m;
  }
    where
      foreign : (r z : ℕ) → r < 6 → (r == p) ≡ false → mem z xs ≡ true → mem z (L r) ≡ false
      foreign r z h e m = ground (arith, was z m, out r h e, v.apart p r z small h)

      head_apart :
          (q : ℕ) → q < 6 → (q == p) ≡ false → mem (head base q) (x ∷ head base p ∷ L p) ≡ false
      head_apart q h e = elim (Bool-cases (mem (head base q) (L p))) [
        | inl m ↦ absurd (ground (arith, v.threads p (head base q) small m))
        | inr m ↦ ground (arith, thread)
      ]

      node_apart :
          (q z : ℕ)
          → q < 6
          → (q == p) ≡ false
          → mem z (L q) ≡ true
          → mem z (x ∷ head base p ∷ L p) ≡ false
      node_apart q z h e m = ground (arith, out q h e, v.apart q p z h small e m, v.threads q z h m)

  -- Only the links and the priorities matter.
  pub IsLinked-same :
      (s s' : Scheduler) (L : Lists)
      → s'.next ≡ s.next
      → s'.prev ≡ s.prev
      → s'.tail ≡ s.tail
      → s'.priority ≡ s.priority
      → IsLinked s L
      → IsLinked s' L
  IsLinked-same s s' L n p t pr v = record {
    rows = λ q h. rw (n, p) (v.rows q h);
    tails = λ q h. rw t (v.tails q h);
    distinct = v.distinct;
    apart = v.apart;
    threads = v.threads;
    ready = λ q x h m. rw pr (v.ready q x h m);
  }
