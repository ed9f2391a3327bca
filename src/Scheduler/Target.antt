-- ===== src/Scheduler/Target.antt =====
-- The third part of scheduler_pick in kernel/scheduler.c: the thread that is taken off the queues.
use osdev_course.Common.{
  ℕ, zero, suc, ◌+◌, ◌<◌, ◌≤◌, ◌≡◌, refl, sym, ap, ◌∙◌, ◌≢◌, inl, inr, false, List, [], ◌∷◌, arith,
  ◌==◌, if◌then◌else◌, update, Bool-cases, Distinct,
}
use osdev_course.Scheduler.{Scheduler, head, zombie, take_target}
use osdev_course.Scheduler.Links.{Seg, last, update_some, last-mem}
use osdev_course.Scheduler.Lists.{Lists, set_list, IsLinked}
use osdev_course.Scheduler.Moves.{front_row, pop-IsLinked}

module _ (base : ℕ) where
  -- The first thread `x` of queue `q` off its queue.
  abbrev pub dequeued : ℕ → ℕ → Scheduler → Scheduler
  dequeued q x s = record s {
    next = update s.next (head base q) (s.next x);
    prev = update_some s.prev (s.next x) (head base q);
    tail = if s.tail q == x then update s.tail q (head base q) else s.tail;
  }

  -- The queue `q` is the first of those from `i` on that is not empty, and `x` its first thread.
  pub record Front (L : Lists) (i q x : ℕ) (xs : List ℕ) : Type 0 where
    pub from : i ≤ q
    pub queue : q < 4
    pub front : L q ≡ x ∷ xs
    pub empty : (r : ℕ) → i ≤ r → r < q → L r ≡ []

  take_target-empty :
      (rounds i : ℕ) (s : Scheduler)
      → s.next (head base i) ≡ 0
      → take_target base (suc rounds) i s ≡ take_target base rounds (i + 1) s
  unfolding take_target
  take_target-empty rounds i s e = rw e

  take_target-front :
      (rounds i x : ℕ) (s : Scheduler)
      → s.next (head base i) ≡ x
      → x ≢ 0
      → take_target base (suc rounds) i s ≡ (x, dequeued i x s)
  unfolding take_target
  take_target-front rounds i x s e ne = let set : (x == 0) ≡ false = ground arith in rw (e, set)

  pub dequeued-IsLinked :
      (s : Scheduler) (L : Lists) (q x : ℕ) (xs : List ℕ)
      → IsLinked base s L
      → q < 4
      → L q ≡ x ∷ xs
      → IsLinked base (dequeued q x s) (set_list L q xs)
  dequeued-IsLinked s L q x xs v h e =
      pop-IsLinked base s L q x xs v (omega arith) e (dequeued q x s) refl refl refl
        (λ r ne. others r ne) (λ _. tail_of xs e (v.tails q h))
    where
      others : (r : ℕ) → (r == q) ≡ false → (dequeued q x s).tail r ≡ s.tail r
      others r ne = ground arith

      tail_of :
          (ys : List ℕ)
          → L q ≡ x ∷ ys
          → s.tail q ≡ last (head base q) (L q)
          → (dequeued q x s).tail q ≡ last (head base q) ys
      tail_of [] f t = let at : s.tail q ≡ x = t ∙ ap (last (head base q)) f in ground arith
      tail_of (y ∷ ys) f t =
          let at : s.tail q ≡ last y ys = t ∙ ap (last (head base q)) f in
          let d : Distinct (x ∷ y ∷ ys) = rw f at (v.distinct q (omega arith)) in
          ground (arith, last-mem y ys)

  -- Some queue from `i` on has a thread, and the loop finds the first one.
  pub take_target-Front :
      (rounds i : ℕ) (s : Scheduler) (L : Lists) (xs : List ℕ)
      → i + rounds ≡ 4
      → IsLinked base s L
      → L i ≡ xs
      → (r : ℕ) → i ≤ r
      → r < 4
      → L r ≢ []
      → (q : ℕ) × (x : ℕ) × (ys : List ℕ) × (take_target base rounds i s ≡ (x, dequeued q x s))
        × Front L i q x ys
  take_target-Front zero i s L xs sum v e r lo hi ne = absurd (omega arith)
  take_target-Front (suc rounds) i s L [] sum v e r lo hi ne =
      let kind : (i == zombie) ≡ false = ground arith in
      let row : Seg s.next s.prev (head base i) (L i) = rw kind at (v.rows i (omega arith)) in
      let none : s.next (head base i) ≡ 0 = rw e at row in
      let after : i + 1 ≤ r = elim (Bool-cases (i == r)) [
        | inl same ↦ let at : i ≡ r = ground arith in absurd (ne (ap L (sym at) ∙ e))
        | inr other ↦ ground arith
      ] in
      let (q, x, ys, took, front) =
        take_target-Front rounds (i + 1) s L (L (i + 1)) (omega arith) v refl r after hi ne in
      (
        q,
        x,
        ys,
        take_target-empty rounds i s none ∙ took,
        record {
          from = omega (arith, front.from);
          queue = front.queue;
          front = front.front;
          empty = λ k a b. elim (Bool-cases (i == k)) [
            | inl same ↦ let at : i ≡ k = ground arith in ap L (sym at) ∙ e
            | inr other ↦ front.empty k (ground arith) b
          ];
        },
      )
  take_target-Front (suc rounds) i s L (x ∷ xs) sum v e r lo hi ne =
      let row = front_row base s L i x xs v (omega arith) e in
      (
        i,
        x,
        xs,
        take_target-front rounds i x s row.0 row.1,
        record {
          from = omega arith;
          queue = omega arith;
          front = e;
          empty = λ k a b. absurd (omega arith);
        },
      )
