-- ===== src/Scheduler/Moves.antt =====
-- The moves of kernel/scheduler.c on its lists: a thread is made ready, taken off the front of a
-- list, put among the sleepers or among the zombies.
use mathlib.Core.List.{append-nil}
use osdev_course.Common.{
  ℕ, ◌<◌, ◌≡◌, refl, ap, inl, inr, true, false, ◌||◌, List, [], ◌∷◌, ◌++◌, arith, ◌==◌, mem,
  Distinct, update, Bool-cases,
}
use osdev_course.Scheduler.{Scheduler, head, zombie, scheduler_add}
use osdev_course.Scheduler.Links.{
  Seg, last, first, first-mem, update_some, last-mem, last-append, mem-append, Seg-insert, Seg-pop,
}
use osdev_course.Scheduler.Lists.{
  Lists, set_list, set_list-elim, IsLinked, IsLoose, IsLinked-set_list,
}

pub Distinct-append :
    (xs ys : List ℕ) (x : ℕ)
    → Distinct (xs ++ ys)
    → mem x (xs ++ ys) ≡ false
    → Distinct (xs ++ x ∷ ys)
Distinct-append [] ys x d o = (o, d)
Distinct-append (y ∷ xs) ys x d o = (
  ground (arith, mem-append y xs (x ∷ ys), mem-append y xs ys),
  Distinct-append xs ys x d.1 (ground arith),
)

Seg-next :
    (next prev : ℕ → ℕ) (from : ℕ) (xs : List ℕ) → Seg next prev from xs → next from ≡ first xs
Seg-next next prev from [] s = s
Seg-next next prev from (x ∷ xs) s = s.0

module _ (base : ℕ) where
  pub head-new :
      (s : Scheduler) (L : Lists) (q : ℕ)
      → IsLinked base s L
      → q < 6
      → mem (head base q) (L q) ≡ false
  head-new s L q v h = elim (Bool-cases (mem (head base q) (L q))) [
    | inl m ↦ absurd (ground (arith, v.threads q (head base q) h m))
    | inr m ↦ m
  ]

  -- A thread that is on no list goes behind the last one of its priority.
  pub scheduler_add-IsLinked :
      (s : Scheduler) (L : Lists) (x : ℕ)
      → IsLinked base s L
      → IsLoose base L x
      → s.priority x < 4
      → IsLinked base (scheduler_add x s) (set_list L (s.priority x) (L (s.priority x) ++ x ∷ []))
  unfolding scheduler_add
  scheduler_add-IsLinked s L x v loose h =
      IsLinked-set_list base s (scheduler_add x s) L p x (L p ++ x ∷ []) v (omega arith)
        loose.thread (λ q k _. loose.out q k)
        (record {
          nexts = λ z m. ground (arith, v.tails p h, last-mem (head base p) (L p));
          prevs = λ z m. ground arith;
          tails = λ q e. rw e;
          priorities = λ z. refl;
        })
        (rw (not_zombie, v.tails p h) inserted) (λ _. rw (self, last-append))
        (Distinct-append (L p) [] x (rw append-nil (v.distinct p (omega arith)))
          (rw append-nil (loose.out p (omega arith))))
        (λ z m. ground (arith, mem-append z (L p) (x ∷ []))) (λ _ _. refl)
    where
      p : ℕ
      p = s.priority x

      not_zombie : (p == zombie) ≡ false
      not_zombie = ground arith

      self : (p == p) ≡ true
      self = ground arith

      seg : Seg s.next s.prev (head base p) (L p ++ [])
      seg = rw append-nil (rw not_zombie at (v.rows p (omega arith)))

      out : mem x (head base p ∷ L p) ≡ false
      out = ground (arith, loose.out p (omega arith), loose.thread)

      inserted :
          Seg
            (update (update s.next x 0) (last (head base p) (L p)) x)
            (update s.prev x (last (head base p) (L p)))
            (head base p)
            (L p ++ x ∷ [])
      inserted =
          Seg-insert s.next s.prev (head base p) x (L p) [] seg (omega (arith, loose.thread))
            (rw append-nil out)
            (rw append-nil (head-new s L p v (omega arith), v.distinct p (omega arith)))

  -- The first thread of a list.
  module _ (s : Scheduler) (L : Lists) (q x : ℕ) (xs : List ℕ) (v : IsLinked base s L)
      (small : q < 5) (front : L q ≡ x ∷ xs) where
    pub front_row : Seg s.next s.prev (head base q) (x ∷ xs)
    front_row =
        let kind : (q == zombie) ≡ false = ground arith in
        rw front at (rw kind at (v.rows q (omega arith)))

    front-next : s.next x ≡ first xs
    front-next = Seg-next s.next s.prev x xs front_row.3

    front-mem : (z : ℕ) → mem z (L q) ≡ ((z == x) || mem z xs)
    front-mem z = ap (mem z) front

    -- It is on no list once it is taken off.
    pub front-IsLoose : IsLoose base (set_list L q xs) x
    front-IsLoose = record {
      thread = v.threads q x (omega arith) (ground (arith, front-mem x));
      out =
          set_list-elim (λ r ys. r < 6 → mem x ys ≡ false) L q xs (λ _. distinct.0)
            λ r e h. v.apart q r x (omega arith) h (ground arith) (ground (arith, front-mem x));
    }
      where
        distinct : Distinct (x ∷ xs)
        distinct = rw front at (v.distinct q (omega arith))

    -- Taking it off, by any change that writes the links as the code does.
    pub pop-IsLinked :
        (s' : Scheduler)
        → s'.next ≡ update s.next (head base q) (s.next x)
        → s'.prev ≡ update_some s.prev (s.next x) (head base q)
        → s'.priority ≡ s.priority
        → ((r : ℕ) → (r == q) ≡ false → s'.tail r ≡ s.tail r)
        → (q < 4 → s'.tail q ≡ last (head base q) xs)
        → IsLinked base s' (set_list L q xs)
    pop-IsLinked s' n p pr others t =
        IsLinked-set_list base s s' L q x xs v (omega arith) here.thread
          (λ r h e. rw e at (here.out r h))
          (record {
            nexts = λ z m. rw n (ground arith);
            prevs = λ z m. rw p (ground (arith, front-next, first-mem xs, front-mem z));
            tails = others;
            priorities = λ z. ap (λ f. f z) pr;
          })
          (rw (kind, n, p) (Seg-pop s.next s.prev (head base q) x xs front_row (fresh, distinct))) t
          distinct.1 (λ z m. ground (arith, front-mem z))
          (λ h m. v.ready q x h (ground (arith, front-mem x)))
      where
        here : IsLoose base (set_list L q xs) x
        here = front-IsLoose

        kind : (q == zombie) ≡ false
        kind = ground arith

        distinct : Distinct (x ∷ xs)
        distinct = rw front at (v.distinct q (omega arith))

        fresh : mem (head base q) (x ∷ xs) ≡ false
        fresh = rw front at (head-new s L q v (omega arith))
