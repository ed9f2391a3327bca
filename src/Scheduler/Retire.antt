-- ===== src/Scheduler/Retire.antt =====
-- The first part of scheduler_pick in kernel/scheduler.c: where the running thread goes.
use osdev_course.Common.{
  ℕ, ◌≡◌, refl, ap, ◌∙◌, false, ◌||◌, List, ◌∷◌, ◌++◌, arith, mem, update, Chain, Chain-update,
}
use osdev_course.Scheduler.{Scheduler, head, zombie, slept, link_slept}
use osdev_course.Scheduler.Links.{last, first, last-mem, first-mem, mem-append, Seg-insert}
use osdev_course.Scheduler.Lists.{Lists, set_list, IsLinked, IsLoose, IsLinked-set_list}
use osdev_course.Scheduler.Moves.{Distinct-append, head-new}

module _ (base : ℕ) where
  -- The running thread is put at the front of the zombies.
  abbrev pub dead : Scheduler → Scheduler
  dead s = record s {
    next =
        update (update s.next s.current (s.next (head base zombie))) (head base zombie) s.current;
  }

  pub dead-IsLinked :
      (s : Scheduler) (L : Lists)
      → IsLinked base s L
      → IsLoose base L s.current
      → IsLinked base (dead s) (set_list L zombie (s.current ∷ L zombie))
  dead-IsLinked s L v loose =
      IsLinked-set_list base s (dead s) L zombie x (x ∷ L zombie) v (omega arith) loose.thread
        (λ q h _. loose.out q h)
        (record {
          nexts = λ z m. ground arith;
          prevs = λ z m. refl;
          tails = λ q e. refl;
          priorities = λ z. refl;
        })
        (ground (arith, loose.thread), omega (arith, loose.thread), rw after chained)
        (λ h. absurd (omega arith))
        (loose.out zombie (omega arith), v.distinct zombie (omega arith)) (λ z m. m)
        (λ h. absurd (omega arith))
    where
      x : ℕ
      x = s.current

      after : (dead s).next x ≡ s.next (head base zombie)
      after = ground (arith, loose.thread)

      chained : Chain (dead s).next (s.next (head base zombie)) (L zombie)
      chained =
          Chain-update (update s.next x (s.next (head base zombie))) (s.next (head base zombie))
            (L zombie) (head base zombie) x
            (Chain-update s.next (s.next (head base zombie)) (L zombie) x
              (s.next (head base zombie)) (v.rows zombie (omega arith))
              (loose.out zombie (omega arith)))
            (head-new base s L zombie v (omega arith))

  -- The running thread is linked between two sleepers.
  pub link_slept-IsLinked :
      (s s' : Scheduler) (L : Lists) (x : ℕ) (xs ys : List ℕ)
      → IsLinked base s L
      → IsLoose base L x
      → L slept ≡ xs ++ ys
      → s'.next ≡ s.next
      → s'.prev ≡ s.prev
      → s'.tail ≡ s.tail
      → s'.priority ≡ s.priority
      → IsLinked base
          (link_slept x (last (head base slept) xs, first ys, s'))
          (set_list L slept (xs ++ x ∷ ys))
  unfolding link_slept
  link_slept-IsLinked s s' L x xs ys v loose split n p t pr =
      IsLinked-set_list base s (link_slept x (last (head base slept) xs, first ys, s')) L slept x
        (xs ++ x ∷ ys) v (omega arith) loose.thread (λ q h _. loose.out q h)
        (record {
          nexts = λ z m. rw n (ground (arith, last-mem (head base slept) xs, was z));
          prevs = λ z m. rw p (ground (arith, first-mem ys, was z));
          tails = λ q e. rw t refl;
          priorities = λ z. rw pr refl;
        })
        (rw (n, p)
          (Seg-insert s.next s.prev (head base slept) x xs ys
            (rw split at (v.rows slept (omega arith))) (omega (arith, loose.thread))
            (rw split at out) (rw split at fresh, rw split at (v.distinct slept (omega arith)))))
        (λ h. absurd (omega arith))
        (Distinct-append xs ys x (rw split at (v.distinct slept (omega arith)))
          (rw split at (loose.out slept (omega arith))))
        (λ z m. ground (arith, mem-append z xs (x ∷ ys), was z)) (λ h. absurd (omega arith))
    where
      was : (z : ℕ) → mem z (L slept) ≡ (mem z xs || mem z ys)
      was z = ap (mem z) split ∙ mem-append z xs ys

      out : mem x (head base slept ∷ L slept) ≡ false
      out = ground (arith, loose.out slept (omega arith), loose.thread)

      fresh : mem (head base slept) (L slept) ≡ false
      fresh = head-new base s L slept v (omega arith)
