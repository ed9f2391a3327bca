-- ===== src/Kmalloc/Keeps.antt =====
-- kfree of kernel/kmalloc.c, and the first part of kmalloc, on the four free lists.
use osdev_course.Common.{
  ℕ, ◌+◌, ◌^◌, ◌≤◌, ◌<◌, ◌≡◌, refl, ◌≢◌, inl, inr, true, false, Option, some, List, ◌∷◌, arith,
  ◌==◌, if◌then◌else◌, sub32, length, mem, Distinct, Bool-cases, update, Chain, Chain-update,
  Chain-frame, update_self,
}
use osdev_course.Kmalloc.{
  FreeList, kmalloc_64, kmalloc_512, kmalloc_1024, kmalloc_large, same_list, Kmalloc, set_next,
  list_of_size, pick, kfree,
}
use osdev_course.Kmalloc.Lists.{
  Free, put, least, IsKmalloc, taken, Picked, pick_lem, same_list_self,
}
use osdev_course.Kmalloc.Taken.{mem-taken, Distinct-taken}

pub eq_of_same_list : (l k : FreeList) → same_list l k ≡ true → l ≡ k
eq_of_same_list kmalloc_64 kmalloc_64 e = refl
eq_of_same_list kmalloc_512 kmalloc_512 e = refl
eq_of_same_list kmalloc_1024 kmalloc_1024 e = refl
eq_of_same_list kmalloc_large kmalloc_large e = refl
eq_of_same_list _ _ e = cc

-- A property of every list, where the list `l` is replaced by `xs`.
pub put-elim :
    (P : FreeList → List ℕ → Type 0) (free : Free) (l : FreeList) (xs : List ℕ)
    → P l xs
    → ((k : FreeList) → same_list k l ≡ false → P k (free k))
    → (k : FreeList) → P k (put free l xs k)
put-elim P free l xs new old k = elim (Bool-cases (same_list k l)) [
  | inl e ↦ rw (eq_of_same_list k l e, same_list_self l) new
  | inr e ↦ rw e (old k e)
]

-- What is on a list after a node is taken off one was there before.
pub mem-put :
    (size : ℕ → ℕ) (free : Free) (l : FreeList) (n x : ℕ) (k : FreeList)
    → mem x (put free l (taken size n (free l)).1 k) ≡ true
    → mem x (free k) ≡ true
mem-put size free l n x =
    put-elim (λ j ys. mem x ys ≡ true → mem x (free j) ≡ true) free l (taken size n (free l)).1
      (mem-taken size n x (free l)) λ j _ m. m

pub not-mem-put :
    (size : ℕ → ℕ) (free : Free) (l : FreeList) (n x : ℕ) (k : FreeList)
    → mem x (free k) ≡ false
    → mem x (put free l (taken size n (free l)).1 k) ≡ false
not-mem-put size free l n x k o =
    elim (Bool-cases (mem x (put free l (taken size n (free l)).1 k))) [
      | inl m ↦ absurd (cc (mem-put size free l n x k m))
      | inr m ↦ m
    ]

module _ {M : Type 0} where
  Picked-IsKmalloc :
      (s : Kmalloc M) (free : Free) (l : FreeList) (n : ℕ) (out : Option (ℕ × Kmalloc M))
      (head : FreeList → ℕ) (next : ℕ → ℕ)
      → IsKmalloc s free
      → Picked s l n (free l) out head next
      → IsKmalloc (record s { head = head; next = next }) (put free l (taken s.size n (free l)).1)
  Picked-IsKmalloc s free l n out head next v p = record {
    chain =
        put-elim (λ k ys. Chain next (head k) ys) free l xs p.left
          λ k e. rw (p.heads k e) (
            Chain-frame s.next next (s.head k) (free k) (v.chain k)
              λ z m. p.others z (v.apart k l z e m));
    distinct =
        put-elim (λ _ ys. Distinct ys) free l xs (Distinct-taken s.size n (free l) (v.distinct l))
          λ k _. v.distinct k;
    apart = λ k j x e m.
        not-mem-put s.size free l n x j (v.apart k j x e (mem-put s.size free l n x k m));
    sized = λ k x m. v.sized k x (mem-put s.size free l n x k m);
    room = λ k x m. v.room k x (mem-put s.size free l n x k m);
  }
    where
      xs : List ℕ
      xs = (taken s.size n (free l)).1

  -- What kfree writes: the node's `next` and the head of the list of its size.
  abbrev pub freed : Kmalloc M → ℕ → FreeList → Kmalloc M
  freed s p l = record s {
    head = λ k. if same_list k l then p else s.head k;
    next = update s.next p (s.head l);
  }

  pub kfree_lem :
      (s : Kmalloc M) (p : ℕ)
      → p + 16 < 2 ^ 32
      → kfree (p + 16) s ≡ freed s p (list_of_size (s.size p))
  unfolding kfree set_next
  kfree_lem s p small =
      let addr : sub32 (p + 16) 16 ≡ p = omega arith in
      let set : (p + 16 == 0) ≡ false = ground arith in rw (set, addr)

  -- A node that stands on no list can be put back, on the list of its size.
  pub freed-IsKmalloc :
      (s : Kmalloc M) (free : Free) (p : ℕ) (l : FreeList)
      → IsKmalloc s free
      → p ≢ 0
      → ((k : FreeList) → mem p (free k) ≡ false)
      → list_of_size (s.size p) ≡ l
      → least l ≤ s.size p
      → IsKmalloc (freed s p l) (put free l (p ∷ free l))
  freed-IsKmalloc s free p l v pos out e room = record {
    chain =
        put-elim
          (λ k ys. Chain (update s.next p (s.head l)) (if same_list k l then p else s.head k) ys)
          free l (p ∷ free l)
          (rw (same_list_self l, update_self s.next p (s.head l)) (refl, pos, kept l))
          λ k e. rw e (kept k);
    distinct =
        put-elim (λ _ ys. Distinct ys) free l (p ∷ free l) (out l, v.distinct l)
          λ k _. v.distinct k;
    apart = λ j k x d m. ground (
      arith,
      eq_of_same_list j l,
      eq_of_same_list k l,
      same_list_self l,
      v.apart j k x d,
      out j,
      out k,
    );
    sized =
        put-elim (λ k ys. (x : ℕ) → mem x ys ≡ true → list_of_size (s.size x) ≡ k) free l
          (p ∷ free l) (λ x m. ground (arith, v.sized l x)) λ k _. v.sized k;
    room =
        put-elim (λ k ys. (x : ℕ) → mem x ys ≡ true → least k ≤ s.size x) free l (p ∷ free l)
          (λ x m. ground (arith, v.room l x)) λ k _. v.room k;
  }
    where
      kept : (k : FreeList) → Chain (update s.next p (s.head l)) (s.head k) (free k)
      kept k = Chain-update s.next (s.head k) (free k) p (s.head l) (v.chain k) (out k)

  -- The calls of kmalloc that find a node on a list.
  pub pick-IsKmalloc :
      (fuel n : ℕ) (l : FreeList) (s : Kmalloc M) (free : Free)
      → IsKmalloc s free
      → length (free l) < fuel
      → (head : FreeList → ℕ) × (next : ℕ → ℕ) × (pick fuel l n s
          ≡ some ((taken s.size n (free l)).0, record s { head = head; next = next }))
        × IsKmalloc (record s { head = head; next = next }) (put free l (taken s.size n (free l)).1)
  pick-IsKmalloc fuel n l s free v enough =
      let (head, next, p) = pick_lem fuel n l s (free l) enough (v.chain l) (v.distinct l) in
      (head, next, p.result, Picked-IsKmalloc s free l n (pick fuel l n s) head next v p)
