-- ===== src/Scheduler/Sleep.antt =====
-- The list of sleepers of kernel/scheduler.c: each thread stores the ticks behind those of the ones
-- before it, and where a newcomer is put.
use osdev_course.Common.{
  ℕ, zero, suc, ◌+◌, ◌^◌, ◌<◌, ◌≡◌, refl, ap, ◌∙◌, ◌≢◌, inl, inr, true, false, List, [], ◌∷◌, ◌++◌,
  arith, ◌==◌, leb, if◌then◌else◌, length, mem, Distinct, update, Bool-cases, ok, sub32,
}
use osdev_course.Scheduler.{Scheduler, find_slot}
use osdev_course.Scheduler.Links.{Seg, last, first}

-- The ticks stored up to and with a sleeper.
abbrev pub ticks_up_to : (ℕ → ℕ) → List ℕ → ℕ → ℕ
ticks_up_to ticks [] z = 0
ticks_up_to ticks (y ∷ ys) z = if z == y then ticks y else ticks y + ticks_up_to ticks ys z

pub ticks_up_to-frame :
    (ticks ticks' : ℕ → ℕ) (ys : List ℕ) (z : ℕ)
    → ((y : ℕ) → mem y ys ≡ true → ticks' y ≡ ticks y)
    → ticks_up_to ticks' ys z ≡ ticks_up_to ticks ys z
ticks_up_to-frame ticks ticks' [] z same = refl
ticks_up_to-frame ticks ticks' (y ∷ ys) z same =
    ground (arith, same y, ticks_up_to-frame ticks ticks' ys z (λ w m. same w (ground arith)))

-- Where the newcomer `x` goes among `zs`, and what the ticks are afterwards.
pub record Slot (ticks ticks' : ℕ → ℕ) (x : ℕ) (zs xs ys : List ℕ) : Type 0 where
  pub split : zs ≡ xs ++ ys
  pub small : (z : ℕ) → ticks' z < 2 ^ 32
  pub others : (z : ℕ) → mem z (x ∷ zs) ≡ false → ticks' z ≡ ticks z
  -- The ticks stored up to and with a sleeper sum to what they did, and up to the newcomer to its own.
  pub same_sum :
      (z : ℕ) → mem z zs ≡ true → ticks_up_to ticks' (xs ++ x ∷ ys) z ≡ ticks_up_to ticks zs z
  pub own_sum : ticks_up_to ticks' (xs ++ x ∷ ys) x ≡ ticks x

-- The newcomer's ticks after it has passed a sleeper.
abbrev passed : ℕ → ℕ → Scheduler → Scheduler
passed x z s = record s {
  sleep_tick = update s.sleep_tick x (sub32 (s.sleep_tick x) (s.sleep_tick z));
}

find_slot-passed :
    (fuel x from z : ℕ) (s : Scheduler)
    → s.next from ≡ z
    → z ≢ 0
    → leb (s.sleep_tick x) (s.sleep_tick z) ≡ false
    → find_slot (suc fuel) x from s ≡ find_slot fuel x z (passed x z s)
unfolding find_slot
find_slot-passed fuel x from z s e ne late =
    let set : (z == 0) ≡ false = ground arith in rw (e, set, late)

pub find_slot-Slot :
    (fuel x from : ℕ) (s : Scheduler) (zs : List ℕ)
    → length zs < fuel
    → Seg s.next s.prev from zs
    → mem x zs ≡ false
    → Distinct zs
    → ((z : ℕ) → s.sleep_tick z < 2 ^ 32)
    → (xs : List ℕ) × (ys : List ℕ) × (ticks : ℕ → ℕ) × (find_slot fuel x from s
        ≡ ok (last from xs, first ys, record s { sleep_tick = ticks }))
      × Slot s.sleep_tick ticks x zs xs ys
unfolding find_slot
find_slot-Slot zero x from s zs h seg out d small = absurd (omega arith)
find_slot-Slot (suc fuel) x from s [] h seg out d small = (
  [],
  [],
  s.sleep_tick,
  ground arith,
  record {
    split = refl;
    small = small;
    others = λ z _. refl;
    same_sum = λ z m. cc;
    own_sum = ground arith;
  },
)
find_slot-Slot (suc fuel) x from s (z ∷ zs) h seg out d small =
    elim (Bool-cases (leb (s.sleep_tick x) (s.sleep_tick z))) [
      | inl early ↦
          let ticks = update s.sleep_tick z (sub32 (s.sleep_tick z) (s.sleep_tick x)) in
          (
            [],
            z ∷ zs,
            ticks,
            ground arith,
            record {
              split = refl;
              small = λ w. ground (arith, small w);
              others = λ w m. ground arith;
              same_sum = λ w m.
                  ground (
                    arith,
                    small z,
                    ticks_up_to-frame s.sleep_tick ticks zs w (λ y k. ground arith),
                  );
              own_sum = ground arith;
            },
          )
      | inr late ↦
          let s1 = passed x z s in
          let (xs, ys, ticks, e, slot) =
            find_slot-Slot fuel x z s1 zs (omega arith) seg.3 (ground arith) d.1
              (λ w. ground (arith, small w)) in
          (
            z ∷ xs,
            ys,
            ticks,
            find_slot-passed fuel x from z s seg.0 seg.1 late ∙ e,
            record {
              split = ap (λ (l : List ℕ). z ∷ l) slot.split;
              small = slot.small;
              others = λ w m. ground (arith, slot.others w);
              same_sum = λ w m. ground (
                arith,
                slot.others z,
                slot.same_sum w,
                ticks_up_to-frame s.sleep_tick s1.sleep_tick zs w (λ y k. ground arith),
              );
              own_sum = ground (arith, slot.own_sum, slot.others z, small x);
            },
          )
    ]
