-- ===== src/Workqueue/Timers/Order.antt =====
-- The order of the list of xio_timers_list.h, on a clock that wraps.
use accelio.Prelude.{
  sub_wrap, ℕ, ◌^◌, ◌≤◌, ◌<◌, true, ◌≡◌, refl, ap, List, [], ◌∷◌, ◌++◌, arith, Bool-cases, inl, inr,
  ◌↔◌,
}
use accelio.Workqueue.Timers.{Timer, time_before64, place, timers_list_add}

-- How long after `base` a timer expires, on the clock of 64 bits.
abbrev pub age : ℕ → Timer → ℕ
age base t = sub_wrap 64 t.expires base

-- A reading of the clock, and a delay of less than half its range.
abbrev pub InWindow : ℕ → Timer → Type 0
InWindow base t = (t.expires < 2 ^ 64) × (age base t < 2 ^ 63)

abbrev pub All : (Timer → Type 0) → List Timer → Type 0
All P [] = Unit
All P (e ∷ es) = P e × All P es

-- Earlier timers first.
abbrev pub Sorted : ℕ → List Timer → Type 0
Sorted base [] = Unit
Sorted base (e ∷ es) = All (λ x. age base e ≤ age base x) es × Sorted base es

pub time_before64-age :
    (base : ℕ) (s t : Timer)
    → base < 2 ^ 64
    → InWindow base s
    → InWindow base t
    → (time_before64 s.expires t.expires ≡ true) ↔ (age base s < age base t)
time_before64-age base s t b ws wt = ground arith

-- `es'` is `es` with `t` after every timer that does not expire later, before the others.
pub record Placed (base : ℕ) (t : Timer) (es es' : List Timer) : Type 0 where
  pub before : List Timer
  pub after : List Timer
  pub split : es ≡ before ++ after
  pub joined : es' ≡ before ++ t ∷ after
  pub earlier : All (λ x. age base x ≤ age base t) before
  pub later : All (λ x. age base t < age base x) after

All-mono :
    (P Q : Timer → Type 0) (es : List Timer) → ((x : Timer) → P x → Q x) → All P es → All Q es
All-mono P Q [] f a = tt
All-mono P Q (e ∷ es) f a = (f e a.0, All-mono P Q es f a.1)

place-All : (P : Timer → Type 0) (t : Timer) (es : List Timer) → P t → All P es → All P (place t es)
unfolding place
place-All P t [] p a = (p, tt)
place-All P t (e ∷ es) p a = elim (Bool-cases (time_before64 t.expires e.expires)) [
  | inl h ↦ rw h (p, a)
  | inr h ↦ rw h (a.0, place-All P t es p a.1)
]

module _ (base : ℕ) (b : base < 2 ^ 64) (t : Timer) (wt : InWindow base t) where
  place-Placed :
      (es : List Timer) → All (InWindow base) es → Sorted base es → Placed base t es (place t es)
  unfolding place
  place-Placed [] w s = record {
    before = [];
    after = [];
    split = refl;
    joined = refl;
    earlier = tt;
    later = tt;
  }
  place-Placed (e ∷ es) w s =
      let ih = place-Placed es w.1 s.1 in
      elim (Bool-cases (time_before64 t.expires e.expires)) [
        | inl h ↦
            let lt = (time_before64-age base t e b wt w.0).0 h in
            record {
              before = [];
              after = e ∷ es;
              split = refl;
              joined = rw h refl;
              earlier = tt;
              later = (
                lt,
                All-mono (λ x. age base e ≤ age base x) (λ x. age base t < age base x) es
                    (λ x p. omega (arith, lt, p)) s.0,
              );
            }
        | inr h ↦ record {
          before = e ∷ ih.before;
          after = ih.after;
          split = ap (λ l. e ∷ l) ih.split;
          joined = rw h (ap (λ l. e ∷ l) ih.joined);
          earlier = (ground (arith, h, (time_before64-age base t e b wt w.0).1), ih.earlier);
          later = ih.later;
        }
      ]

  place-Sorted :
      (es : List Timer) → All (InWindow base) es → Sorted base es → Sorted base (place t es)
  unfolding place
  place-Sorted [] w s = (tt, tt)
  place-Sorted (e ∷ es) w s =
      let ih = place-Sorted es w.1 s.1 in
      elim (Bool-cases (time_before64 t.expires e.expires)) [
        | inl h ↦
            let lt = (time_before64-age base t e b wt w.0).0 h in
            rw h (
              (
                omega (arith, lt),
                All-mono (λ x. age base e ≤ age base x) (λ x. age base t ≤ age base x) es
                    (λ x p. omega (arith, lt, p)) s.0,
              ),
              s,
            )
        | inr h ↦ rw h (
          place-All (λ x. age base e ≤ age base x) t es
              (ground (arith, h, (time_before64-age base t e b wt w.0).1)) s.0,
          ih,
        )
      ]

  -- Where the timers of the list and the new one lie in a window of half the clock's range, with
  -- readings of 64 bits, and the list is in the order of expiry, xio_timers_list_add keeps the
  -- order, puts the new timer behind all that expire no later and before all that expire later,
  -- and drops none.
  pub add-Sorted :
      (es : List Timer)
      → All (InWindow base) es
      → Sorted base es
      → let r = timers_list_add es t in Sorted base r.1 × Placed base t es r.1
  unfolding timers_list_add
  add-Sorted es w s = (place-Sorted es w s, place-Placed es w s)
