-- ===== src/Workqueue/Delayed/Due.antt =====
-- Which delayed works a pass over the list runs.
use accelio.Prelude.{
  sub_wrap, ℕ, ◌^◌, ◌≤◌, ◌<◌, Bool, true, false, ◌≡◌, refl, sym, ap, some, List, [], ◌∷◌,
  if◌then◌else◌, leb, ◌==◌, arith, Bool-cases, inl, inr, ◌↔◌, length, replicate, zero, suc,
}
use accelio.Workqueue.{Queue, set_pending, call}
use accelio.Workqueue.Timers.{Timer, time_before_eq64}
use accelio.Workqueue.Timers.Order.{age, InWindow, All, Sorted}
use accelio.Workqueue.Delayed.{expire}

-- Functions of works that leave the queue alone.
abbrev pub idle : ℕ → Queue → Queue
idle w q = q

time_before_eq64-age :
    (base now : ℕ) (t : Timer)
    → base < 2 ^ 64
    → InWindow base t
    → InWindow base (record { dwork = 0; expires = now })
    → (time_before_eq64 t.expires now ≡ true) ↔ (age base t ≤ sub_wrap 64 now base)
time_before_eq64-age base now t b wt wn = ground arith

-- The timers split by a reading of the clock.
abbrev pub due : ℕ → ℕ → List Timer → List Timer
due base now [] = []
due base now (e ∷ es) =
    let rest = due base now es in if leb (age base e) (sub_wrap 64 now base) then e ∷ rest else rest

abbrev pub not_due : ℕ → ℕ → List Timer → List Timer
not_due base now [] = []
not_due base now (e ∷ es) =
    let rest = not_due base now es in
    if leb (age base e) (sub_wrap 64 now base) then rest else e ∷ rest

-- The calls of the works, newest first.
abbrev pub called : List Timer → List ℕ → List ℕ
called [] l = l
called (e ∷ es) l = called es (e.dwork ∷ l)

module _ (base now : ℕ) where
  late_due :
      (a : ℕ) (es : List Timer)
      → sub_wrap 64 now base < a
      → All (λ x. a ≤ age base x) es
      → (due base now es ≡ []) × (not_due base now es ≡ es)
  late_due a [] h s = (refl, refl)
  late_due a (e ∷ es) h s = ground (arith, late_due a es h)

-- Whether a work has a timer in a list.
abbrev pub among : ℕ → List Timer → Bool
among x [] = false
among x (e ∷ es) = let rest = among x es in if x == e.dwork then true else rest

-- The state that a pass with the clock at `now` leaves.
pub record Passed (base now : ℕ) (q q' : Queue) : Type 0 where
  pub left : q'.timers_list ≡ not_due base now q.timers_list
  pub ran : q'.calls ≡ called (due base now q.timers_list) q.calls
  pub flags :
      (x : ℕ) → q'.pending x ≡ (if among x (due base now q.timers_list) then false else q.pending x)

abbrev pub dispatched : Timer → List Timer → Queue → Queue
dispatched t ts q = call t.dwork (set_pending t.dwork false (record q { timers_list = ts }))

module _ (base now : ℕ) where
  leb-true : (a c : ℕ) → a ≤ c → leb a c ≡ true
  leb-true a c h = ground arith

  leb-false : (a c : ℕ) → c < a → leb a c ≡ false
  leb-false a c h = ground arith

  -- A timer that is due, and what follows it.
  due-Passed :
      (e : Timer) (es : List Timer) (q q' : Queue)
      → age base e ≤ sub_wrap 64 now base
      → Passed base now (dispatched e es q) q'
      → Passed base now (record q { timers_list = e ∷ es }) q'
  due-Passed e es q q' h p = record {
    left = rw (leb-true (age base e) (sub_wrap 64 now base) h) p.left;
    ran = rw (leb-true (age base e) (sub_wrap 64 now base) h) p.ran;
    flags = λ x. rw (leb-true (age base e) (sub_wrap 64 now base) h) (ground (arith, p.flags x));
  }

  -- The first timer is not due, so none is.
  early-Passed :
      (e : Timer) (es : List Timer) (q : Queue)
      → sub_wrap 64 now base < age base e
      → All (λ x. age base e ≤ age base x) es
      → Passed base now (record q { timers_list = e ∷ es }) (record q { timers_list = e ∷ es })
  early-Passed e es q h s =
      let (d, r) = late_due base now (age base e) es h s in
      record {
        left = rw (leb-false (age base e) (sub_wrap 64 now base) h) (ap (λ l. e ∷ l) (sym r));
        ran = rw (leb-false (age base e) (sub_wrap 64 now base) h, d) refl;
        flags = λ x. rw (leb-false (age base e) (sub_wrap 64 now base) h, d) refl;
      }

module _ (base now : ℕ) (b : base < 2 ^ 64)
    (wn : InWindow base (record { dwork = 0; expires = now })) where
  expire-due :
      (n : ℕ) (es : List Timer) (q : Queue)
      → length es ≤ n
      → All (InWindow base) es
      → Sorted base es
      → (q' : Queue) × (expire idle (replicate n now) (record q { timers_list = es }) ≡ some q')
        × Passed base now (record q { timers_list = es }) q'
  unfolding expire
  expire-due zero [] q h w s =
      (record q { timers_list = [] }, refl, record { left = refl; ran = refl; flags = λ x. refl })
  expire-due (suc n) [] q h w s =
      (record q { timers_list = [] }, refl, record { left = refl; ran = refl; flags = λ x. refl })
  expire-due zero (e ∷ es) q h w s = absurd (omega arith)
  expire-due (suc n) (e ∷ es) q h w s =
      let (q', r, p) = expire-due n es (dispatched e es q) (omega arith) w.1 s.1 in
      let cmp = time_before_eq64-age base now e b w.0 wn in
      elim (Bool-cases (time_before_eq64 e.expires now)) [
        | inl k ↦ (q', rw k r, due-Passed base now e es q q' (cmp.0 k) p)
        | inr k ↦ (
          record q { timers_list = e ∷ es },
          rw k refl,
          early-Passed base now e es q (ground (arith, k, cmp.1)) s.0,
        )
      ]

  -- A pass of xio_timers_list_expire over a list in the order of expiry, with as many iterations
  -- as the list has timers, the clock at one reading within the window, and functions that leave
  -- the queue alone, ends; it has run exactly the works that are due, the earliest first, has
  -- cleared their pending flags, and has kept the other timers.
  pub expire_runs_due :
      (q : Queue)
      → All (InWindow base) q.timers_list
      → Sorted base q.timers_list
      → (q' : Queue) × (expire idle (replicate (length q.timers_list) now) q ≡ some q')
        × Passed base now q q'
  expire_runs_due q w s = expire-due (length q.timers_list) q.timers_list q (omega arith) w s
