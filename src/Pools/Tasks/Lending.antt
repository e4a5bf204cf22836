-- ===== src/Pools/Tasks/Lending.antt =====
-- The requests to a pool of tasks: get, put and further references.
use accelio.Prelude.{
  ℕ, ◌+◌, ◌-◌, ◌≤◌, ◌<◌, false, ◌≡◌, refl, ap, Option, none, some, List, [], ◌∷◌, ◌==◌, sub_wrap,
  length, arith, Bool-cases, inl, inr, sym, subst,
}
use accelio.Prelude.Counts.{times, times-remove, length-remove, length-positive}
use accelio.Pools.Tasks.{
  Pool, Answers, alloc_slab, make_slab, link_slab, last_entry, hand_out, grow_and_get, get,
}
use accelio.Pools.Tasks.Ledger.{Ledger, slab_tasks, alloc_slab-Ledger}

last_entry-times : (t : ℕ) (ts : List ℕ) → 0 < times (last_entry t ts) (t ∷ ts)
last_entry-times t [] = ground arith
last_entry-times t (u ∷ r) = ground (arith, last_entry-times u r)

hand_out-Ledger :
    (q : Pool) (lent : List ℕ) (t context : ℕ)
    → Ledger q lent
    → 0 < times t q.stack
    → q.curr_used + 1 ≤ q.params.max_nr - 1
    → Ledger (hand_out q t context) (t ∷ lent)
unfolding hand_out
hand_out-Ledger q lent t context l h k = record {
  sane = l.sane;
  owned = λ x. ground (arith, h, times-remove x t q.stack, l.owned x);
  single = l.single;
  below = l.below;
  live = l.live;
  old = l.old;
  used = omega (arith, l.used, l.sane.max);
  alloced = omega (arith, l.alloced, length-remove t q.stack h, length-positive t q.stack h);
  limit = l.limit;
  begun = l.begun;
  spare = omega (arith, k, l.sane.max);
  counted = λ x e. ground (arith, e, l.counted x);
}

-- What a pool gives: a task of its own that was not lent and not given back to the allocator, with
-- one reference, which is now lent; or nothing, and nothing is lent.
pub data Lends (q' : Pool) (lent : List ℕ) : Option ℕ → Type 0 where
  lends :
      (t : ℕ)
      → times t lent ≡ 0
      → times t (slab_tasks q'.slabs_list) ≡ 1
      → times t q'.freed ≡ 0
      → (q'.task t).kref ≡ 1
      → Ledger q' (t ∷ lent)
      → Lends q' lent (some t)
  refuses : Ledger q' lent → Lends q' lent none

hand_out-Lends :
    (q : Pool) (lent : List ℕ) (t context : ℕ)
    → Ledger q lent
    → 0 < times t q.stack
    → q.curr_used + 1 ≤ q.params.max_nr - 1
    → Lends (hand_out q t context) lent (some t)
unfolding hand_out
hand_out-Lends q lent t context l h k =
    let own = l.owned t in
    let one = l.single t in
    lends t (omega (arith, own, one, h)) (omega (arith, own, one, h))
      (l.live t (omega (arith, own, h))) (ground arith)
      (unfold hand_out in hand_out-Ledger q lent t context l h k)

grow_step :
    (q1 : Pool) (s : List ℕ) (lent : List ℕ) (context : ℕ)
    → Ledger q1 lent
    → q1.stack ≡ s
    → (q1.curr_used == sub_wrap 32 q1.params.max_nr 1) ≡ false
    → let r : Pool × Option ℕ = elim s [
      | [] ↦ (q1, none)
      | t ∷ ts ↦ (hand_out q1 (last_entry t ts) context, some (last_entry t ts))
    ] in
      Lends r.0 lent r.1
grow_step q1 [] lent context l e k = refuses l
grow_step q1 (t ∷ ts) lent context l e k =
    hand_out-Lends q1 lent (last_entry t ts) context l
      (subst (λ s. 0 < times (last_entry t ts) s) (sym e) (last_entry-times t ts))
      (ground (arith, k, l.spare, l.limit, l.alloced, ap length e, l.sane.max))

alloc_slab-kept :
    (q : Pool) (context : ℕ) (ans : Answers)
    → let q1 = (alloc_slab q context ans).1 in (q1.curr_used ≡ q.curr_used) × (q1.params ≡ q.params)
unfolding alloc_slab make_slab link_slab
alloc_slab-kept q context ans = (ground arith, ground arith)

grow_and_get-Lends :
    (q : Pool) (lent : List ℕ) (context : ℕ) (ans : Answers)
    → Ledger q lent
    → ans.slab_post_create ≡ 0
    → let r = grow_and_get q context ans in Lends r.0 lent r.1
unfolding grow_and_get
grow_and_get-Lends q lent context ans l p =
    let (u, e) = alloc_slab-kept q context ans in
    elim (Bool-cases (q.curr_used == sub_wrap 32 q.params.max_nr 1)) [
      | inl f ↦ rw f (refuses l)
      | inr f ↦ rw f (
          grow_step (alloc_slab q context ans).1 (alloc_slab q context ans).1.stack lent context
            (alloc_slab-Ledger q lent context ans l p) refl (rw (u, e) f))
    ]

get_cases :
    (q : Pool) (s : List ℕ) (lent : List ℕ) (context : ℕ) (ans : Answers)
    → q.stack ≡ s
    → Ledger q lent
    → ans.slab_post_create ≡ 0
    → let r : Pool × Option ℕ = elim s [
      | [] ↦ grow_and_get q context ans
      | t ∷ [] ↦ grow_and_get q context ans
      | t ∷ u ∷ r ↦ (hand_out q t context, some t)
    ] in
      Lends r.0 lent r.1
get_cases q [] lent context ans e l p = grow_and_get-Lends q lent context ans l p
get_cases q (t ∷ []) lent context ans e l p = grow_and_get-Lends q lent context ans l p
get_cases q (t ∷ u ∷ r) lent context ans e l p =
    hand_out-Lends q lent t context l (rw e (ground arith))
      (omega (arith, l.used, l.alloced, ap length e, l.limit))

-- A pool whose account is in order gives a task of its own that is not lent and does not lie in
-- memory that was given back, with one reference, and the account with that task lent is in order;
-- or it gives nothing and the account is in order. So it is whatever the allocator and the hooks
-- answer, if the last hook, called once a slab is linked, answers 0.
pub get-Lends :
    (q : Pool) (lent : List ℕ) (context : ℕ) (ans : Answers)
    → Ledger q lent
    → ans.slab_post_create ≡ 0
    → let r = get q context ans in Lends r.0 lent r.1
unfolding get
get-Lends q lent context ans l p = get_cases q q.stack lent context ans refl l p
