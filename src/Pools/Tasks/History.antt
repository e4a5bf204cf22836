-- ===== src/Pools/Tasks/History.antt =====
-- The requests to a pool of tasks over time: get, put and further references.
use accelio.Prelude.{
  ℕ, ◌+◌, ◌^◌, ◌<◌, ◌≡◌, refl, ap, Option, none, some, List, [], ◌∷◌, if◌then◌else◌, ◌==◌, u32,
  sub_wrap, length, arith, Bool-cases, inl, inr, subst,
}
use mathlib.Core.Option.{some_inj}
use accelio.Prelude.Counts.{
  times, remove, times-remove, length-remove, remove_absent, length-positive,
}
use accelio.Pools.Tasks.{
  Task, Params, Pool, Answers, write, alloc_slab, create, empty_pool, unless_empty, get, addref,
  release, put,
}
use accelio.Pools.Tasks.Ledger.{Ledger, Sane, alloc_slab-Ledger}
use accelio.Pools.Tasks.Lending.{Lends, get-Lends}

-- A pool and the tasks it has lent, before and after one request. A reference is only taken or
-- given back by a holder, and its count stays a 32-bit number.
pub data Step : Pool → List ℕ → Pool → List ℕ → Type 0 where
  gets :
      {q : Pool} {lent : List ℕ} (context : ℕ) (ans : Answers) (t : ℕ)
      → ans.slab_post_create ≡ 0
      → (get q context ans).1 ≡ some t
      → Step q lent (get q context ans).0 (t ∷ lent)
  exhausted :
      {q : Pool} {lent : List ℕ} (context : ℕ) (ans : Answers)
      → ans.slab_post_create ≡ 0
      → (get q context ans).1 ≡ none
      → Step q lent (get q context ans).0 lent
  addrefs :
      {q : Pool} {lent : List ℕ} (t : ℕ)
      → 0 < times t lent
      → (q.task t).kref + 1 < 2 ^ 32
      → Step q lent (addref q t) lent
  puts :
      {q : Pool} {lent : List ℕ} (t : ℕ)
      → 0 < times t lent
      → Step q lent (put q t) (if (q.task t).kref == 1 then remove t lent else lent)

pub release-Ledger :
    (q : Pool) (lent : List ℕ) (t : ℕ)
    → Ledger q lent
    → 0 < times t lent
    → Ledger (release q t) (remove t lent)
unfolding release
release-Ledger q lent t l h = record {
  sane = l.sane;
  owned = λ x.
      ground (arith, h, times-remove x t q.stack, times-remove x t lent, l.owned x, l.single x);
  single = l.single;
  below = l.below;
  live = l.live;
  old = l.old;
  used = omega (
    arith,
    l.used,
    l.limit,
    l.alloced,
    l.sane.max,
    length-remove t lent h,
    length-positive t lent h,
  );
  alloced = omega (
    arith,
    l.alloced,
    length-remove t lent h,
    length-positive t lent h,
    ap length (remove_absent t q.stack (omega (arith, l.owned t, l.single t, h))),
  );
  limit = l.limit;
  begun = l.begun;
  spare = omega (arith, l.used, l.limit, l.alloced, l.sane.max, l.spare, length-positive t lent h);
  counted = λ x e. ground (arith, e, times-remove x t lent, l.counted x, l.owned x, l.single x);
}

recount :
    (q : Pool) (lent : List ℕ) (t n : ℕ)
    → Ledger q lent
    → 0 < n
    → n < 2 ^ 32
    → Ledger (record q { task = write q.task t (record (q.task t) { kref = n }) }) lent
recount q lent t n l h k = record {
  sane = l.sane;
  owned = l.owned;
  single = l.single;
  below = l.below;
  live = l.live;
  old = l.old;
  used = l.used;
  alloced = l.alloced;
  limit = l.limit;
  begun = l.begun;
  spare = l.spare;
  counted = λ x e. ground (arith, e, h, k, l.counted x);
}

given :
    (q' : Pool) (lent : List ℕ) (o : Option ℕ)
    → Lends q' lent o
    → (t : ℕ) → o ≡ some t
    → Ledger q' (t ∷ lent)
given q' lent o (Lends.lends u a b c d l) t e = subst (λ v. Ledger q' (v ∷ lent)) (some_inj.0 e) l
given q' lent o (Lends.refuses l) t e = absurd (cc)

withheld : (q' : Pool) (lent : List ℕ) (o : Option ℕ) → Lends q' lent o → o ≡ none → Ledger q' lent
withheld q' lent o (Lends.lends u a b c d l) e = absurd (cc)
withheld q' lent o (Lends.refuses l) e = l

put-Ledger :
    (q : Pool) (lent : List ℕ) (t : ℕ)
    → Ledger q lent
    → 0 < times t lent
    → Ledger (put q t) (if (q.task t).kref == 1 then remove t lent else lent)
unfolding put
put-Ledger q lent t l h = elim (Bool-cases ((q.task t).kref == 1)) [
  | inl e ↦ rw e (release-Ledger q lent t l h)
  | inr e ↦ rw e (
      recount q lent t (sub_wrap 32 (q.task t).kref 1) l (ground (arith, e, l.counted t h))
        (omega arith))
]

-- Each request keeps the account in order.
pub Step-Ledger :
    {q q' : Pool} {lent lent' : List ℕ} → Step q lent q' lent' → Ledger q lent → Ledger q' lent'
unfolding addref
Step-Ledger {q} {lent = lent} (Step.gets context ans t p e) l =
    given (get q context ans).0 lent (get q context ans).1 (get-Lends q lent context ans l p) t e
Step-Ledger {q} {lent = lent} (Step.exhausted context ans p e) l =
    withheld (get q context ans).0 lent (get q context ans).1 (get-Lends q lent context ans l p) e
Step-Ledger {q} {lent = lent} (Step.addrefs t h k) l =
    recount q lent t (u32 ((q.task t).kref + 1)) l (ground (arith, k)) (omega arith)
Step-Ledger {q} {lent = lent} (Step.puts t h) l = put-Ledger q lent t l h

unless_empty-some : (q1 q : Pool) (s : List ℕ) → unless_empty q1 s ≡ some q → q1 ≡ q
unless_empty-some q1 q [] e = absurd (cc)
unless_empty-some q1 q (t ∷ ts) e = some_inj.0 e

pub empty_pool-Ledger :
    (p : Params) (context : ℕ) (mem : ℕ → Task) → Sane p → Ledger (empty_pool p context mem) []
empty_pool-Ledger p context mem s = record {
  sane = s;
  owned = λ x. refl;
  single = λ x. omega arith;
  below = λ x h. refl;
  live = λ x h. refl;
  old = λ x h. refl;
  used = refl;
  alloced = refl;
  limit = omega arith;
  begun = inl refl;
  spare = omega arith;
  counted = λ x h. absurd (omega arith);
}

create-Ledger :
    (p : Params) (context : ℕ) (mem : ℕ → Task) (ans : Answers) (q : Pool)
    → Sane p
    → ans.slab_post_create ≡ 0
    → create p context mem ans ≡ some q
    → Ledger q []
unfolding create
create-Ledger p context mem ans q s a e =
    let q0 = empty_pool p context mem in
    let q1 = (alloc_slab q0 context ans).1 in
    let l0 = empty_pool-Ledger p context mem s in
    elim (Bool-cases (p.start_nr == 0)) [
      | inl z ↦ subst (λ r. Ledger r []) (some_inj.0 (ground (arith, z, e))) l0
      | inr z ↦
          subst (λ r. Ledger r []) (unless_empty-some q1 q q1.stack (ground (arith, z, e)))
            (alloc_slab-Ledger q0 [] context ans l0 a)
    ]

-- A history of requests.
pub data Run : Pool → List ℕ → Pool → List ℕ → Type 0 where
  start : {q : Pool} {lent : List ℕ} → Run q lent q lent
  then_ :
      {q q1 q' : Pool} {lent lent1 lent' : List ℕ}
      → Run q lent q1 lent1
      → Step q1 lent1 q' lent'
      → Run q lent q' lent'

Run-Ledger :
    {q q' : Pool} {lent lent' : List ℕ} → Run q lent q' lent' → Ledger q lent → Ledger q' lent'
Run-Ledger Run.start l = l
Run-Ledger (Run.then_ r s) l = Step-Ledger s (Run-Ledger r l)

-- After any history of requests to a pool just made, the account is in order: each task of the
-- slabs is free or lent, once; a task that is lent has a reference; the counts are those of the
-- lists; there are never more tasks than max_nr, and never max_nr of them lent. The parameters ask
-- for no more tasks at the start than max_nr, and the last hook of each slab answers 0.
pub create-run-Ledger :
    (p : Params) (context : ℕ) (mem : ℕ → Task) (ans : Answers) (q q' : Pool) (lent : List ℕ)
    → Sane p
    → ans.slab_post_create ≡ 0
    → create p context mem ans ≡ some q
    → Run q [] q' lent
    → Ledger q' lent
create-run-Ledger p context mem ans q q' lent s a e r =
    Run-Ledger r (create-Ledger p context mem ans q s a e)
