-- ===== src/Caches/Sessions/Wrap.antt =====
-- The additions to the cache of sessions past the last number.
use accelio.Prelude.{
  ℕ, suc, ◌^◌, ◌≤◌, ◌<◌, false, ◌≡◌, refl, sym, ap, ◌∙◌, none, some, List, [], ◌∷◌, ltb, arith,
  Bool-cases, Option-cases, inl, inr, subst, ◌≢◌,
}
use accelio.Table.{Table, lookup, remove}
use accelio.Table.Map.{lookup-insert, lookup-remove}
use accelio.Table.Invariant.{WellFormed, remove-WellFormed}
use accelio.Caches.Sessions.{SessionsCache, sessions_cache_construct, sessions_cache_remove}
use accelio.Caches.Sessions.Numbers.{
  Change, add, remove_number, numbers, given, additions, Fresh, add-some, remove-none, remove-some,
  below, insert-Fresh, remove-Fresh, added, given-add, construct-Fresh,
}

ltb-false : (a b : ℕ) → b ≤ a → ltb a b ≡ false
ltb-false a b h = ground arith

module _ {ℓ} {S : Type ℓ} where
  -- No call removes number 0.
  abbrev pub KeepsFirst : List (Change S) → Type 0
  KeepsFirst [] = Unit
  KeepsFirst (add s ∷ cs) = KeepsFirst cs
  KeepsFirst (remove_number i ∷ cs) = (i ≢ 0) × KeepsFirst cs

  -- Number 0 is taken and is the next one.
  record Stuck (c : SessionsCache S) : Type ℓ where
    first : S
    wf : WellFormed c.sessions_cache
    wrapped : c.sid ≡ 0
    taken : lookup c.sessions_cache 0 ≡ some first

  removed_first :
      {s : S} (t : Table S) (i : ℕ)
      → i ≢ 0
      → WellFormed t
      → lookup t 0 ≡ some s
      → lookup (remove t i) 0 ≡ some s
  removed_first t i ne w e = ground (arith, ne, e, lookup-remove t i 0 w.chained (w.distinct i))

  remove-Stuck :
      (c : SessionsCache S) (i : ℕ) → i ≢ 0 → Stuck c → Stuck (sessions_cache_remove c i).1
  remove-Stuck c i ne k = elim (Option-cases (lookup c.sessions_cache i)) [
    | inl e ↦ subst Stuck (sym (remove-none c i e)) k
    | inr (s0, e) ↦ subst Stuck (sym (remove-some c i s0 e)) (record {
      first = k.first;
      wf = remove-WellFormed c.sessions_cache i s0 e k.wf;
      wrapped = k.wrapped;
      taken = removed_first c.sessions_cache i ne k.wf k.taken;
    })
  ]

  given-Stuck :
      (c : SessionsCache S) (n : ℕ) (cs : List (Change S))
      → 2 ^ 32 ≤ n
      → Stuck c
      → KeepsFirst cs
      → given c cs ≡ numbers n (additions cs)
  given-Stuck c n [] l k h = refl
  given-Stuck c n (add s ∷ cs) l k h =
      ap (λ r. r.0 ∷ given r.1 cs)
        (add-some c s k.first (ap (lookup c.sessions_cache) k.wrapped ∙ k.taken))
      ∙ rw (ltb-false n (2 ^ 32) l)
          (ap (λ r. none ∷ r) (given-Stuck c (suc n) cs (omega arith) k h))
  given-Stuck c n (remove_number i ∷ cs) l k h =
      given-Stuck (sessions_cache_remove c i).1 n cs l (remove-Stuck c i h.0 k) h.1

  -- Number 0 is taken, and `n` numbers were given.
  record Kept (c : SessionsCache S) (n : ℕ) : Type ℓ where
    first : S
    fresh : Fresh c n
    begun : 1 ≤ n
    taken : lookup c.sessions_cache 0 ≡ some first

  added-Kept :
      (c : SessionsCache S) (n : ℕ) (s : S) → Kept c n → n < 2 ^ 32 → Kept (added c s) (suc n)
  added-Kept c n s k h = record {
    first = k.first;
    fresh = insert-Fresh c n s k.fresh h;
    begun = omega arith;
    taken = ground (
      arith,
      lookup-insert c.sessions_cache c.sid 0 s k.fresh.wf.chained,
      below c n k.fresh h,
      k.begun,
      k.taken,
    );
  }

  remove-Kept :
      (c : SessionsCache S) (n i : ℕ) → i ≢ 0 → Kept c n → Kept (sessions_cache_remove c i).1 n
  remove-Kept c n i ne k = record {
    first = k.first;
    fresh = remove-Fresh c n i k.fresh;
    begun = k.begun;
    taken = elim (Option-cases (lookup c.sessions_cache i)) [
      | inl e ↦ ap (λ d. lookup d.sessions_cache 0) (remove-none c i e) ∙ k.taken
      | inr (s0, e) ↦
          ap (λ d. lookup d.sessions_cache 0) (remove-some c i s0 e)
          ∙ removed_first c.sessions_cache i ne k.fresh.wf k.taken
    ];
  }

  Kept-Stuck : (c : SessionsCache S) (n : ℕ) → Kept c n → n ≡ 2 ^ 32 → Stuck c
  Kept-Stuck c n k h = record {
    first = k.first;
    wf = k.fresh.wf;
    wrapped = omega (arith, k.fresh.next);
    taken = k.taken;
  }

  given-Kept :
      (c : SessionsCache S) (n : ℕ) (cs : List (Change S))
      → Kept c n
      → n ≤ 2 ^ 32
      → KeepsFirst cs
      → given c cs ≡ numbers n (additions cs)
  given-Kept c n [] k l h = refl
  given-Kept c n (add s ∷ cs) k l h = elim (Bool-cases (ltb n (2 ^ 32))) [
    | inl e ↦
        given-add c n s cs k.fresh (ground (arith, e))
        ∙ rw e (
            ap (λ r. some n ∷ r)
              (given-Kept (added c s) (suc n) cs (added-Kept c n s k (ground (arith, e)))
                (ground (arith, e)) h))
    | inr e ↦
        given-Stuck c n (add s ∷ cs) (ground (arith, e)) (Kept-Stuck c n k (ground (arith, e, l))) h
  ]
  given-Kept c n (remove_number i ∷ cs) k l h =
      given-Kept (sessions_cache_remove c i).1 n cs (remove-Kept c n i h.0 k) l h.1

  construct-Kept : (s : S) → Kept (added sessions_cache_construct s) 1
  construct-Kept s = record {
    first = s;
    fresh = insert-Fresh sessions_cache_construct 0 s construct-Fresh (omega arith);
    begun = omega arith;
    taken = lookup-insert sessions_cache_construct.sessions_cache 0 0 s (omega arith);
  }

  -- As long as the first session is not removed, the additions after the first `2 ^ 32` all fail,
  -- whatever other session is removed: the number that is tried next is not advanced by a failure.
  pub additions_stuck :
      (s : S) (cs : List (Change S))
      → KeepsFirst cs
      → given sessions_cache_construct (add s ∷ cs) ≡ numbers 0 (suc (additions cs))
  additions_stuck s cs h =
      given-add sessions_cache_construct 0 s cs construct-Fresh (omega arith)
      ∙ ap (λ l. some 0 ∷ l)
          (given-Kept (added sessions_cache_construct s) 1 cs (construct-Kept s) (omega arith) h)
