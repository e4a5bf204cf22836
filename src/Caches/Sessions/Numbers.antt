-- ===== src/Caches/Sessions/Numbers.antt =====
-- Which numbers the additions to the cache of sessions give.
use accelio.Prelude.{
  u32, ℕ, zero, suc, ◌+◌, ◌^◌, ◌≤◌, ◌<◌, true, ◌≡◌, refl, sym, ap, ◌∙◌, Option, none, some, List,
  [], ◌∷◌, if◌then◌else◌, ltb, arith, Option-cases, inl, inr, subst,
}
use accelio.Table.{lookup_from_list, lookup, insert, remove}
use accelio.Table.Map.{lookup-insert, lookup-remove}
use accelio.Table.Invariant.{
  get_or-replicate, WellFormed, init-WellFormed, insert-WellFormed, remove-WellFormed,
}
use accelio.Table.Hash.{int32_hash}
use accelio.Caches.Sessions.{
  SessionsCache, prime_small, sessions_cache_construct, add_numbered, sessions_cache_add,
  remove_found, sessions_cache_remove,
}

-- A call of the interface that changes the cache.
pub data Change {ℓ} (S : Type ℓ) : Type ℓ where
  add : S → Change S
  remove_number : ℕ → Change S

-- `k` numbers from `n` on, which end at `2 ^ 32`.
abbrev pub numbers : ℕ → ℕ → List (Option ℕ)
numbers n zero = []
numbers n (suc k) = let rest = numbers (suc n) k in (if ltb n (2 ^ 32) then some n else none) ∷ rest

pub ltb-true : (a b : ℕ) → a < b → ltb a b ≡ true
ltb-true a b h = ground arith

module _ {ℓ} {S : Type ℓ} where
  -- What the additions of a sequence of calls give.
  abbrev pub given : SessionsCache S → List (Change S) → List (Option ℕ)
  given c [] = []
  given c (add s ∷ cs) = (sessions_cache_add c s).0 ∷ given (sessions_cache_add c s).1 cs
  given c (remove_number i ∷ cs) = given (sessions_cache_remove c i).1 cs

  abbrev pub additions : List (Change S) → ℕ
  additions [] = 0
  additions (add s ∷ cs) = suc (additions cs)
  additions (remove_number i ∷ cs) = additions cs

  -- `n` numbers were given.
  pub record Fresh (c : SessionsCache S) (n : ℕ) : Type ℓ where
    pub wf : WellFormed c.sessions_cache
    pub next : c.sid ≡ u32 n
    pub above : (i : ℕ) → n ≤ i → lookup c.sessions_cache i ≡ none

  pub add-none :
      (c : SessionsCache S) (s : S)
      → lookup c.sessions_cache c.sid ≡ none
      → sessions_cache_add c s ≡ (
        some c.sid,
        record { sessions_cache = insert c.sessions_cache c.sid s; sid = u32 (c.sid + 1) },
      )
  unfolding sessions_cache_add add_numbered
  add-none c s h = ap (add_numbered c s) h

  pub add-some :
      (c : SessionsCache S) (s s0 : S)
      → lookup c.sessions_cache c.sid ≡ some s0
      → sessions_cache_add c s ≡ (none, c)
  unfolding sessions_cache_add add_numbered
  add-some c s s0 h = ap (add_numbered c s) h

  pub remove-none :
      (c : SessionsCache S) (i : ℕ)
      → lookup c.sessions_cache i ≡ none
      → (sessions_cache_remove c i).1 ≡ c
  unfolding sessions_cache_remove remove_found
  remove-none c i h = ap (λ o. (remove_found c i o).1) h

  pub remove-some :
      (c : SessionsCache S) (i : ℕ) (s0 : S)
      → lookup c.sessions_cache i ≡ some s0
      → (sessions_cache_remove c i).1 ≡ record c { sessions_cache = remove c.sessions_cache i }
  unfolding sessions_cache_remove remove_found
  remove-some c i s0 h = ap (λ o. (remove_found c i o).1) h

  pub below : (c : SessionsCache S) (n : ℕ) → Fresh c n → n < 2 ^ 32 → c.sid ≡ n
  below c n f h = omega (arith, f.next)

  pub insert-Fresh :
      (c : SessionsCache S) (n : ℕ) (s : S)
      → Fresh c n
      → n < 2 ^ 32
      → Fresh
          (record { sessions_cache = insert c.sessions_cache c.sid s; sid = u32 (c.sid + 1) })
          (suc n)
  insert-Fresh c n s f h = record {
    wf =
        insert-WellFormed c.sessions_cache c.sid s (f.above c.sid (omega (arith, below c n f h)))
          f.wf;
    next = omega (arith, below c n f h);
    above = λ i l. ground (
      arith,
      lookup-insert c.sessions_cache c.sid i s f.wf.chained,
      f.above i (omega arith),
      below c n f h,
    );
  }

  pub remove-Fresh :
      (c : SessionsCache S) (n i : ℕ) → Fresh c n → Fresh (sessions_cache_remove c i).1 n
  remove-Fresh c n i f = elim (Option-cases (lookup c.sessions_cache i)) [
    | inl e ↦ subst (λ d. Fresh d n) (sym (remove-none c i e)) f
    | inr (s0, e) ↦
        subst (λ d. Fresh d n) (sym (remove-some c i s0 e))
          (record {
            wf = remove-WellFormed c.sessions_cache i s0 e f.wf;
            next = f.next;
            above = λ j l. ground (
              arith,
              lookup-remove c.sessions_cache i j f.wf.chained (f.wf.distinct i),
              f.above j l,
            );
          })
  ]

  -- The cache after an addition that succeeds.
  abbrev pub added : SessionsCache S → S → SessionsCache S
  added c s = record { sessions_cache = insert c.sessions_cache c.sid s; sid = u32 (c.sid + 1) }

  pub given-add :
      (c : SessionsCache S) (n : ℕ) (s : S) (cs : List (Change S))
      → Fresh c n
      → n < 2 ^ 32
      → given c (add s ∷ cs) ≡ some n ∷ given (added c s) cs
  given-add c n s cs f h =
      ap (λ r. r.0 ∷ given r.1 cs) (add-none c s (f.above c.sid (omega (arith, below c n f h))))
      ∙ ap (λ k. some k ∷ given (added c s) cs) (below c n f h)

  given_fresh :
      (c : SessionsCache S) (n : ℕ) (cs : List (Change S))
      → Fresh c n
      → n + additions cs ≤ 2 ^ 32
      → given c cs ≡ numbers n (additions cs)
  given_fresh c n [] f h = refl
  given_fresh c n (add s ∷ cs) f h =
      given-add c n s cs f (omega arith)
      ∙ rw (ltb-true n (2 ^ 32) (omega arith)) (
          ap (λ l. some n ∷ l)
            (given_fresh (added c s) (suc n) cs (insert-Fresh c n s f (omega arith)) (omega arith)))
  given_fresh c n (remove_number i ∷ cs) f h =
      given_fresh (sessions_cache_remove c i).1 n cs (remove-Fresh c n i f) h

  pub construct-Fresh : Fresh sessions_cache_construct 0
  unfolding lookup_from_list
  construct-Fresh = record {
    wf = init-WellFormed prime_small int32_hash (omega arith);
    next = refl;
    above = λ i l. rw get_or-replicate refl;
  }

  -- Up to `2 ^ 32` additions from the start all succeed, whatever is removed between them, and give
  -- 0, 1, 2 and so on: no number is given twice.
  pub additions_fresh :
      (cs : List (Change S))
      → additions cs ≤ 2 ^ 32
      → given sessions_cache_construct cs ≡ numbers 0 (additions cs)
  additions_fresh cs h = given_fresh sessions_cache_construct 0 cs construct-Fresh (omega arith)
