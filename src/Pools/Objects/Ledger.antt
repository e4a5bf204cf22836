-- ===== src/Pools/Objects/Ledger.antt =====
-- The objects of a pool, free and used.
use accelio.Prelude.{
  ℕ, zero, suc, ◌+◌, ◌^◌, ◌≤◌, ◌<◌, u32, Bool, true, false, ◌≡◌, refl, Option, none, some, List, [],
  ◌∷◌, if◌then◌else◌, ltb, leb, length, arith, ap, subst, not,
}
use accelio.Prelude.Counts.{times, times-remove, length-remove, remove_absent, length-positive}
use accelio.Pools.Objects.{Pool, chain, realloc, take_first, alloc, free}

-- The account of a pool of which `failed` objects were counted and never made.
pub record Ledger (p : Pool) (failed : ℕ) : Type 0 where
  pub single : (x : ℕ) → times x p.free_list + times x p.used_list ≤ 1
  pub below : (x : ℕ) → p.next ≤ x → times x p.free_list + times x p.used_list ≡ 0
  pub total : p.total_nr ≡ length p.free_list + length p.used_list + failed

chain-times :
    (x obj n : ℕ) (l : List ℕ)
    → times x (chain obj n l)
      ≡ times x l + (if leb obj x then if ltb x (obj + n) then 1 else 0 else 0)
unfolding chain
chain-times x obj zero l = ground arith
chain-times x obj (suc n) l = ground (arith, chain-times x (obj + 1) n (obj ∷ l))

chain-length : (obj n : ℕ) (l : List ℕ) → length (chain obj n l) ≡ length l + n
unfolding chain
chain-length obj zero l = omega arith
chain-length obj (suc n) l = omega (arith, chain-length (obj + 1) n (obj ∷ l))

realloc-Ledger :
    (p : Pool) (n failed : ℕ) (memory : Bool)
    → Ledger p failed
    → n < 2 ^ 31
    → p.total_nr + n < 2 ^ 64
    → Ledger (realloc p n memory).1 (failed + (if not memory then n else 0))
unfolding realloc
realloc-Ledger p n failed true l b h = record {
  single = λ x. ground (arith, chain-times x p.next n p.free_list, l.single x, l.below x);
  below = λ x k. ground (arith, k, chain-times x p.next n p.free_list, l.below x);
  total = ground (arith, b, h, l.total, chain-length p.next n p.free_list);
}
realloc-Ledger p n failed false l b h = record {
  single = l.single;
  below = l.below;
  total = ground (arith, b, h, l.total);
}

-- What an allocation gives: an object that was not used, moved to the head of the used ones; or
-- nothing, of a pool with no free object and no memory.
pub data Gives (p q : Pool) (memory : Bool) : Option ℕ → Type 0 where
  gives :
      (o : ℕ) → times o p.used_list ≡ 0 → q.used_list ≡ o ∷ p.used_list → Gives p q memory (some o)
  nothing :
      p.free_list ≡ []
      → memory ≡ false
      → q.free_list ≡ []
      → q.used_list ≡ p.used_list
      → Gives p q memory none

take_first-Ledger :
    (q : Pool) (o : ℕ) (os : List ℕ) (failed : ℕ)
    → q.free_list ≡ o ∷ os
    → Ledger q failed
    → Ledger (record q { free_list = os; used_list = o ∷ q.used_list }) failed
take_first-Ledger q o os failed e l = record {
  single = λ x. ground (arith, ap (times x) e, l.single x);
  below = λ x k. ground (arith, k, ap (times x) e, l.below x);
  total = omega (arith, l.total, ap length e);
}

-- Whether the pool makes a new chunk, and the number of objects it counts in vain.
abbrev pub starved : List ℕ → Bool → Bool
starved [] memory = not memory
starved (o ∷ os) memory = false

abbrev pub lost : Pool → Bool → ℕ
lost p memory = if starved p.free_list memory then u32 p.grow_nr else 0

taken :
    (p q : Pool) (s : List ℕ) (failed : ℕ) (memory : Bool)
    → q.free_list ≡ s
    → 0 < length s
    → q.used_list ≡ p.used_list
    → Ledger q failed
    → let r : Pool × Option ℕ = elim s [
      | [] ↦ (q, none)
      | o ∷ os ↦ (record q { free_list = os; used_list = o ∷ q.used_list }, some o)
    ] in
      Gives p r.0 memory r.1 × Ledger r.0 failed
taken p q [] failed memory e h u l = absurd (omega arith)
taken p q (o ∷ os) failed memory e h u l = (
  Gives.gives o (ground (arith, ap (times o) e, ap (times o) u, l.single o)) (ap (λ r. o ∷ r) u),
  take_first-Ledger q o os failed e l,
)

grown :
    (p : Pool) (n failed : ℕ) (memory : Bool)
    → p.free_list ≡ []
    → Ledger p failed
    → 0 < n
    → n < 2 ^ 31
    → p.total_nr + n < 2 ^ 64
    → let q = realloc p n memory in
      let r : Pool × Option ℕ = if q.0 then take_first q.1 else (q.1, none) in
      Gives p r.0 memory r.1 × Ledger r.0 (failed + (if not memory then n else 0))
unfolding realloc take_first
grown p n failed false e l g b h =
    (Gives.nothing e refl e refl, unfold realloc in realloc-Ledger p n failed false l b h)
grown p n failed true e l g b h =
    let q = (realloc p n true).1 in
    taken p q q.free_list (failed + 0) true refl (omega (arith, chain-length p.next n p.free_list))
      refl (unfold realloc in realloc-Ledger p n failed true l b h)

take_first_lem :
    (p : Pool) (o : ℕ) (os : List ℕ)
    → p.free_list ≡ o ∷ os
    → take_first p ≡ (record p { free_list = os; used_list = o ∷ p.used_list }, some o)
unfolding take_first
take_first_lem p o os e = ground (arith, e)

alloc_cases :
    (p : Pool) (s : List ℕ) (n failed : ℕ) (memory : Bool)
    → p.free_list ≡ s
    → Ledger p failed
    → 0 < n
    → n < 2 ^ 31
    → p.total_nr + n < 2 ^ 64
    → let q = realloc p n memory in
      let r : Pool × Option ℕ = elim s [
        | [] ↦ if q.0 then take_first q.1 else (q.1, none)
        | o ∷ os ↦ take_first p
      ] in
      Gives p r.0 memory r.1 × Ledger r.0 (failed + (if starved s memory then n else 0))
alloc_cases p [] n failed memory e l g b h = grown p n failed memory e l g b h
alloc_cases p (o ∷ os) n failed memory e l g b h =
    let t = taken p p (o ∷ os) failed memory e (omega arith) refl l in
    rw (take_first_lem p o os e) (
      t.0,
      subst (Ledger (record p { free_list = os; used_list = o ∷ p.used_list })) (omega arith) t.1,
    )

-- A pool whose account is in order, and whose new chunks, of as many objects as the low 32 bits of
-- grow_nr say, have between 1 and 2^31 - 1 objects and do not wrap the total, gives an object that is
-- not used, and whose object it is moves to the used ones; it gives nothing only when no object is
-- free and there is no memory for more. The account is in order again: no object is in both lists or
-- twice in one, and the total is that of the lists and of the objects that were counted for a chunk
-- that there was no memory for.
pub alloc-Gives :
    (p : Pool) (failed : ℕ) (memory : Bool)
    → Ledger p failed
    → 0 < u32 p.grow_nr
    → u32 p.grow_nr < 2 ^ 31
    → p.total_nr + u32 p.grow_nr < 2 ^ 64
    → let r = alloc p memory in Gives p r.0 memory r.1 × Ledger r.0 (failed + lost p memory)
unfolding alloc
alloc-Gives p failed memory l g b h =
    alloc_cases p p.free_list (u32 p.grow_nr) failed memory refl l g b h

-- An object that is given back keeps the account.
pub free-Ledger :
    (p : Pool) (failed : ℕ) (o : ℕ)
    → Ledger p failed
    → 0 < times o p.used_list
    → Ledger (free p (some o)) failed
unfolding free
free-Ledger p failed o l h =
    let a : times o p.free_list ≡ 0 = omega (arith, l.single o) in
    record {
      single = λ x.
          ground (arith, h, times-remove x o p.free_list, times-remove x o p.used_list, l.single x);
      below = λ x k.
          ground
            (arith, k, h, times-remove x o p.free_list, times-remove x o p.used_list, l.below x);
      total = omega (
        arith,
        l.total,
        length-remove o p.used_list h,
        ap length (remove_absent o p.free_list a),
        length-positive o p.used_list h,
      );
    }
