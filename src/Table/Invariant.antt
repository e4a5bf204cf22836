-- ===== src/Table/Invariant.antt =====
-- The chains and the counter of a table, through its operations.
use accelio.Prelude.{
  u32, ℕ, zero, suc, ◌+◌, ◌<◌, ◌≡◌, refl, ap, none, some, List, [], ◌∷◌, length, get_or, set,
  replicate, length-set, length-append, arith,
}
use native.Mathlib.Nat.{mod-lt}
use accelio.Table.{
  Entry, Table, init, index, chain, lookup_from_list, lookup, insert, unlink, remove, foreach,
}
use accelio.Table.Map.{DistinctKeys, insert-DistinctKeys, remove-DistinctKeys}

module _ {ℓ} {V : Type ℓ} where
  pub record WellFormed (t : Table V) : Type ℓ where
    pub chained : 0 < length t.list
    pub distinct : (key : ℕ) → DistinctKeys (chain t key)
    pub counted : t.count ≡ u32 (length (foreach t.list))

  length-foreach-set :
      (l : List (List (Entry V))) (i : ℕ) (c : List (Entry V))
      → i < length l
      → length (foreach (set l i c)) + length (get_or l i []) ≡ length (foreach l) + length c
  unfolding foreach
  length-foreach-set [] i c h = absurd (omega arith)
  length-foreach-set (x ∷ xs) zero c h =
      omega (arith, length-append c (foreach xs), length-append x (foreach xs))
  length-foreach-set (x ∷ xs) (suc i) c h = omega (
    arith,
    length-append x (foreach xs),
    length-append x (foreach (set xs i c)),
    length-foreach-set xs i c (omega arith),
  )

  -- A key that is found takes one entry with it.
  length-unlink :
      (es : List (Entry V)) (key : ℕ) (v : V)
      → lookup_from_list es key ≡ some v
      → suc (length (unlink es key)) ≡ length es
  unfolding lookup_from_list unlink
  length-unlink [] key v h = ground arith
  length-unlink (e ∷ es) key v h = ground (arith, length-unlink es key v)

  length-replicate : (n : ℕ) (d : List (Entry V)) → length (replicate n d) ≡ n
  length-replicate zero d = refl
  length-replicate (suc n) d = ap suc (length-replicate n d)

  foreach-replicate : (n : ℕ) → foreach {V = V} (replicate n []) ≡ []
  unfolding foreach
  foreach-replicate zero = refl
  foreach-replicate (suc n) = foreach-replicate n

  pub get_or-replicate : (n i : ℕ) → get_or {A = List (Entry V)} (replicate n []) i [] ≡ []
  get_or-replicate zero i = refl
  get_or-replicate (suc n) zero = refl
  get_or-replicate (suc n) (suc i) = get_or-replicate n i

  pub init-WellFormed : (prime : ℕ) (hfunc : ℕ → ℕ) → 0 < prime → WellFormed (init prime hfunc)
  init-WellFormed prime hfunc h = record {
    chained = rw length-replicate h;
    distinct = λ key. rw get_or-replicate tt;
    counted = rw foreach-replicate refl;
  }

  -- One chain is replaced by a list that is `k` entries longer and `d` shorter.
  count-replace :
      (t : Table V) (c : List (Entry V)) (key : ℕ)
      → 0 < length t.list
      → length (foreach (set t.list (index t key) c)) + length (chain t key)
        ≡ length (foreach t.list) + length c
  count-replace t c key h = length-foreach-set t.list (index t key) c (mod-lt (t.hfunc key) h)

  pub insert-WellFormed :
      (t : Table V) (key : ℕ) (v : V)
      → lookup t key ≡ none
      → WellFormed t
      → WellFormed (insert t key v)
  unfolding insert
  insert-WellFormed t key v n w = record {
    chained = chained_after;
    distinct = λ j. insert-DistinctKeys t key j v w.chained n (w.distinct key) (w.distinct j);
    counted = counted_after;
  }
    where
      chained_after : 0 < length (insert t key v).list
      chained_after = rw length-set w.chained

      counted_after : (insert t key v).count ≡ u32 (length (foreach (insert t key v).list))
      counted_after = ground (
        arith,
        w.counted,
        count-replace t (record { keycopy = key; var = v } ∷ chain t key) key w.chained,
      )

  pub remove-WellFormed :
      (t : Table V) (key : ℕ) (v : V)
      → lookup t key ≡ some v
      → WellFormed t
      → WellFormed (remove t key)
  unfolding remove
  remove-WellFormed t key v n w = record {
    chained = chained_after;
    distinct = λ j. remove-DistinctKeys t key j w.chained (w.distinct key) (w.distinct j);
    counted = counted_after;
  }
    where
      chained_after : 0 < length (remove t key).list
      chained_after = rw length-set w.chained

      counted_after : (remove t key).count ≡ u32 (length (foreach (remove t key).list))
      counted_after = ground (
        arith,
        w.counted,
        count-replace t (unlink (chain t key) key) key w.chained,
        length-unlink (chain t key) key v n,
      )
