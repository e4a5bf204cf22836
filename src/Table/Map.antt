-- ===== src/Table/Map.antt =====
-- A table as a finite map: what a lookup gives after an insertion and after a removal, whatever the
-- hash function is.
use native.Mathlib.Nat.{mod-lt}
use accelio.Prelude.{
  u32, sub_wrap, ℕ, ◌+◌, ◌<◌, true, false, ◌≡◌, refl, sym, ap, ◌∙◌, none, some, List, [], ◌∷◌,
  if◌then◌else◌, ◌==◌, ==_iff, length, get_or, set, length-set, get_or-set_self, get_or-set_ne,
  arith, Bool-cases, inl, inr, ◌≢◌, subst,
}
use accelio.Table.{Entry, Table, index, chain, lookup_from_list, lookup, insert, unlink, remove}

module _ {ℓ} {V : Type ℓ} where
  -- No two entries of a chain have one key.
  abbrev pub DistinctKeys : List (Entry V) → Type ℓ
  DistinctKeys [] = Unit
  DistinctKeys (e ∷ es) = (lookup_from_list es e.keycopy ≡ none) × DistinctKeys es

  -- The chain of a key after one chain was replaced.
  chain-set_self :
      (t : Table V) (c : List (Entry V)) (n i key : ℕ)
      → 0 < length t.list
      → i ≡ index t key
      → chain (record t { count = n; list = set t.list i c }) key ≡ c
  chain-set_self t c n i key h e =
      rw (length-set, e) (get_or-set_self t.list (index t key) c [] (mod-lt (t.hfunc key) h))

  chain-set_ne :
      (t : Table V) (c : List (Entry V)) (n i key : ℕ)
      → i ≢ index t key
      → chain (record t { count = n; list = set t.list i c }) key ≡ chain t key
  chain-set_ne t c n i key h = rw length-set (get_or-set_ne t.list i (index t key) c [] h)

  chain_same : (t : Table V) (i j : ℕ) → (index t i == index t j) ≡ true → chain t i ≡ chain t j
  chain_same t i j e = ap (λ k. get_or t.list k []) ((==_iff (index t i) (index t j)).0 e)

  other_key : (t : Table V) (i j : ℕ) → (index t i == index t j) ≡ false → (j == i) ≡ false
  other_key t i j e = elim (Bool-cases (j == i)) [
    | inl h ↦ absurd (differ ((==_iff j i).0 h))
    | inr h ↦ h
  ]
    where
      differ : j ≡ i → ⊥
      differ h = ground (arith, e, ap (index t) h)

  -- A chain is replaced by `c`.
  pub lookup-replace_self :
      (t : Table V) (c : List (Entry V)) (n key j : ℕ)
      → 0 < length t.list
      → (index t key == index t j) ≡ true
      → lookup (record t { count = n; list = set t.list (index t key) c }) j ≡ lookup_from_list c j
  lookup-replace_self t c n key j h e =
      ap (λ d. lookup_from_list d j)
        (chain-set_self t c n (index t key) j h ((==_iff (index t key) (index t j)).0 e))

  pub lookup-replace_ne :
      (t : Table V) (c : List (Entry V)) (n key j : ℕ)
      → (index t key == index t j) ≡ false
      → lookup (record t { count = n; list = set t.list (index t key) c }) j ≡ lookup t j
  lookup-replace_ne t c n key j e =
      ap (λ d. lookup_from_list d j)
        (chain-set_ne t c n (index t key) j (λ h. ground (arith, e, h)))

  -- An insertion changes what its key gives, and nothing else.
  pub lookup-insert :
      (t : Table V) (key j : ℕ) (v : V)
      → 0 < length t.list
      → lookup (insert t key v) j ≡ (if j == key then some v else lookup t j)
  unfolding insert lookup_from_list
  lookup-insert t key j v h = elim (Bool-cases (index t key == index t j)) [
    | inl e ↦
        lookup-replace_self t (fresh ∷ chain t key) (u32 (t.count + 1)) key j h e
        ∙ ap (λ c. if j == key then some v else lookup_from_list c j) (chain_same t key j e)
    | inr e ↦
        lookup-replace_ne t (fresh ∷ chain t key) (u32 (t.count + 1)) key j e
        ∙ sym (ap (λ b. if b then some v else lookup t j) (other_key t key j e))
  ]
    where
      fresh : Entry V
      fresh = record { keycopy = key; var = v }

  lookup-unlink :
      (es : List (Entry V)) (key j : ℕ)
      → DistinctKeys es
      → lookup_from_list (unlink es key) j ≡ (if j == key then none else lookup_from_list es j)
  unfolding lookup_from_list unlink
  lookup-unlink [] key j d = ground arith
  lookup-unlink (e ∷ es) key j d = ground (arith, lookup-unlink es key j)

  lookup-unlink-none :
      (es : List (Entry V)) (key j : ℕ)
      → lookup_from_list es j ≡ none
      → lookup_from_list (unlink es key) j ≡ none
  unfolding lookup_from_list unlink
  lookup-unlink-none [] key j d = refl
  lookup-unlink-none (e ∷ es) key j d = ground (arith, lookup-unlink-none es key j)

  unlink-DistinctKeys :
      (es : List (Entry V)) (key : ℕ) → DistinctKeys es → DistinctKeys (unlink es key)
  unfolding unlink
  unlink-DistinctKeys [] key d = tt
  unlink-DistinctKeys (e ∷ es) key d = elim (Bool-cases (key == e.keycopy)) [
    | inl h ↦ rw (h, unlink) d.1
    | inr h ↦
        rw (h, unlink) (lookup-unlink-none es key e.keycopy d.0, unlink-DistinctKeys es key d.1)
  ]

  -- A removal changes what its key gives, and nothing else, when no chain has a key twice.
  pub lookup-remove :
      (t : Table V) (key j : ℕ)
      → 0 < length t.list
      → DistinctKeys (chain t key)
      → lookup (remove t key) j ≡ (if j == key then none else lookup t j)
  unfolding remove
  lookup-remove t key j h d = elim (Bool-cases (index t key == index t j)) [
    | inl e ↦
        lookup-replace_self t (unlink (chain t key) key) (sub_wrap 32 t.count 1) key j h e
        ∙ lookup-unlink (chain t key) key j d
        ∙ ap (λ c. if j == key then none else lookup_from_list c j) (chain_same t key j e)
    | inr e ↦
        lookup-replace_ne t (unlink (chain t key) key) (sub_wrap 32 t.count 1) key j e
        ∙ sym (ap (λ b. if b then none else lookup t j) (other_key t key j e))
  ]

  -- A chain stays distinct everywhere when the one that is replaced is.
  DistinctKeys-replace :
      (t : Table V) (c : List (Entry V)) (n key j : ℕ)
      → 0 < length t.list
      → DistinctKeys c
      → DistinctKeys (chain t j)
      → DistinctKeys (chain (record t { count = n; list = set t.list (index t key) c }) j)
  DistinctKeys-replace t c n key j h d old = elim (Bool-cases (index t key == index t j)) [
    | inl e ↦
        subst DistinctKeys
          (sym (chain-set_self t c n (index t key) j h ((==_iff (index t key) (index t j)).0 e))) d
    | inr e ↦
        subst DistinctKeys (sym (chain-set_ne t c n (index t key) j (λ w. ground (arith, e, w))))
          old
  ]

  -- The chains stay distinct, whatever key is looked up.
  pub insert-DistinctKeys :
      (t : Table V) (key j : ℕ) (v : V)
      → 0 < length t.list
      → lookup t key ≡ none
      → DistinctKeys (chain t key)
      → DistinctKeys (chain t j)
      → DistinctKeys (chain (insert t key v) j)
  unfolding insert
  insert-DistinctKeys t key j v h n d old =
      DistinctKeys-replace t (record { keycopy = key; var = v } ∷ chain t key) (u32 (t.count + 1))
        key j h (n, d) old

  pub remove-DistinctKeys :
      (t : Table V) (key j : ℕ)
      → 0 < length t.list
      → DistinctKeys (chain t key)
      → DistinctKeys (chain t j)
      → DistinctKeys (chain (remove t key) j)
  unfolding remove
  remove-DistinctKeys t key j h d old =
      DistinctKeys-replace t (unlink (chain t key) key) (sub_wrap 32 t.count 1) key j h
        (unlink-DistinctKeys (chain t key) key d) old
