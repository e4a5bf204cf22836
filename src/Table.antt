-- ===== src/Table.antt =====
-- src/common/sys/hashtable.h and xio_hash.h: the table of chains that the caches are made of.
-- An entry is its `keycopy` with what it belongs to; the hash function is a field, as in the
-- source, and the comparison of every user is that of the numbers.
pub mod Hash
pub mod Map
pub mod Invariant
use accelio.Prelude.{
  u32, sub_wrap, ℕ, ◌+◌, ◌-◌, ◌%◌, ◌^◌, Option, none, some, List, [], ◌∷◌, ◌++◌, if◌then◌else◌,
  ◌==◌, length, get_or, set, replicate,
}

pub record Entry {ℓ} (V : Type ℓ) : Type ℓ where
  pub keycopy : ℕ
  pub var : V

pub record Table {ℓ} (V : Type ℓ) : Type ℓ where
  pub count : ℕ  -- int, as its bits
  pub hfunc : ℕ → ℕ
  pub list : List (List (Entry V))

module _ {ℓ} {V : Type ℓ} where
  -- HASHTABLE_INIT
  abbrev pub init : ℕ → (ℕ → ℕ) → Table V
  init prime hfunc = record { count = 0; hfunc = hfunc; list = replicate prime [] }

  -- HASHTABLE_INDEX
  abbrev pub index : Table V → ℕ → ℕ
  index t key = t.hfunc key % length t.list

  -- HASHTABLE_LIST
  abbrev pub chain : Table V → ℕ → List (Entry V)
  chain t key = get_or t.list (index t key) []

  -- HASHTABLE_LOOKUP_FROM_LIST
  unfoldable pub lookup_from_list : List (Entry V) → ℕ → Option V
  lookup_from_list [] key = none
  lookup_from_list (e ∷ es) key =
      let rest = lookup_from_list es key in if key == e.keycopy then some e.var else rest

  -- HASHTABLE_LOOKUP
  abbrev pub lookup : Table V → ℕ → Option V
  lookup t key = lookup_from_list (chain t key) key

  -- HASHTABLE_INSERT: to the head of the chain
  unfoldable pub insert : Table V → ℕ → V → Table V
  insert t key v = record t {
    count = u32 (t.count + 1);
    list = set t.list (index t key) (record { keycopy = key; var = v } ∷ chain t key);
  }

  -- list_del_init of the entry that a lookup found, the first of the chain with the key
  unfoldable pub unlink : List (Entry V) → ℕ → List (Entry V)
  unlink [] key = []
  unlink (e ∷ es) key = let rest = unlink es key in if key == e.keycopy then es else e ∷ rest

  -- HASHTABLE_REMOVE of the entry that a lookup of `key` found
  unfoldable pub remove : Table V → ℕ → Table V
  remove t key = record t {
    count = sub_wrap 32 t.count 1;
    list = set t.list (index t key) (unlink (chain t key) key);
  }

  -- HASHTABLE_FOREACH: the entries in the order of the walk
  unfoldable pub foreach : List (List (Entry V)) → List (Entry V)
  foreach [] = []
  foreach (c ∷ cs) = c ++ foreach cs
