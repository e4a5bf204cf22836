-- ===== src/Caches/Nexus.antt =====
-- src/common/xio_nexus_cache.c: the nexus by their numbers, and the search for one that can be
-- shared.
pub mod Find
use accelio.Prelude.{
  u32, ℕ, ◌+◌, Bool, true, false, ◌&&◌, not, Option, none, some, List, [], ◌∷◌, if◌then◌else◌, ◌==◌,
}
use accelio.Table.{Entry, Table, init, lookup, insert, remove, foreach}
use accelio.Table.Hash.{int32_hash}

-- What the search reads of `struct xio_nexus` and its transport. `portal_uri` stands for the string,
-- `none` for NULL; `ctx` for the address of the context. `refcount` is that of the nexus.
pub record Nexus : Type 0 where
  pub portal_uri : Option ℕ
  pub ctx : ℕ
  pub attr_tos : Bool  -- the bit XIO_NEXUS_ATTR_TOS of trans_attr_mask
  pub tos : ℕ
  pub refcount : ℕ
  pub close_pending : Bool  -- close_time_hndl is pending

-- `struct xio_nexus_query_params`
pub record Query : Type 0 where
  pub portal_uri : ℕ
  pub ctx : ℕ
  pub tos_enabled : Bool
  pub tos : ℕ

-- The table and the static `cid` of xio_nexus_cache_add.
pub record NexusCache : Type 0 where
  pub nexus_cache : Table Nexus
  pub cid : ℕ  -- int, as its bits

-- HASHTABLE_PRIME_SMALL
abbrev pub prime_small : ℕ
prime_small = 149

-- nexus_cache_construct
abbrev pub nexus_cache_construct : NexusCache
nexus_cache_construct = record { nexus_cache = init prime_small int32_hash; cid = 0 }

unfoldable pub add_numbered : NexusCache → Nexus → Option Nexus → Option ℕ × NexusCache
add_numbered c nexus (some old) = (none, c)
add_numbered c nexus none =
    (some c.cid, record { nexus_cache = insert c.nexus_cache c.cid nexus; cid = u32 (c.cid + 1) })

-- xio_nexus_cache_add: the number, or `none` for -1
unfoldable pub nexus_cache_add : NexusCache → Nexus → Option ℕ × NexusCache
unfolding add_numbered
nexus_cache_add c nexus = add_numbered c nexus (lookup c.nexus_cache c.cid)

unfoldable pub remove_found : NexusCache → ℕ → Option Nexus → Bool × NexusCache
remove_found c nexus_id none = (false, c)
remove_found c nexus_id (some n) = (true, record c { nexus_cache = remove c.nexus_cache nexus_id })

-- xio_nexus_cache_remove: `true` for 0
unfoldable pub nexus_cache_remove : NexusCache → ℕ → Bool × NexusCache
unfolding remove_found
nexus_cache_remove c nexus_id = remove_found c nexus_id (lookup c.nexus_cache nexus_id)

-- xio_nexus_cache_lookup
abbrev pub nexus_cache_lookup : NexusCache → ℕ → Option Nexus
nexus_cache_lookup c nexus_id = lookup c.nexus_cache nexus_id

-- The tests of the search, up to `match found`. The value of `tos` counts only where both have one.
abbrev pub same_bool : Bool → Bool → Bool
same_bool true b = b
same_bool false b = not b

abbrev pub same_uri : Option ℕ → ℕ → Bool
same_uri none uri = false
same_uri (some u) uri = u == uri

unfoldable pub matches : Query → Nexus → Bool
matches q n =
    same_uri n.portal_uri q.portal_uri
    && (n.ctx == q.ctx
        && (same_bool n.attr_tos q.tos_enabled && (if n.attr_tos then n.tos == q.tos else true)))

-- xio_nexus_addref
abbrev pub addref : Nexus → Nexus
addref n =
    if n.close_pending
    then record n { refcount = 1; close_pending = false }
    else record n { refcount = u32 (n.refcount + 1) }

-- The walk over one chain: the entry that is found takes a reference.
unfoldable pub find_chain : Query → List (Entry Nexus) → Option ℕ × List (Entry Nexus)
find_chain q [] = (none, [])
find_chain q (e ∷ es) =
    let rest = find_chain q es in
    if matches q e.var
    then (some e.keycopy, record e { var = addref e.var } ∷ es)
    else (rest.0, e ∷ rest.1)

unfoldable pub find_list : Query → List (List (Entry Nexus)) → Option ℕ × List (List (Entry Nexus))
unfolding find_chain
find_list q [] = (none, [])
find_list q (c ∷ cs) =
    let here = find_chain q c in
    let rest = find_list q cs in
    elim here.0 [ some id ↦ (some id, here.1 ∷ cs) | none ↦ (rest.0, c ∷ rest.1) ]

-- xio_nexus_cache_find: the number of the nexus that is found, for its address
unfoldable pub nexus_cache_find : NexusCache → Query → Option ℕ × NexusCache
unfolding find_list
nexus_cache_find c q =
    let found = find_list q c.nexus_cache.list in
    (found.0, record c { nexus_cache = record c.nexus_cache { list = found.1 } })
