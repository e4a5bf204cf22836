-- ===== src/Nexus/Life/Shared.antt =====
-- What an open of a nexus takes part in: the cache of nexus, and the observers of the context.
use accelio.Prelude.{
  ℕ, ◌<◌, ◌≡◌, refl, ap, ◌∙◌, Bool, Option, none, some, List, ◌∷◌, if◌then◌else◌, ◌==◌, arith,
  length,
}
use accelio.Prelude.Counts.{times, remove}
use accelio.Table.{lookup, chain}
use accelio.Table.Map.{DistinctKeys, lookup-remove}
use accelio.Caches.Nexus.{
  NexusCache, nexus_cache_add, nexus_cache_remove, nexus_cache_lookup, remove_found,
}
use accelio.Caches.Nexus as CacheNexus

-- The cache, the nexus that observe the context by their ctx_observer, and those that are freed.
pub record Shared : Type 0 where
  pub cache : NexusCache
  pub ctx_observers : List ℕ
  pub freed : List ℕ

-- xio_nexus_destroy, of the nexus at `nexus`
unfoldable pub destroy : Shared → ℕ → ℕ → ℕ → Shared
destroy s nexus cid transport_hndl = record {
  cache = (nexus_cache_remove s.cache cid).1;
  ctx_observers = if transport_hndl == 0 then s.ctx_observers else remove nexus s.ctx_observers;
  freed = nexus ∷ s.freed;
}

-- The part of xio_nexus_open after the allocation of the nexus at `nexus`: `opened` is what
-- transport->open answers, `has_pools` whether the transport has get_pools_setup_ops, and `entry`
-- what the cache is to know of the nexus. A nexus that is new has the cid 0.
unfoldable pub open_new : Shared → ℕ → ℕ → Bool → CacheNexus.Nexus → Option ℕ × Shared
open_new s nexus opened has_pools entry =
    let s1 = record s { ctx_observers = nexus ∷ s.ctx_observers } in
    if opened == 0
    then (none, destroy s1 nexus 0 0)
    else if has_pools
    then (some nexus, record s1 { cache = (nexus_cache_add s1.cache entry).1 })
    else (none, destroy s1 nexus 0 opened)

-- When the transport cannot be opened, the new nexus is freed; but the context still has it as an
-- observer. And it takes the nexus of the number 0 out of the cache: that number is then free, and
-- the other numbers are as before.
pub open_fails :
    (s : Shared) (nexus : ℕ) (has_pools : Bool) (entry old : CacheNexus.Nexus) (id : ℕ)
    → 0 < length s.cache.nexus_cache.list
    → DistinctKeys (chain s.cache.nexus_cache 0)
    → nexus_cache_lookup s.cache 0 ≡ some old
    → let (o, t) = open_new s nexus 0 has_pools entry in
      (o ≡ none)
      × (0 < times nexus t.freed)
      × (0 < times nexus t.ctx_observers)
      × (nexus_cache_lookup t.cache id ≡ (if id == 0 then none else nexus_cache_lookup s.cache id))
unfolding open_new destroy nexus_cache_remove remove_found
open_fails s nexus has_pools entry old id h d f = (
  refl,
  ground arith,
  ground arith,
  ap (λ o. lookup (remove_found s.cache 0 o).1.nexus_cache id) f
      ∙ lookup-remove s.cache.nexus_cache 0 id h d,
)
