-- ===== src/Caches/Tests.antt =====
-- Runs of the indexes at fixed inputs.
use accelio.Prelude.{ℕ, true, false, ◌≡◌, none, some, List, [], ◌∷◌}
use accelio.Table.{foreach}
use accelio.Caches.Idr.{idr_create}
use accelio.Caches.Idr.Refine
use accelio.Caches.Idr.Refine.{answers, answers_refine}
use accelio.Caches.Sessions.Numbers
use accelio.Caches.Sessions.Numbers.{given, additions_fresh}
use accelio.Caches.Nexus.{
  Nexus, Query, NexusCache, nexus_cache_construct, nexus_cache_add, nexus_cache_find,
}
use accelio.Caches.Nexus.Find.{Shares, find-Shares}

-- An object is added, found, added again in vain, removed, and no longer found; NULL is refused.
answers_refine_example :
    answers (idr_create true) (
      Refine.add 4096 (some 7) true
      ∷ Refine.look 4096
      ∷ Refine.add 4096 none true
      ∷ Refine.remove_it 4096
      ∷ Refine.look 4096
      ∷ Refine.add 0 none true
      ∷ [])
    ≡ true ∷ true ∷ false ∷ true ∷ false ∷ false ∷ []
answers_refine_example = answers_refine true (
    Refine.add 4096 (some 7) true
    ∷ Refine.look 4096
    ∷ Refine.add 4096 none true
    ∷ Refine.remove_it 4096
    ∷ Refine.look 4096
    ∷ Refine.add 0 none true
    ∷ [])

abbrev calls : List (Numbers.Change ℕ)
calls = Numbers.add 5 ∷ Numbers.remove_number 0 ∷ Numbers.add 6 ∷ Numbers.add 5 ∷ []

abbrev nexus : Nexus
nexus = record {
  portal_uri = some 80;
  ctx = 4096;
  attr_tos = true;
  tos = 3;
  refcount = 1;
  close_pending = false;
}

abbrev one_nexus : NexusCache
one_nexus = (nexus_cache_add nexus_cache_construct nexus).1

abbrev query : Query
query = record { portal_uri = 80; ctx = 4096; tos_enabled = true; tos = 3 }

find-Shares_example :
    let r = nexus_cache_find one_nexus query in
    Shares query r.0 (foreach one_nexus.nexus_cache.list) (foreach r.1.nexus_cache.list)
    × (r.1.cid ≡ one_nexus.cid)
find-Shares_example = find-Shares one_nexus query
