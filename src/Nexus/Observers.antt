-- ===== src/Nexus/Observers.antt =====
-- The observers of a nexus, known by the ids of their sessions too.
pub mod Agree
use accelio.Prelude.{
  ℕ, Bool, true, false, not, ◌≡◌, ◌≢◌, refl, Option, none, some, List, [], ◌∷◌, ◌++◌, if◌then◌else◌,
  ◌==◌, arith, Bool-cases, inl, inr, u32,
}
use accelio.Observer.{Node, Observable, reg_observer, unreg_observer, find_node, del_node, find}
use accelio.Observer.Registry.{Distinct, registered, is_some}
use accelio.Observer.Invariant.{IsValid}

-- struct xio_observers_htbl_node
pub record HtblNode : Type 0 where
  pub observer : ℕ
  pub id : ℕ

-- The members of struct xio_nexus that know the observers.
pub record Observers : Type 0 where
  pub observable : Observable
  pub observers_htbl : List HtblNode

-- xio_nexus_hash_observer; `memory` is whether kcalloc succeeds
unfoldable pub hash_observer : List HtblNode → ℕ → ℕ → Bool → Bool × List HtblNode
hash_observer htbl observer id memory =
    if memory
    then (true, htbl ++ record { observer = observer; id = u32 id } ∷ [])
    else (false, htbl)

-- xio_nexus_delete_observer
unfoldable pub delete_observer : List HtblNode → ℕ → Bool × List HtblNode
delete_observer [] observer = (false, [])
delete_observer (n ∷ ns) observer =
    let rest = delete_observer ns observer in
    if n.observer == observer then (true, ns) else (rest.0, n ∷ rest.1)

-- xio_nexus_observer_lookup, 0 for NULL
unfoldable pub observer_lookup : List HtblNode → ℕ → ℕ
observer_lookup [] id = 0
observer_lookup (n ∷ ns) id =
    let rest = observer_lookup ns id in if n.id == id then n.observer else rest

-- xio_nexus_reg_observer; `allocated` is the node that the registration allocates, 0 for NULL
unfoldable pub nexus_reg_observer : Observers → ℕ → ℕ → ℕ → Bool → Observers
nexus_reg_observer o observer oid allocated memory = record {
  observable = reg_observer o.observable observer allocated;
  observers_htbl = (hash_observer o.observers_htbl observer oid memory).1;
}

-- xio_nexus_unreg_observer
unfoldable pub nexus_unreg_observer : Observers → ℕ → Observers
nexus_unreg_observer o observer = record {
  observable = unreg_observer o.observable observer;
  observers_htbl = (delete_observer o.observers_htbl observer).1;
}
