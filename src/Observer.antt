-- ===== src/Observer.antt =====
-- src/common/xio_observer.c: an observable keeps the list of its observers, newest first, and a
-- cached node that spares the walk where one observer serves.
-- A pointer is a number and NULL is 0. A node is its address and the observer that it holds: no
-- code changes the observer of a node, so the cached node is kept by value. `kcalloc` is an
-- argument: the address that it returns, or 0. What the callbacks do is outside: a notification
-- is the list of the calls that it makes, in order.
pub mod Registry
pub mod Invariant
pub mod Notify
mod Tests
use accelio.Prelude.{
  ℕ, Bool, true, false, ◌&&◌, not, Option, none, some, List, [], ◌∷◌, if◌then◌else◌, ◌==◌,
}

-- `struct xio_observer`; `notify` is the callback's address.
pub record Observer : Type 0 where
  pub address : ℕ
  pub impl : ℕ
  pub notify : ℕ

-- `struct xio_observer_node`; `observer` points to the observer.
pub record Node : Type 0 where
  pub address : ℕ
  pub observer : ℕ

-- `struct xio_observable`
pub record Observable : Type 0 where
  pub impl : ℕ
  pub nodes : List Node
  pub cached : Option Node

unfoldable pub observable_create : ℕ → Observable
observable_create impl = record { impl = impl; nodes = []; cached = none }

-- The loop of xio_observable_find over the list.
unfoldable pub find_node : List Node → ℕ → Option Node
find_node [] observer = none
find_node (n ∷ ns) observer = if n.observer == observer then some n else find_node ns observer

abbrev pub holds : Option Node → ℕ → Bool
holds none observer = false
holds (some n) observer = n.observer == observer

-- A find in the list moves the cached node there.
unfoldable pub find : Observable → ℕ → Option Node × Observable
find o observer =
    if holds o.cached observer then (o.cached, o) else elim (find_node o.nodes observer) [
      | none ↦ (none, o)
      | some n ↦ (some n, record o { cached = some n })
    ]

abbrev pub is_empty : List Node → Bool
is_empty [] = true
is_empty (n ∷ ns) = false

-- The new node goes to the front. Only the first observer is cached.
add_node : Observable → ℕ → ℕ → Observable
add_node o observer allocated =
    let n : Node = record { address = allocated; observer = observer } in
    record o { nodes = n ∷ o.nodes; cached = if is_empty o.nodes then some n else none }

-- `allocated` is what kcalloc returns; with 0 nothing is registered.
unfoldable pub reg_observer : Observable → ℕ → ℕ → Observable
unfolding find add_node
reg_observer o observer allocated =
    let (found, o') = find o observer in
    elim found [
      | some n ↦ o'
      | none ↦ if allocated == 0 then o' else add_node o' observer allocated
    ]

-- Unlinks the first node that holds `observer`.
pub del_node : List Node → ℕ → List Node
del_node [] observer = []
del_node (n ∷ ns) observer = if n.observer == observer then ns else n ∷ del_node ns observer

abbrev pub clear_if : Option Node → Node → Option Node
clear_if none n = none
clear_if (some c) n = if c.address == n.address then none else some c

unfoldable pub unreg_observer : Observable → ℕ → Observable
unreg_observer o observer = elim (find_node o.nodes observer) [
  | none ↦ o
  | some n ↦ record o { nodes = del_node o.nodes observer; cached = clear_if o.cached n }
]

unfoldable pub unreg_all_observers : Observable → Observable
unreg_all_observers o = record o { nodes = []; cached = none }

-- One call of a callback: the observer whose `notify` it is, the impl passed for the observer (or
-- NULL), and the observable's impl. The event and its data go unchanged to every call and are left
-- out.
pub record Call : Type 0 where
  pub observer : ℕ
  pub observer_impl : ℕ
  pub sender : ℕ

-- The observers that the pointers stand for.
module _ (deref : ℕ → Observer) where
  abbrev pub both_set : ℕ → ℕ → Bool
  both_set a b = not (a == 0) && not (b == 0)

  unfoldable pub notify_observer : Observable → ℕ → List Call
  notify_observer o observer =
      let ob = deref observer in
      if both_set o.impl ob.impl
      then record { observer = observer; observer_impl = ob.impl; sender = o.impl } ∷ []
      else []

  pub notify_nodes : ℕ → List Node → List Call
  notify_nodes impl [] = []
  notify_nodes impl (n ∷ ns) =
      let ob = deref n.observer in
      let rest = notify_nodes impl ns in
      if both_set impl ob.impl
      then record { observer = n.observer; observer_impl = ob.impl; sender = impl } ∷ rest
      else rest

  unfoldable pub notify_all_observers : Observable → List Call
  unfolding notify_nodes
  notify_all_observers o = notify_nodes o.impl o.nodes

any_call : Observable → Node → Call
any_call o n = record { observer = n.observer; observer_impl = 0; sender = o.impl }

-- The cached node is called, or the newest one, which is cached then.
unfoldable pub notify_any_observer : Observable → List Call × Observable
unfolding any_call
notify_any_observer o = elim o.cached [
  | some n ↦ (any_call o n ∷ [], o)
  | none ↦ elim o.nodes [
    | [] ↦ ([], o)
    | n ∷ ns ↦ (any_call o n ∷ [], record o { cached = some n })
  ]
]
