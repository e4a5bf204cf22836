-- ===== src/Observer/Invariant.antt =====
-- What holds of an observable between two calls, and what a registration changes.
use accelio.Prelude.{
  ℕ, ◌&&◌, ◌||◌, not, ◌≡◌, Option, none, some, List, [], ◌∷◌, ◌==◌, arith, Option-cases, inl, inr,
}
use accelio.Observer.{
  Node, Observable, clear_if, find_node, del_node, find, reg_observer, unreg_observer,
  unreg_all_observers, notify_any_observer, observable_create,
}
use accelio.Observer.Registry.{
  Distinct, registered, find_node-ObserverIs, find_node-del_node_ne, find_node-del_node_self,
  del_node-Distinct,
}

-- The cached node is one of the list.
abbrev pub CachedIn : Option Node → List Node → Type 0
CachedIn none ns = Unit {0}
CachedIn (some c) ns = find_node ns c.observer ≡ some c

pub record IsValid (o : Observable) : Type 0 where
  pub distinct : Distinct o.nodes
  pub cached_in : CachedIn o.cached o.nodes

pub find-IsValid : (o : Observable) (x : ℕ) → IsValid o → IsValid (find o x).1
unfolding find
find-IsValid o x v = ground (arith, find_node-ObserverIs o.nodes x)

pub reg_observer-IsValid : (o : Observable) (x a : ℕ) → IsValid o → IsValid (reg_observer o x a)
unfolding reg_observer find_node
reg_observer-IsValid o x a v = ground (arith, find_node-ObserverIs o.nodes x)

del_node-CachedIn :
    (cached : Option Node) (ns : List Node) (x : ℕ) (n : Node)
    → CachedIn cached ns
    → find_node ns x ≡ some n
    → CachedIn (clear_if cached n) (del_node ns x)
del_node-CachedIn none ns x n h e = tt
del_node-CachedIn (some c) ns x n h e =
    ground (arith, find_node-del_node_ne ns x c.observer, find_node-ObserverIs ns x)

pub unreg_observer-IsValid : (o : Observable) (x : ℕ) → IsValid o → IsValid (unreg_observer o x)
unfolding unreg_observer
unreg_observer-IsValid o x v = elim (Option-cases (find_node o.nodes x)) [
  | inl e ↦ rw (e, unreg_observer) v
  | inr (n, e) ↦
      rw (e, unreg_observer)
        (record {
          distinct = del_node-Distinct o.nodes x v.distinct;
          cached_in = del_node-CachedIn o.cached o.nodes x n v.cached_in e;
        })
]

pub unreg_all_observers-IsValid : (o : Observable) → IsValid (unreg_all_observers o)
unfolding unreg_all_observers
unreg_all_observers-IsValid o = record { distinct = tt; cached_in = tt }

pub notify_any_observer-IsValid : (o : Observable) → IsValid o → IsValid (notify_any_observer o).1
unfolding notify_any_observer find_node
notify_any_observer-IsValid o v = ground arith

-- The calls that change an observable.
pub data Op : Type 0 where
  reg : ℕ → ℕ → Op
  unreg : ℕ → Op
  unreg_all : Op
  notify_any : Op

abbrev pub step : Observable → Op → Observable
step o (reg x a) = reg_observer o x a
step o (unreg x) = unreg_observer o x
step o unreg_all = unreg_all_observers o
step o notify_any = (notify_any_observer o).1

abbrev pub run : Observable → List Op → Observable
run o [] = o
run o (op ∷ ops) = run (step o op) ops

step-IsValid : (o : Observable) (op : Op) → IsValid o → IsValid (step o op)
step-IsValid o (reg x a) v = reg_observer-IsValid o x a v
step-IsValid o (unreg x) v = unreg_observer-IsValid o x v
step-IsValid o unreg_all v = unreg_all_observers-IsValid o
step-IsValid o notify_any v = notify_any_observer-IsValid o v

run_from-IsValid : (o : Observable) (ops : List Op) → IsValid o → IsValid (run o ops)
run_from-IsValid o [] v = v
run_from-IsValid o (op ∷ ops) v = run_from-IsValid (step o op) ops (step-IsValid o op v)

-- After any calls on a new observable, no observer is registered twice and the cached node, if
-- there is one, is a node of the list.
pub run-IsValid : (impl : ℕ) (ops : List Op) → IsValid (run (observable_create impl) ops)
unfolding observable_create
run-IsValid impl ops = run_from-IsValid _ ops (record { distinct = tt; cached_in = tt })

reg_registered :
    (o : Observable) (x a y : ℕ)
    → IsValid o
    → registered (reg_observer o x a) y ≡ (registered o y || ((x == y) && not (a == 0)))
unfolding reg_observer find_node
reg_registered o x a y v = ground (arith, find_node-ObserverIs o.nodes x)

unreg_registered :
    (o : Observable) (x y : ℕ)
    → IsValid o
    → registered (unreg_observer o x) y ≡ (registered o y && not (x == y))
unfolding unreg_observer
unreg_registered o x y v = ground (
  arith,
  find_node-ObserverIs o.nodes x,
  find_node-del_node_ne o.nodes x y,
  find_node-del_node_self o.nodes x v.distinct,
)

-- On a valid observable, a registration adds exactly the observer given, unless kcalloc fails, and
-- an unregistration removes exactly that observer; `y` stands for any observer.
pub registration_laws :
    (o : Observable) (x a y : ℕ)
    → IsValid o
    → (registered (reg_observer o x a) y ≡ (registered o y || ((x == y) && not (a == 0))))
      × (registered (unreg_observer o x) y ≡ (registered o y && not (x == y)))
registration_laws o x a y v = (reg_registered o x a y v, unreg_registered o x y v)
