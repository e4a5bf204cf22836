-- ===== src/Observer/Notify.antt =====
-- Whom a notification reaches.
use accelio.Prelude.{ℕ, ◌+◌, true, ◌&&◌, ◌≡◌, refl, List, [], ◌∷◌, ◌==◌, arith, if◌then◌else◌}
use accelio.Observer.{
  Node, Observer, Observable, Call, find_node, both_set, notify_nodes, notify_all_observers,
  notify_any_observer,
}
use accelio.Observer.Registry.{Distinct, registered, is_some}
use accelio.Observer.Invariant.{IsValid}

-- How many of the calls go to an observer.
abbrev pub calls_to : ℕ → List Call → ℕ
calls_to x [] = 0
calls_to x (c ∷ cs) = (if c.observer == x then 1 else 0) + calls_to x cs

module _ (deref : ℕ → Observer) where
  calls_to-notify_nodes :
      (impl x : ℕ) (ns : List Node)
      → Distinct ns
      → calls_to x (notify_nodes deref impl ns)
        ≡ (if is_some (find_node ns x) && both_set deref impl (deref x).impl then 1 else 0)
  unfolding notify_nodes find_node
  calls_to-notify_nodes impl x [] d = refl
  calls_to-notify_nodes impl x (n ∷ ns) d = ground (arith, calls_to-notify_nodes impl x ns d.1)

-- A notification of all calls an observer once if it is registered and both impls are set, and
-- otherwise never.
pub notify_all_once :
    (deref : ℕ → Observer) (o : Observable) (x : ℕ)
    → IsValid o
    → calls_to x (notify_all_observers deref o)
      ≡ (if registered o x && both_set deref o.impl (deref x).impl then 1 else 0)
unfolding notify_all_observers
notify_all_once deref o x v = calls_to-notify_nodes deref o.impl x o.nodes v.distinct

abbrev pub ServesOne : Observable → List Call → Type 0
ServesOne o [] = o.nodes ≡ []
ServesOne o (c ∷ []) =
    (registered o c.observer ≡ true) × (c.observer_impl ≡ 0) × (c.sender ≡ o.impl)
ServesOne o (c ∷ d ∷ cs) = ⊥

-- On a valid observable, a notification of any makes no call if there is no observer, and otherwise
-- one call, with no impl, of a registered observer. A second one makes the same calls.
pub notify_any-ServesOne :
    (o : Observable)
    → IsValid o
    → let (calls, o') = notify_any_observer o in
      ServesOne o calls × ((notify_any_observer o').0 ≡ calls)
unfolding notify_any_observer find_node
notify_any-ServesOne o v = ground arith
