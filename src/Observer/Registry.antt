-- ===== src/Observer/Registry.antt =====
-- The list of nodes as a set of observers.
use accelio.Prelude.{
  ℕ, Bool, true, false, ◌≡◌, refl, Option, none, some, List, [], ◌∷◌, ◌==◌, arith, Bool-cases, inl,
  inr,
}
use accelio.Observer.{Node, Observable, find_node, del_node}

abbrev pub is_some : Option Node → Bool
is_some none = false
is_some (some n) = true

-- Whether an observer is registered.
abbrev pub registered : Observable → ℕ → Bool
registered o x = is_some (find_node o.nodes x)

-- No observer has two nodes.
abbrev pub Distinct : List Node → Type 0
Distinct [] = Unit
Distinct (n ∷ ns) = (find_node ns n.observer ≡ none) × Distinct ns

abbrev pub ObserverIs : Option Node → ℕ → Type 0
ObserverIs none x = Unit {0}
ObserverIs (some n) x = n.observer ≡ x

-- A node that is found for an observer holds it.
pub find_node-ObserverIs : (ns : List Node) (x : ℕ) → ObserverIs (find_node ns x) x
unfolding find_node
find_node-ObserverIs [] x = tt
find_node-ObserverIs (m ∷ ns) x = ground (arith, find_node-ObserverIs ns x)

pub find_node-del_node_ne :
    (ns : List Node) (x y : ℕ) → (x == y) ≡ false → find_node (del_node ns x) y ≡ find_node ns y
unfolding find_node del_node
find_node-del_node_ne [] x y h = refl
find_node-del_node_ne (m ∷ ns) x y h = ground (arith, find_node-del_node_ne ns x y)

pub find_node-del_node_self :
    (ns : List Node) (x : ℕ) → Distinct ns → find_node (del_node ns x) x ≡ none
unfolding find_node del_node
find_node-del_node_self [] x d = refl
find_node-del_node_self (m ∷ ns) x d = ground (arith, find_node-del_node_self ns x)

find_node-del_node-none :
    (ns : List Node) (x y : ℕ) → find_node ns y ≡ none → find_node (del_node ns x) y ≡ none
unfolding find_node del_node
find_node-del_node-none [] x y h = refl
find_node-del_node-none (m ∷ ns) x y h = ground (arith, find_node-del_node-none ns x y)

pub del_node-Distinct : (ns : List Node) (x : ℕ) → Distinct ns → Distinct (del_node ns x)
unfolding del_node
del_node-Distinct [] x d = tt
del_node-Distinct (m ∷ ns) x d = elim (Bool-cases (m.observer == x)) [
  | inl e ↦ rw (e, del_node) d.1
  | inr e ↦
      rw (e, del_node) (find_node-del_node-none ns x m.observer d.0, del_node-Distinct ns x d.1)
]
