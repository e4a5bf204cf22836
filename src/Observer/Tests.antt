-- ===== src/Observer/Tests.antt =====
-- Runs of the observers at fixed inputs.
use accelio.Prelude.{ℕ, true, false, ◌≡◌, refl, List, [], ◌∷◌}
use accelio.Observer.{
  Observer, Observable, observable_create, find_node, del_node, reg_observer, unreg_observer,
  notify_any_observer,
}
use accelio.Observer.Registry.{registered}
use accelio.Observer.Invariant.{IsValid, Op, reg, unreg, notify_any, run, run-IsValid}

-- The observer 12 is registered twice, and 13 has no memory.
abbrev calls : List Op
calls = reg 11 101 ∷ reg 12 102 ∷ reg 12 103 ∷ reg 13 0 ∷ notify_any ∷ unreg 11 ∷ reg 14 104 ∷ []

abbrev observable : Observable
observable = run (observable_create 5) calls

registered_after : (registered observable 11 ≡ false) × (registered observable 12 ≡ true)
unfolding observable_create reg_observer unreg_observer notify_any_observer find_node del_node
registered_after = (refl, refl)

run-IsValid_example : IsValid observable
run-IsValid_example = run-IsValid 5 calls

abbrev deref : ℕ → Observer
deref a = record { address = a; impl = 1000; notify = 2000 }
