-- ===== src/Nexus/Observers/Agree.antt =====
-- The table of a nexus' observers against the list of its observable.
use accelio.Prelude.{
  ℕ, suc, ◌+◌, ◌-◌, ◌^◌, ◌<◌, true, false, ◌≡◌, ◌≢◌, List, [], ◌∷◌, ◌++◌, if◌then◌else◌, ◌==◌,
  arith, Bool-cases, inl, inr, u32,
}
use accelio.Observer.{reg_observer}
use accelio.Observer.Registry.{registered}
use accelio.Observer.Invariant.{
  IsValid, registration_laws, reg_observer-IsValid, unreg_observer-IsValid,
}
use accelio.Nexus.Observers.{
  HtblNode, Observers, hash_observer, delete_observer, observer_lookup, nexus_reg_observer,
  nexus_unreg_observer,
}

-- How often an observer stands in the table.
abbrev pub entries : List HtblNode → ℕ → ℕ
entries [] x = 0
entries (n ∷ ns) x = let rest = entries ns x in if n.observer == x then suc rest else rest

-- Each observer that is registered stands in the table once, and no other does.
pub record Agree (o : Observers) : Type 0 where
  pub valid : IsValid o.observable
  pub once : (x : ℕ) → entries o.observers_htbl x ≡ (if registered o.observable x then 1 else 0)

entries-append :
    (x : ℕ) (ns : List HtblNode) (n : HtblNode)
    → entries (ns ++ n ∷ []) x ≡ entries ns x + (if n.observer == x then 1 else 0)
entries-append x [] n = ground arith
entries-append x (m ∷ ns) n = ground (arith, entries-append x ns n)

kept_entry :
    (m : HtblNode) (x y : ℕ) (ds ns : List HtblNode)
    → (m.observer == y) ≡ false
    → entries ds x ≡ (if y == x then entries ns x - 1 else entries ns x)
    → entries (m ∷ ds) x ≡ (if y == x then entries (m ∷ ns) x - 1 else entries (m ∷ ns) x)
kept_entry m x y ds ns e h = ground (arith, e, h)

entries-delete :
    (x y : ℕ) (ns : List HtblNode)
    → entries (delete_observer ns y).1 x ≡ (if y == x then entries ns x - 1 else entries ns x)
unfolding delete_observer
entries-delete x y [] = ground arith
entries-delete x y (m ∷ ns) = elim (Bool-cases (m.observer == y)) [
  | inl e ↦ rw e (ground arith)
  | inr e ↦ rw e (kept_entry m x y (delete_observer ns y).1 ns e (entries-delete x y ns))
]

lookup-append :
    (id : ℕ) (ns : List HtblNode) (n : HtblNode)
    → n.observer ≢ 0
    → observer_lookup ns n.id ≡ 0
    → ((x : ℕ) → 0 < entries ns x → x ≢ 0)
    → observer_lookup (ns ++ n ∷ []) id ≡ (if n.id == id then n.observer else observer_lookup ns id)
unfolding observer_lookup
lookup-append id [] n h e z = ground arith
lookup-append id (m ∷ ns) n h e z =
    let p : m.observer ≢ 0 = z m.observer (ground arith) in
    let q : (m.id == n.id) ≡ false = ground (arith, e) in
    ground
      (arith, q, lookup-append id ns n h (ground (arith, e, q)) (λ x k. z x (ground (arith, k))))

-- A registration of an observer that is not NULL and not yet registered, with memory for it, under a
-- 32-bit id that no other observer is found by, in a table without NULL, keeps the table and the
-- observable in agreement. The observer is then found by its id, and what is found by other ids is as
-- before.
pub reg-Agree :
    (o : Observers) (observer oid allocated id : ℕ)
    → Agree o
    → registered o.observable observer ≡ false
    → observer ≢ 0
    → oid < 2 ^ 32
    → allocated ≢ 0
    → observer_lookup o.observers_htbl oid ≡ 0
    → ((x : ℕ) → 0 < entries o.observers_htbl x → x ≢ 0)
    → let m = nexus_reg_observer o observer oid allocated true in
      Agree m
      × (observer_lookup m.observers_htbl id
          ≡ (if oid == id then observer else observer_lookup o.observers_htbl id))
unfolding nexus_reg_observer hash_observer
reg-Agree o observer oid allocated id a r z w l f h =
    let n : HtblNode = record { observer = observer; id = u32 oid } in
    let u : u32 oid ≡ oid = omega arith in
    (
      record {
        valid = reg_observer-IsValid o.observable observer allocated a.valid;
        once = λ x. ground (
          arith,
          entries-append x o.observers_htbl n,
          a.once x,
          r,
          l,
          (registration_laws o.observable observer allocated x a.valid).0,
        );
      },
      ground (arith, u, lookup-append id o.observers_htbl n z (ground (arith, u, f)) h),
    )

-- Taking an observer away keeps the table and the observable in agreement, and the observer stands in
-- neither; the entries of the others are as before.
pub unreg-Agree :
    (o : Observers) (observer y : ℕ)
    → Agree o
    → let m = nexus_unreg_observer o observer in
      Agree m
      × (registered m.observable observer ≡ false)
      × (entries m.observers_htbl y ≡ (if observer == y then 0 else entries o.observers_htbl y))
unfolding nexus_unreg_observer
unreg-Agree o observer y a = (
  record {
    valid = unreg_observer-IsValid o.observable observer a.valid;
    once = λ x. ground (
      arith,
      entries-delete x observer o.observers_htbl,
      a.once x,
      (registration_laws o.observable observer 0 x a.valid).1,
    );
  },
  ground (arith, (registration_laws o.observable observer 0 observer a.valid).1),
  ground (arith, entries-delete y observer o.observers_htbl, a.once y),
)

-- An observer that is registered a second time is not registered anew, but stands in the table once
-- more: when it is then taken away, an entry of it is left.
pub reg_twice_leaves :
    (o : Observers) (observer oid allocated : ℕ)
    → Agree o
    → registered o.observable observer ≡ true
    → let m = nexus_unreg_observer (nexus_reg_observer o observer oid allocated true) observer in
      (registered m.observable observer ≡ false) × (entries m.observers_htbl observer ≡ 1)
unfolding nexus_reg_observer nexus_unreg_observer hash_observer
reg_twice_leaves o observer oid allocated a r =
    let n : HtblNode = record { observer = observer; id = u32 oid } in
    let o1 = reg_observer o.observable observer allocated in
    let v = reg_observer-IsValid o.observable observer allocated a.valid in
    (
      ground (arith, (registration_laws o1 observer 0 observer v).1),
      ground (
        arith,
        entries-delete observer observer (o.observers_htbl ++ n ∷ []),
        entries-append observer o.observers_htbl n,
        a.once observer,
        r,
      ),
    )
