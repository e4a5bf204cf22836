-- ===== src/Caches/Idr/Refine.antt =====
-- src/common/xio_idr.c beside a plain set of addresses.
use accelio.Prelude.{
  ℕ, Bool, true, false, ◌&&◌, not, ◌≡◌, refl, ap, ◌∙◌, Option, none, some, List, [], ◌∷◌, map,
  if◌then◌else◌, ◌==◌, arith, Option-cases, inl, inr,
}
use accelio.Table.{lookup, lookup_from_list, insert, remove}
use accelio.Table.Map.{lookup-insert, lookup-remove}
use accelio.Table.Invariant.{
  WellFormed, get_or-replicate, init-WellFormed, insert-WellFormed, remove-WellFormed,
}
use accelio.Table.Hash.{int64_hash}
use accelio.Caches.Idr.{Idr, idr_create, is_some, prime_medium, remove_uobj, lookup_uobj, add_uobj}

-- A call of the interface.
pub data Request : Type 0 where
  add : ℕ → Option ℕ → Bool → Request
  remove_it look : ℕ → Request

abbrev pub step : Option Idr → Request → Bool × Option Idr
step i (add x name memory) = add_uobj i x name memory
step i (remove_it x) = remove_uobj i x
step i (look x) = (lookup_uobj i x, i)

-- The answers of a sequence of calls.
abbrev pub answers : Option Idr → List Request → List Bool
answers i [] = []
answers i (c ∷ cs) = (step i c).0 ∷ answers (step i c).1 cs

-- The same calls on a set, given by its membership test.
abbrev pub set_step : (ℕ → Bool) → Request → Bool × (ℕ → Bool)
set_step s (add x name memory) = (
  not (x == 0) && (memory && not (s x)),
  λ y. if not (x == 0) && (memory && y == x) then true else s y,
)
set_step s (remove_it x) = (s x, λ y. if y == x then false else s y)
set_step s (look x) = (s x, s)

abbrev pub set_answers : (ℕ → Bool) → List Request → List Bool
set_answers s [] = []
set_answers s (c ∷ cs) = (set_step s c).0 ∷ set_answers (set_step s c).1 cs

abbrev IdrWellFormed : Option Idr → Type 0
IdrWellFormed none = ⊥
IdrWellFormed (some t) = WellFormed t

step-answer : (t : Idr) (c : Request) → (step (some t) c).0 ≡ (set_step (lookup_uobj (some t)) c).0
unfolding add_uobj remove_uobj lookup_uobj
step-answer t (add x name memory) = ground arith
step-answer t (remove_it x) = ground arith
step-answer t (look x) = refl

step-members :
    (t : Idr) (c : Request) (y : ℕ)
    → WellFormed t
    → lookup_uobj (step (some t) c).1 y ≡ (set_step (lookup_uobj (some t)) c).1 y
unfolding add_uobj remove_uobj lookup_uobj
step-members t (add x name memory) y w = ground (arith, lookup-insert t x y name w.chained)
step-members t (remove_it x) y w = ground (arith, lookup-remove t x y w.chained (w.distinct x))
step-members t (look x) y w = refl

insert_step :
    (t : Idr) (x : ℕ) (name : Option ℕ)
    → WellFormed t
    → is_some (lookup t x) ≡ false
    → WellFormed (insert t x name)
insert_step t x name w h = elim (Option-cases (lookup t x)) [
  | inl e ↦ insert-WellFormed t x name e w
  | inr (v, e) ↦ ground (arith, e, h)
]

remove_step :
    (t : Idr) (x : ℕ) → WellFormed t → is_some (lookup t x) ≡ true → WellFormed (remove t x)
remove_step t x w h = elim (Option-cases (lookup t x)) [
  | inl e ↦ ground (arith, e, h)
  | inr (v, e) ↦ remove-WellFormed t x v e w
]

step-IdrWellFormed : (t : Idr) (c : Request) → WellFormed t → IdrWellFormed (step (some t) c).1
unfolding add_uobj remove_uobj lookup_uobj
step-IdrWellFormed t (add x name memory) w = ground (arith, insert_step t x name w)
step-IdrWellFormed t (remove_it x) w = ground (arith, remove_step t x w)
step-IdrWellFormed t (look x) w = w

answers-set :
    (i : Option Idr) (cs : List Request)
    → IdrWellFormed i
    → answers i cs ≡ set_answers (lookup_uobj i) cs
answers-set none cs w = absurd w
answers-set (some t) [] w = refl
answers-set (some t) (c ∷ cs) w =
    let i = (step (some t) c).1 in
    ap (λ b. b ∷ answers i cs) (step-answer t c)
    ∙ ap (λ bs. (set_step (lookup_uobj (some t)) c).0 ∷ bs)
        (answers-set i cs (step-IdrWellFormed t c w)
          ∙ ap (λ s. set_answers s cs) (λ k y. step-members t c y w k))

-- Without an index every call fails.
answers-none : (cs : List Request) → answers none cs ≡ map (λ c. false) cs
unfolding add_uobj remove_uobj lookup_uobj
answers-none [] = refl
answers-none (add x name memory ∷ cs) = ap (λ bs. false ∷ bs) (answers-none cs)
answers-none (remove_it x ∷ cs) = ap (λ bs. false ∷ bs) (answers-none cs)
answers-none (look x ∷ cs) = ap (λ bs. false ∷ bs) (answers-none cs)

create-members : (x : ℕ) → lookup_uobj (idr_create true) x ≡ false
unfolding lookup_uobj lookup_from_list
create-members x = rw get_or-replicate (ground arith)

-- An index that was just created gives, on every sequence of additions, removals and lookups, with
-- every outcome of the allocations, the answers that a set of addresses gives, which starts empty,
-- takes a non-NULL address that it does not hold if there is memory for its entry, and forgets an
-- address it holds. Where no index could be created every answer is a failure.
pub answers_refine :
    (memory : Bool) (cs : List Request)
    → answers (idr_create memory) cs
      ≡ (if memory then set_answers (λ x. false) cs else map (λ c. false) cs)
answers_refine true cs =
    answers-set (idr_create true) cs (init-WellFormed prime_medium int64_hash (omega arith))
    ∙ ap (λ s. set_answers s cs) (λ k x. create-members x k)
answers_refine false cs = answers-none cs
