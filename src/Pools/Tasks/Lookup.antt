-- ===== src/Pools/Tasks/Lookup.antt =====
-- The tasks of a pool found by their ids.
use accelio.Prelude.{
  ℕ, ◌+◌, ◌-◌, ◌≤◌, ◌<◌, true, false, ◌≡◌, refl, ◌∙◌, some, List, [], ◌∷◌, leb, ◌==◌, arith,
  Bool-cases, inl, inr, get_elem?,
}
use accelio.Pools.Tasks.{Task, Slab, Pool, slab_task, lookup}

-- The tasks of a slab: below `brk`, with the slab's ids in order.
pub record Numbered (mem : ℕ → Task) (brk : ℕ) (s : Slab) : Type 0 where
  pub first : s.start_idx ≤ s.end_idx
  pub ids :
      (i t : ℕ)
      → get_elem? s.array i ≡ some t
      → (s.start_idx + i ≤ s.end_idx) × (t < brk) × ((mem t).ltid ≡ s.start_idx + i)

-- Slabs whose ids ascend, from `lo` to below `hi`.
pub data Ids (mem : ℕ → Task) (brk : ℕ) : ℕ → List Slab → ℕ → Type 0 where
  nil : {lo hi : ℕ} → lo ≤ hi → Ids mem brk lo [] hi
  cons :
      {lo hi : ℕ} {s : Slab} {ss : List Slab}
      → lo ≤ s.start_idx
      → Numbered mem brk s
      → Ids mem brk (s.end_idx + 1) ss hi
      → Ids mem brk lo (s ∷ ss) hi

-- A task that stands in one of the slabs, with its id.
pub data Stands (id t : ℕ) : List Slab → Type 0 where
  here :
      {s : Slab} {ss : List Slab} (i : ℕ)
      → get_elem? s.array i ≡ some t
      → s.start_idx + i ≡ id
      → Stands id t (s ∷ ss)
  there : {s : Slab} {ss : List Slab} → Stands id t ss → Stands id t (s ∷ ss)

Stands-lower :
    (mem : ℕ → Task) (brk : ℕ) {id t lo hi : ℕ} {ss : List Slab}
    → Ids mem brk lo ss hi
    → Stands id t ss
    → (lo ≤ id) × ((mem t).ltid ≡ id)
Stands-lower mem brk (Ids.nil h) st = elim st [ ]
Stands-lower mem brk (Ids.cons h n r) (Stands.here i e k) =
    let (a, b, c) = n.ids i _ e in (omega arith, c ∙ k)
Stands-lower mem brk (Ids.cons h n r) (Stands.there st) =
    let (a, b) = Stands-lower mem brk r st in (omega (arith, n.first), b)

slab_task-Stands :
    (mem : ℕ → Task) (brk : ℕ) {id t lo hi : ℕ} {ss : List Slab}
    → Ids mem brk lo ss hi
    → Stands id t ss
    → slab_task ss id ≡ some t
unfolding slab_task
slab_task-Stands mem brk (Ids.nil h) st = elim st [ ]
slab_task-Stands mem brk {id} (Ids.cons {s = s} h n r) (Stands.here i e k) =
    let (a, b, c) = n.ids i _ e in
    let j : id - s.start_idx ≡ i = omega arith in
    let u : leb s.start_idx id ≡ true = ground arith in
    let v : leb id s.end_idx ≡ true = ground arith in rw (u, v, j) e
slab_task-Stands mem brk {id} (Ids.cons {s = s} h n r) (Stands.there st) =
    let (a, b) = Stands-lower mem brk r st in
    let v : leb id s.end_idx ≡ false = ground arith in
    elim (Bool-cases (leb s.start_idx id)) [
      | inl u ↦ rw (u, v) (slab_task-Stands mem brk r st)
      | inr u ↦ rw u (slab_task-Stands mem brk r st)
    ]

-- In a pool whose slabs have ascending ids, each task of the slabs is found by its id.
pub lookup-Stands :
    (q : Pool) (id t : ℕ)
    → Ids q.task q.brk 0 q.slabs_list q.curr_idx
    → Stands id t q.slabs_list
    → lookup q id ≡ some t
unfolding lookup
lookup-Stands q id t d st =
    let (a, b) = Stands-lower q.task q.brk d st in
    let f : ((q.task t).ltid == id) ≡ true = ground (arith, b) in
    rw (lookup, slab_task-Stands q.task q.brk d st, f) refl
