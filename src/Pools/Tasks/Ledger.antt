-- ===== src/Pools/Tasks/Ledger.antt =====
-- The tasks of a pool that are free and those that are lent out.
use accelio.Prelude.{
  ◌⊎◌, ℕ, zero, suc, ◌+◌, ◌-◌, ◌^◌, ◌≤◌, ◌<◌, true, ◌≡◌, refl, ◌∙◌, List, [], ◌∷◌, ◌++◌, ◌==◌, u32,
  length, arith, Bool-cases, inl, inr, length-append,
}
use accelio.Prelude.Counts.{times, addresses, times-append, length-addresses, times-addresses}
use accelio.Pools.Tasks.{
  Task, Slab, Params, Pool, Answers, write, with_context, fill_slab, alloc_nr, bad_params, reserve,
  give_back, new_slab, link_slab, make_slab, alloc_slab,
}

abbrev pub slab_tasks : List Slab → List ℕ
slab_tasks [] = []
slab_tasks (s ∷ ss) = s.array ++ slab_tasks ss

-- Parameters that ask for no more tasks at the start than there may be.
pub record Sane (p : Params) : Type 0 where
  pub start : p.start_nr ≤ p.max_nr
  pub max : p.max_nr < 2 ^ 31
  pub alloc : p.alloc_nr < 2 ^ 31

-- The account of a pool that has lent the tasks `lent`.
pub record Ledger (q : Pool) (lent : List ℕ) : Type 0 where
  pub sane : Sane q.params
  -- Each task of a slab is free or lent, and is so once.
  pub owned : (x : ℕ) → times x q.stack + times x lent ≡ times x (slab_tasks q.slabs_list)
  pub single : (x : ℕ) → times x (slab_tasks q.slabs_list) ≤ 1
  pub below : (x : ℕ) → q.brk ≤ x → times x (slab_tasks q.slabs_list) ≡ 0
  -- No task of a slab lies in memory that was given back.
  pub live : (x : ℕ) → 0 < times x (slab_tasks q.slabs_list) → times x q.freed ≡ 0
  pub old : (x : ℕ) → q.brk ≤ x → times x q.freed ≡ 0
  pub used : q.curr_used ≡ length lent
  pub alloced : q.curr_alloced ≡ length q.stack + length lent
  pub limit : q.curr_alloced ≤ q.params.max_nr
  -- A pool that has tasks has those of its start; the last task is never lent.
  pub begun : (q.curr_alloced ≡ 0) ⊎ (q.params.start_nr ≤ q.curr_alloced)
  pub spare : q.curr_used ≤ q.params.max_nr - 1
  pub counted : (x : ℕ) → 0 < times x lent → (0 < (q.task x).kref) × ((q.task x).kref < 2 ^ 32)

times-slab_tasks :
    (x : ℕ) (ss : List Slab) (s : Slab)
    → times x (slab_tasks (ss ++ s ∷ [])) ≡ times x (slab_tasks ss) + times x s.array
times-slab_tasks x [] s = omega (arith, times-append x s.array [])
times-slab_tasks x (r ∷ ss) s = omega (
  arith,
  times-append x r.array (slab_tasks (ss ++ s ∷ [])),
  times-append x r.array (slab_tasks ss),
  times-slab_tasks x ss s,
)

pub fill_slab-below :
    (start context : ℕ) (init : ℕ → ℕ) (n i a : ℕ) (mem : ℕ → Task) (x : ℕ)
    → x < a
    → (fill_slab start context init n i a mem).1 x ≡ mem x
unfolding fill_slab
fill_slab-below start context init zero i a mem x h = refl
fill_slab-below start context init (suc n) i a mem x h =
    let mem1 =
      write mem a (record (mem a) { tlv_type = 0xdead; ltid = u32 (start + i); slab = start }) in
    let ih : (fill_slab start context init n (i + 1) (a + 1) mem1).1 x ≡ mem1 x =
      fill_slab-below start context init n (i + 1) (a + 1) mem1 x (omega arith) in
    let w : mem1 x ≡ mem x = ground arith in
    elim (Bool-cases (with_context context (init i) == 0)) [
      | inl e ↦ rw e (ih ∙ w)
      | inr e ↦ rw e w
    ]

give_back-Ledger :
    (q : Pool) (lent : List ℕ) (mem : ℕ → Task) (n : ℕ)
    → Ledger q lent
    → ((x : ℕ) → x < q.brk → mem x ≡ q.task x)
    → Ledger (give_back (record (reserve q n) { task = mem }) n) lent
give_back-Ledger q lent mem n l m = record {
  sane = l.sane;
  owned = l.owned;
  single = l.single;
  below = λ x h. l.below x (omega arith);
  live = λ x h. ground (
    arith,
    h,
    times-append x (addresses (q.brk + n - n) n) q.freed,
    times-addresses x (q.brk + n - n) n,
    l.live x h,
    l.below x,
  );
  old = λ x h. ground (
    arith,
    h,
    times-append x (addresses (q.brk + n - n) n) q.freed,
    times-addresses x (q.brk + n - n) n,
    l.old x,
  );
  used = l.used;
  alloced = l.alloced;
  limit = l.limit;
  begun = l.begun;
  spare = l.spare;
  counted = λ x h. ground (arith, h, l.counted x h, m x, l.below x, l.owned x);
}

link_slab-Ledger :
    (q : Pool) (lent : List ℕ) (mem : ℕ → Task) (n : ℕ)
    → Ledger q lent
    → ((x : ℕ) → x < q.brk → mem x ≡ q.task x)
    → q.curr_alloced + n ≤ q.params.max_nr
    → q.params.start_nr ≤ q.curr_alloced + n
    → Ledger (link_slab (record (reserve q n) { task = mem }) (new_slab q n)) lent
unfolding link_slab
link_slab-Ledger q lent mem n l m h b = record {
  sane = l.sane;
  owned = λ x. omega (
    arith,
    times-append x q.stack (addresses q.brk n),
    times-slab_tasks x q.slabs_list (new_slab q n),
    l.owned x,
  );
  single = λ x. ground (
    arith,
    times-slab_tasks x q.slabs_list (new_slab q n),
    times-addresses x q.brk n,
    l.single x,
    l.below x,
  );
  below = λ x k. ground (
    arith,
    k,
    times-slab_tasks x q.slabs_list (new_slab q n),
    times-addresses x q.brk n,
    l.below x,
  );
  live = λ x k. ground (
    arith,
    k,
    times-slab_tasks x q.slabs_list (new_slab q n),
    times-addresses x q.brk n,
    l.live x,
    l.old x,
  );
  old = λ x k. l.old x (omega arith);
  used = l.used;
  alloced = omega (
    arith,
    length-append q.stack (addresses q.brk n),
    length-addresses q.brk n,
    l.alloced,
    l.sane.max,
  );
  limit = omega (arith, l.sane.max);
  begun = inr (omega (arith, l.sane.max));
  spare = l.spare;
  counted = λ x k. ground (arith, k, l.counted x k, m x, l.below x, l.owned x);
}

alloc_nr_lem :
    (q : Pool) (lent : List ℕ)
    → Ledger q lent
    → (q.curr_alloced + alloc_nr q ≤ q.params.max_nr)
      × ((alloc_nr q ≡ 0) ⊎ (q.params.start_nr ≤ q.curr_alloced + alloc_nr q))
unfolding alloc_nr
alloc_nr_lem q lent l = (
  ground (arith, l.limit, l.begun, l.sane.start, l.sane.max),
  ground (arith, l.limit, l.begun, l.sane.start, l.sane.max),
)

-- A slab that is asked for of an account in order leaves it in order, whatever the allocator
-- and the hooks answer but the last hook, which is to answer 0.
pub alloc_slab-Ledger :
    (q : Pool) (lent : List ℕ) (context : ℕ) (ans : Answers)
    → Ledger q lent
    → ans.slab_post_create ≡ 0
    → Ledger (alloc_slab q context ans).1 lent
unfolding alloc_slab make_slab
alloc_slab-Ledger q lent context ans l p =
    let n = alloc_nr q in
    let filled = fill_slab q.curr_idx context ans.slab_init_task n 0 q.brk q.task in
    let m : ((x : ℕ) → x < q.brk → filled.1 x ≡ q.task x) =
      λ x. fill_slab-below q.curr_idx context ans.slab_init_task n 0 q.brk q.task x in
    let r : (with_context context ans.slab_post_create == 0) ≡ true = ground (arith, p) in
    elim (Bool-cases (bad_params q.params)) [
      | inl e ↦ rw e l
      | inr e ↦ elim (Bool-cases (n == 0)) [
        | inl z ↦ rw (e, z) l
        | inr z ↦ elim (Bool-cases ans.buffer) [
          | inr b ↦ rw (e, z, b) l
          | inl b ↦ elim (Bool-cases (ans.slab_pre_create == 0)) [
            | inr c ↦ rw (e, z, b, c) (give_back-Ledger q lent q.task n l (λ x h. refl))
            | inl c ↦ elim (Bool-cases filled.0) [
              | inr f ↦ rw (e, z, b, c, f) (give_back-Ledger q lent filled.1 n l m)
              | inl f ↦
                  rw (e, z, b, c, f, r)
                    (link_slab-Ledger q lent filled.1 n l m (alloc_nr_lem q lent l).0
                      (ground (arith, z, (alloc_nr_lem q lent l).1)))
            ]
          ]
        ]
      ]
    ]
