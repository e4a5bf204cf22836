-- ===== src/Pools/Tasks/Numbering.antt =====
-- The ids of the slabs that a pool is given.
use accelio.Prelude.{
  ℕ, zero, suc, ◌+◌, ◌^◌, ◌≤◌, ◌<◌, true, ◌≡◌, refl, ap, ◌∙◌, some, List, [], ◌∷◌, ◌++◌, ◌==◌, u32,
  arith, Bool-cases, inl, inr, get_elem?,
}
use mathlib.Core.Option.{some_inj}
use accelio.Prelude.Counts.{addresses}
use accelio.Pools.Tasks.Ledger.{fill_slab-below}
use accelio.Pools.Tasks.{
  Task, Slab, Pool, Answers, write, with_context, fill_slab, alloc_nr, bad_params, reserve,
  new_slab, link_slab, make_slab, alloc_slab, lookup,
}
use accelio.Pools.Tasks.Lookup.{Numbered, Ids, Stands, lookup-Stands}

Ids-mem :
    (mem mem' : ℕ → Task) (brk brk' : ℕ) {lo hi hi' : ℕ} {ss : List Slab}
    → ((x : ℕ) → x < brk → (mem' x).ltid ≡ (mem x).ltid)
    → brk ≤ brk'
    → hi ≤ hi'
    → Ids mem brk lo ss hi
    → Ids mem' brk' lo ss hi'
Ids-mem mem mem' brk brk' m b w (Ids.nil h) = Ids.nil (omega arith)
Ids-mem mem mem' brk brk' m b w (Ids.cons h n r) =
    Ids.cons h
      (record {
        first = n.first;
        ids = λ i t e. let (a, c, d) = n.ids i t e in (a, omega arith, m t c ∙ d);
      })
      (Ids-mem mem mem' brk brk' m b w r)

Ids-append :
    (mem : ℕ → Task) (brk : ℕ) {lo hi hi' : ℕ} {ss : List Slab} (s : Slab)
    → Ids mem brk lo ss hi
    → hi ≤ s.start_idx
    → Numbered mem brk s
    → s.end_idx + 1 ≤ hi'
    → Ids mem brk lo (ss ++ s ∷ []) hi'
Ids-append mem brk s (Ids.nil h) k n e = Ids.cons (omega arith) n (Ids.nil e)
Ids-append mem brk s (Ids.cons h m r) k n e = Ids.cons h m (Ids-append mem brk s r k n e)

get_elem?-addresses : (a n i t : ℕ) → get_elem? (addresses a n) i ≡ some t → (i < n) × (t ≡ a + i)
get_elem?-addresses a zero i t e = absurd (cc)
get_elem?-addresses a (suc n) zero t e = (omega arith, ground (arith, some_inj.0 e))
get_elem?-addresses a (suc n) (suc i) t e =
    let (h, k) = get_elem?-addresses (a + 1) n i t e in (omega arith, omega arith)

shift :
    (start i a j : ℕ) (at : ℕ → ℕ)
    → at (a + 1 + j) ≡ u32 (start + (i + 1 + j))
    → at (a + suc j) ≡ u32 (start + (i + suc j))
shift start i a j at e =
    let p : a + suc j ≡ a + 1 + j = omega arith in
    let r : i + suc j ≡ i + 1 + j = omega arith in rw (p, r) e

fill_slab-ltid :
    (start context : ℕ) (init : ℕ → ℕ) (n i a : ℕ) (mem : ℕ → Task) (j : ℕ)
    → (fill_slab start context init n i a mem).0 ≡ true
    → j < n
    → ((fill_slab start context init n i a mem).1 (a + j)).ltid ≡ u32 (start + (i + j))
unfolding fill_slab
fill_slab-ltid start context init zero i a mem j f h = absurd (omega arith)
fill_slab-ltid start context init (suc n) i a mem zero f h =
    let mem1 =
      write mem a (record (mem a) { tlv_type = 0xdead; ltid = u32 (start + i); slab = start }) in
    let k : (fill_slab start context init n (i + 1) (a + 1) mem1).1 (a + 0) ≡ mem1 (a + 0) =
      fill_slab-below start context init n (i + 1) (a + 1) mem1 (a + 0) (omega arith) in
    elim (Bool-cases (with_context context (init i) == 0)) [
      | inl e ↦ rw (e, k) (ground arith)
      | inr e ↦ absurd (ground (arith, e, f))
    ]
fill_slab-ltid start context init (suc n) i a mem (suc j) f h =
    let mem1 =
      write mem a (record (mem a) { tlv_type = 0xdead; ltid = u32 (start + i); slab = start }) in
    elim (Bool-cases (with_context context (init i) == 0)) [
      | inl e ↦
          let ih =
            fill_slab-ltid start context init n (i + 1) (a + 1) mem1 j (ground (arith, e, f))
              (omega arith) in
          rw e (
            shift start i a j
              (λ x. ((fill_slab start context init n (i + 1) (a + 1) mem1).1 x).ltid) ih)
      | inr e ↦ absurd (ground (arith, e, f))
    ]

-- A new slab has the ids after those used so far.
new_slab-Numbered :
    (q : Pool) (context : ℕ) (init : ℕ → ℕ) (n : ℕ)
    → 0 < n
    → q.curr_idx + n < 2 ^ 32
    → (fill_slab q.curr_idx context init n 0 q.brk q.task).0 ≡ true
    → Numbered (fill_slab q.curr_idx context init n 0 q.brk q.task).1 (q.brk + n) (new_slab q n)
new_slab-Numbered q context init n z h f = record {
  first = omega arith;
  ids = λ i t e.
      let (a, b) = get_elem?-addresses q.brk n i t e in
      (
        omega arith,
        omega arith,
        rw b (fill_slab-ltid q.curr_idx context init n 0 q.brk q.task i f a ∙ omega arith),
      );
}

link_slab-Ids :
    (q : Pool) (context : ℕ) (init : ℕ → ℕ) (n : ℕ)
    → 0 < n
    → Ids q.task q.brk 0 q.slabs_list q.curr_idx
    → q.curr_idx + n < 2 ^ 32
    → let r = fill_slab q.curr_idx context init n 0 q.brk q.task in
      r.0 ≡ true → Ids r.1 (q.brk + n) 0 (q.slabs_list ++ new_slab q n ∷ []) (reserve q n).curr_idx
link_slab-Ids q context init n z d h f =
    let r = fill_slab q.curr_idx context init n 0 q.brk q.task in
    let d1 : Ids r.1 (q.brk + n) 0 q.slabs_list q.curr_idx =
      Ids-mem q.task r.1 q.brk (q.brk + n)
        (λ x e.
          ap (λ (t : Task). t.ltid) (fill_slab-below q.curr_idx context init n 0 q.brk q.task x e))
        (omega arith) (omega arith) d in
    Ids-append r.1 (q.brk + n) (new_slab q n) d1 (omega arith)
      (new_slab-Numbered q context init n z h f) (omega arith)

-- A request for a slab goes on with the ids where the slabs so far end, so that they ascend, as
-- long as they do not wrap around and whatever the allocator and the hooks answer.
pub alloc_slab-Ids :
    (q : Pool) (context : ℕ) (ans : Answers)
    → Ids q.task q.brk 0 q.slabs_list q.curr_idx
    → q.curr_idx + alloc_nr q < 2 ^ 32
    → let q1 = (alloc_slab q context ans).1 in Ids q1.task q1.brk 0 q1.slabs_list q1.curr_idx
unfolding alloc_slab make_slab link_slab
alloc_slab-Ids q context ans d h =
    let n = alloc_nr q in
    let r = fill_slab q.curr_idx context ans.slab_init_task n 0 q.brk q.task in
    let m : ((x : ℕ) → x < q.brk → (r.1 x).ltid ≡ (q.task x).ltid) = λ x e.
      ap (λ (t : Task). t.ltid)
        (fill_slab-below q.curr_idx context ans.slab_init_task n 0 q.brk q.task x e) in
    elim (Bool-cases (bad_params q.params)) [
      | inl e ↦ rw e d
      | inr e ↦ elim (Bool-cases (n == 0)) [
        | inl z ↦ rw (e, z) d
        | inr z ↦ elim (Bool-cases ans.buffer) [
          | inr b ↦ rw (e, z, b) d
          | inl b ↦
              let p : 0 < n = ground (arith, z) in
              elim (Bool-cases (ans.slab_pre_create == 0)) [
                | inr c ↦
                    rw (e, z, b, c)
                      (Ids-mem q.task q.task q.brk (q.brk + n) (λ x k. refl) (omega arith)
                        (omega arith) d)
                | inl c ↦ elim (Bool-cases r.0) [
                  | inr f ↦
                      rw (e, z, b, c, f)
                        (Ids-mem q.task r.1 q.brk (q.brk + n) m (omega arith) (omega arith) d)
                  | inl f ↦ elim (Bool-cases (with_context context ans.slab_post_create == 0)) [
                    | inl g ↦
                        rw (e, z, b, c, f, g) (link_slab-Ids q context ans.slab_init_task n p d h f)
                    | inr g ↦
                        rw (e, z, b, c, f, g) (link_slab-Ids q context ans.slab_init_task n p d h f)
                  ]
                ]
              ]
        ]
      ]
    ]

-- In a pool whose slabs have ascending ids, a request for a slab keeps them so, whatever the allocator
-- and the hooks answer; and after it each task of the slabs, of the new one too, is found by its id.
-- The ids do not wrap around.
pub lookup-alloc_slab :
    (q : Pool) (context : ℕ) (ans : Answers) (id t : ℕ)
    → Ids q.task q.brk 0 q.slabs_list q.curr_idx
    → q.curr_idx + alloc_nr q < 2 ^ 32
    → Stands id t (alloc_slab q context ans).1.slabs_list
    → let q1 = (alloc_slab q context ans).1 in
      Ids q1.task q1.brk 0 q1.slabs_list q1.curr_idx × (lookup q1 id ≡ some t)
lookup-alloc_slab q context ans id t d h st =
    let d1 = alloc_slab-Ids q context ans d h in
    (d1, lookup-Stands (alloc_slab q context ans).1 id t d1 st)
