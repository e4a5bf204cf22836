-- ===== src/Pools/Tasks/Freed.antt =====
-- A slab whose last hook fails.
use accelio.Prelude.{ℕ, ◌+◌, ◌-◌, ◌<◌, ◌≢◌, true, false, ◌≡◌, refl, ◌==◌, arith}
use accelio.Prelude.Counts.{times, addresses, times-append, times-addresses}
use accelio.Pools.Tasks.{
  Pool, Answers, fill_slab, alloc_nr, bad_params, make_slab, link_slab, alloc_slab, with_context,
}

-- When the hooks before it succeed and the last hook fails, the request for a slab fails and gives
-- the slab's memory back; but the slab is linked by then: each of its tasks stands on the stack of
-- free tasks, in memory that was given back.
pub post_create_dangles :
    (q : Pool) (context : ℕ) (ans : Answers) (i : ℕ)
    → bad_params q.params ≡ false
    → i < alloc_nr q
    → ans.buffer ≡ true
    → ans.slab_pre_create ≡ 0
    → (fill_slab q.curr_idx context ans.slab_init_task (alloc_nr q) 0 q.brk q.task).0 ≡ true
    → context ≢ 0
    → ans.slab_post_create ≢ 0
    → let r = alloc_slab q context ans in
      (r.0 ≡ false) × (0 < times (q.brk + i) r.1.stack) × (0 < times (q.brk + i) r.1.freed)
unfolding alloc_slab make_slab link_slab
post_create_dangles q context ans i p h b c f k m =
    let n = alloc_nr q in
    let z : (n == 0) ≡ false = ground arith in
    let c' : (ans.slab_pre_create == 0) ≡ true = ground arith in
    let g : (with_context context ans.slab_post_create == 0) ≡ false = ground arith in
    let t = times-append (q.brk + i) q.stack (addresses q.brk n) in
    let u = times-append (q.brk + i) (addresses (q.brk + n - n) n) q.freed in
    rw (p, z, b, c', f, g)
      (
        refl,
        ground (arith, t, times-addresses (q.brk + i) q.brk n),
        ground (arith, u, times-addresses (q.brk + i) (q.brk + n - n) n),
      )
