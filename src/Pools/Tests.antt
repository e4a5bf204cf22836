-- ===== src/Pools/Tests.antt =====
-- The pools at work.
use accelio.Prelude.{ℕ, ◌≡◌, ◌<◌, refl, true, false, none, some, [], ◌∷◌, arith}
use accelio.Prelude.Counts.{times}
use accelio.Pools.Tasks.{
  Task, Params, Pool, Answers, create, empty_pool, get, put, addref, lookup, alloc_slab, alloc_nr,
  fill_slab, make_slab, link_slab, hand_out,
}
use accelio.Pools.Tasks.Ledger.{Ledger, Sane}
use accelio.Pools.Tasks.Lending.{Lends, get-Lends}
use accelio.Pools.Tasks.History.{
  start, then_, gets, addrefs, puts, create-run-Ledger, empty_pool-Ledger,
}
use accelio.Pools.Tasks.Lookup.{Ids, Stands, here}
use accelio.Pools.Tasks.Numbering.{lookup-alloc_slab}
use accelio.Pools.Tasks.Freed.{post_create_dangles}
use accelio.Pools.Objects as Objects
use accelio.Pools.Objects.Ledger as Accounts

abbrev blank : ℕ → Task
blank x = record { ltid = 0; kref = 0; tlv_type = 0; context = 0; slab = 0; sender_task = none }

abbrev params : Params
params = record { start_nr = 2; max_nr = 5; alloc_nr = 2 }

abbrev good : Answers
good = record { buffer = true; slab_pre_create = 0; slab_init_task = λ i. 0; slab_post_create = 0 }

abbrev late : Answers
late = record good { slab_post_create = 1 }

sane : Sane params
sane = record { start = omega arith; max = omega arith; alloc = omega arith }

abbrev pool : Pool
pool = (alloc_slab (empty_pool params 7 blank) 7 good).1

-- The first slab has two tasks; the first of them is given.
test_get : (get pool 7 good).1 ≡ some 1
unfolding get hand_out alloc_slab make_slab link_slab alloc_nr fill_slab
test_get = refl

abbrev one_lent : Pool
one_lent = (get pool 7 good).0

create_pool : create params 7 blank good ≡ some pool
unfolding create alloc_slab make_slab link_slab alloc_nr fill_slab
create_pool = refl

create-run-Ledger_example : Ledger (put (addref one_lent 1) 1) (1 ∷ [])
unfolding get hand_out alloc_slab make_slab link_slab alloc_nr fill_slab addref put
create-run-Ledger_example =
    create-run-Ledger params 7 blank good pool (put (addref one_lent 1) 1) (1 ∷ []) sane refl
      create_pool
      (then_
        (then_ (then_ start (gets 7 good 1 refl test_get)) (addrefs 1 (omega arith) (omega arith)))
        (puts 1 (omega arith)))

get-Lends_example : let r = get (empty_pool params 7 blank) 7 good in Lends r.0 [] r.1
get-Lends_example =
    get-Lends (empty_pool params 7 blank) [] 7 good (empty_pool-Ledger params 7 blank sane) refl

stands : Stands 1 2 pool.slabs_list
unfolding alloc_slab make_slab link_slab alloc_nr fill_slab
stands = here 1 refl refl

lookup-alloc_slab_example :
    Ids pool.task pool.brk 0 pool.slabs_list pool.curr_idx × (lookup pool 1 ≡ some 2)
unfolding alloc_nr
lookup-alloc_slab_example =
    lookup-alloc_slab (empty_pool params 7 blank) 7 good 1 2 (Ids.nil (omega arith)) (omega arith)
      stands

post_create_dangles_example :
    let r = alloc_slab (empty_pool params 7 blank) 7 late in
    (r.0 ≡ false) × (0 < times 2 r.1.stack) × (0 < times 2 r.1.freed)
unfolding alloc_nr fill_slab
post_create_dangles_example =
    post_create_dangles (empty_pool params 7 blank) 7 late 1 refl (omega arith) refl refl refl
      (omega arith) (omega arith)

abbrev objects : Objects.Pool
objects = record {
  free_list = [];
  used_list = [];
  chunks_list = [];
  grow_nr = 2;
  total_nr = 0;
  next = 1;
}

alloc-Gives_example :
    let r = Objects.alloc objects true in
    Accounts.Gives objects r.0 true r.1 × Accounts.Ledger r.0 0
alloc-Gives_example =
    Accounts.alloc-Gives objects 0 true
      (record { single = λ x. omega arith; below = λ x h. refl; total = refl }) (omega arith)
      (omega arith) (omega arith)
