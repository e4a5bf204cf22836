-- ===== src/Pools/Tasks.antt =====
-- The pool of tasks (src/common/xio_task.h, src/usr/xio/xio_task.c): slabs of tasks, allocated as
-- they are needed, and the stack of those that are free.
pub mod Lookup
pub mod Ledger
pub mod Lending
pub mod History
pub mod Freed
pub mod Numbering
use accelio.Prelude.{
  ℕ, zero, suc, ◌+◌, ◌-◌, ◌*◌, ◌^◌, Bool, true, false, ◌||◌, Option, none, some, List, [], ◌∷◌,
  ◌++◌, if◌then◌else◌, ltb, leb, ◌==◌, u32, sub_wrap, get_elem?,
}
use accelio.Prelude.Counts.{remove, addresses}

-- struct xio_task; pointers to tasks are their addresses, that of the slab is the slab's start_idx
pub record Task : Type 0 where
  pub ltid : ℕ
  pub kref : ℕ
  pub tlv_type : ℕ
  pub context : ℕ
  pub slab : ℕ
  pub sender_task : Option ℕ

-- struct xio_tasks_slab; `array` holds the addresses of its tasks
pub record Slab : Type 0 where
  pub array : List ℕ
  pub start_idx : ℕ
  pub end_idx : ℕ
  pub nr : ℕ

-- struct xio_tasks_pool_params, without the hooks and the sizes
pub record Params : Type 0 where
  pub start_nr : ℕ
  pub max_nr : ℕ
  pub alloc_nr : ℕ

-- struct xio_tasks_pool, with the memory of its tasks: `brk` is the first address not yet taken,
-- `freed` are the addresses given back. `context` is that of the hooks.
pub record Pool : Type 0 where
  pub params : Params
  pub stack : List ℕ
  pub curr_used : ℕ
  pub curr_alloced : ℕ
  pub max_used : ℕ
  pub curr_idx : ℕ
  pub slabs_list : List Slab
  pub context : ℕ
  pub task : ℕ → Task
  pub brk : ℕ
  pub freed : List ℕ

-- What the allocator and the transport's hooks answer when a slab is made; a hook that is not there
-- is one that answers 0.
pub record Answers : Type 0 where
  pub buffer : Bool
  pub slab_pre_create : ℕ
  pub slab_init_task : ℕ → ℕ
  pub slab_post_create : ℕ

abbrev pub write : (ℕ → Task) → ℕ → Task → ℕ → Task
write mem a t x = if a == x then t else mem x

-- A hook that is called only with a context that is not NULL.
abbrev pub with_context : ℕ → ℕ → ℕ
with_context context answer = if context == 0 then 0 else answer

-- The loop of xio_tasks_pool_alloc_slab: `n` tasks are left to fill in, the next one at index `i` of
-- the slab and at address `a`.
unfoldable pub fill_slab : ℕ → ℕ → (ℕ → ℕ) → ℕ → ℕ → ℕ → (ℕ → Task) → Bool × (ℕ → Task)
fill_slab start context init zero i a mem = (true, mem)
fill_slab start context init (suc n) i a mem =
    let mem1 =
      write mem a (record (mem a) { tlv_type = 0xdead; ltid = u32 (start + i); slab = start }) in
    let rest = fill_slab start context init n (i + 1) (a + 1) mem1 in
    if with_context context (init i) == 0 then rest else (false, mem1)

abbrev pub min32 : ℕ → ℕ → ℕ
min32 a b = if ltb a b then a else b

-- How many tasks the next slab has.
unfoldable pub alloc_nr : Pool → ℕ
alloc_nr q =
    if ltb 0 q.params.start_nr
    then if ltb q.curr_alloced q.params.start_nr
      then min32 q.params.start_nr q.params.max_nr
      else min32 q.params.alloc_nr (sub_wrap 32 q.params.max_nr q.curr_alloced)
    else min32 q.params.alloc_nr (sub_wrap 32 q.params.max_nr q.curr_alloced)

-- A parameter that is negative as an `int`.
abbrev pub bad_params : Params → Bool
bad_params p = leb (2 ^ 31) p.start_nr || (leb (2 ^ 31) p.max_nr || leb (2 ^ 31) p.alloc_nr)

-- The buffer of the slab, taken, with the ids that it uses up.
abbrev pub reserve : Pool → ℕ → Pool
reserve q n = record q { curr_idx = u32 (u32 (q.curr_idx + (n - 1)) + 1); brk = q.brk + n }

-- `cleanup`: the buffer is given back.
abbrev pub give_back : Pool → ℕ → Pool
give_back q n = record q { freed = addresses (q.brk - n) n ++ q.freed }

abbrev pub new_slab : Pool → ℕ → Slab
new_slab q n = record {
  array = addresses q.brk n;
  start_idx = q.curr_idx;
  end_idx = u32 (q.curr_idx + (n - 1));
  nr = n;
}

-- The slab and its tasks, linked into the pool.
unfoldable pub link_slab : Pool → Slab → Pool
link_slab q s = record q {
  curr_alloced = u32 (q.curr_alloced + s.nr);
  slabs_list = q.slabs_list ++ s ∷ [];
  stack = q.stack ++ s.array;
}

-- The last hook, called once the slab is linked.
abbrev pub post_create : Pool → ℕ → ℕ → Bool × Pool
post_create q answer n = if answer == 0 then (true, q) else (false, give_back q n)

unfoldable pub make_slab : Pool → ℕ → ℕ → Answers → Bool × Pool
make_slab q context n ans =
    let q1 = reserve q n in
    let (filled, mem) = fill_slab q.curr_idx context ans.slab_init_task n 0 q.brk q.task in
    if ans.slab_pre_create == 0
    then if filled
      then post_create (link_slab (record q1 { task = mem }) (new_slab q n))
          (with_context context ans.slab_post_create) n
      else (false, give_back (record q1 { task = mem }) n)
    else (false, give_back q1 n)

-- xio_tasks_pool_alloc_slab; `true` is the answer 0, `false` the answer -1. The sizes in bytes, of
-- which the sum is an `int`, are left out: `ans.buffer` is whether there is memory.
unfoldable pub alloc_slab : Pool → ℕ → Answers → Bool × Pool
alloc_slab q context ans =
    if bad_params q.params
    then (false, q)
    else if alloc_nr q == 0
    then (true, q)
    else if ans.buffer
    then make_slab q context (alloc_nr q) ans
    else (false, q)

abbrev pub empty_pool : Params → ℕ → (ℕ → Task) → Pool
empty_pool params context mem = record {
  params = params;
  stack = [];
  curr_used = 0;
  curr_alloced = 0;
  max_used = 0;
  curr_idx = 0;
  slabs_list = [];
  context = context;
  task = mem;
  brk = 1;
  freed = [];
}

-- A pool that got no task at its start is given back.
abbrev pub unless_empty : Pool → List ℕ → Option Pool
unless_empty q [] = none
unless_empty q (t ∷ ts) = some q

-- xio_tasks_pool_create, when there is memory for the pool itself
unfoldable pub create : Params → ℕ → (ℕ → Task) → Answers → Option Pool
create params context mem ans =
    let q = empty_pool params context mem in
    if params.start_nr == 0
    then some q
    else let q1 = (alloc_slab q context ans).1 in unless_empty q1 q1.stack

-- list_last_entry
abbrev pub last_entry : ℕ → List ℕ → ℕ
last_entry t [] = t
last_entry t (u ∷ r) = last_entry u r

-- What xio_tasks_pool_get does with the task it has chosen.
unfoldable pub hand_out : Pool → ℕ → ℕ → Pool
hand_out q t context =
    let used = u32 (q.curr_used + 1) in
    record q {
      stack = remove t q.stack;
      curr_used = used;
      max_used = if ltb q.max_used used then used else q.max_used;
      task = write q.task t (record (q.task t) { kref = 1; tlv_type = 0xbeef; context = context });
    }

unfoldable pub grow_and_get : Pool → ℕ → Answers → Pool × Option ℕ
grow_and_get q context ans =
    if q.curr_used == sub_wrap 32 q.params.max_nr 1
    then (q, none)
    else let q1 = (alloc_slab q context ans).1 in
      elim q1.stack [
        | [] ↦ (q1, none)
        | t ∷ ts ↦ (hand_out q1 (last_entry t ts) context, some (last_entry t ts))
      ]

-- xio_tasks_pool_get
unfoldable pub get : Pool → ℕ → Answers → Pool × Option ℕ
get q context ans = elim q.stack [
  | [] ↦ grow_and_get q context ans
  | t ∷ [] ↦ grow_and_get q context ans
  | t ∷ u ∷ r ↦ (hand_out q t context, some t)
]

-- xio_task_addref
unfoldable pub addref : Pool → ℕ → Pool
addref q t = record q {
  task = write q.task t (record (q.task t) { kref = u32 ((q.task t).kref + 1) });
}

-- xio_task_release, with xio_task_reset
unfoldable pub release : Pool → ℕ → Pool
release q t = record q {
  task = write q.task t (record (q.task t) { kref = 0; sender_task = none; tlv_type = 0xdead });
  curr_used = sub_wrap 32 q.curr_used 1;
  stack = t ∷ remove t q.stack;
}

-- xio_tasks_pool_put
unfoldable pub put : Pool → ℕ → Pool
put q t = if (q.task t).kref == 1 then release q t else record q {
  task = write q.task t (record (q.task t) { kref = sub_wrap 32 (q.task t).kref 1 });
}

-- xio_tasks_pool_remap, without the hooks, which are the transport's
unfoldable pub remap : Pool → ℕ → Pool
remap q new_context = record q { context = new_context }

-- xio_tasks_pool_free_tasks
abbrev pub free_tasks : Pool → ℕ
free_tasks q = sub_wrap 32 q.curr_alloced q.curr_used

-- The scan of xio_tasks_pool_lookup.
unfoldable pub slab_task : List Slab → ℕ → Option ℕ
slab_task [] id = none
slab_task (s ∷ ss) id =
    let rest = slab_task ss id in
    if leb s.start_idx id
    then if leb id s.end_idx then get_elem? s.array (id - s.start_idx) else rest
    else rest

-- xio_tasks_pool_lookup
unfoldable pub lookup : Pool → ℕ → Option ℕ
lookup q id = elim (slab_task q.slabs_list id) [
  | none ↦ none
  | some t ↦ if (q.task t).ltid == id then some t else none
]

-- xio_tasks_pool_dump_used: the tasks it names.
unfoldable pub in_use : (ℕ → Task) → List ℕ → List ℕ
in_use mem [] = []
in_use mem (t ∷ ts) =
    let rest = in_use mem ts in if (mem t).tlv_type == 0xdead then rest else t ∷ rest

unfoldable pub dump_used : (ℕ → Task) → List Slab → List ℕ
dump_used mem [] = []
dump_used mem (s ∷ ss) = in_use mem s.array ++ dump_used mem ss
