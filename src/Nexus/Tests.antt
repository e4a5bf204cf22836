-- ===== src/Nexus/Tests.antt =====
-- A nexus at work.
use accelio.Prelude.{ℕ, ◌+◌, ◌≡◌, ◌<◌, refl, true, false, none, some, [], ◌∷◌, arith, replicate}
use accelio.Prelude.Counts.{times}
use accelio.Observer.{observable_create, find_node}
use accelio.Pools.Tasks.{
  Task, Params, Pool, Answers as PoolAnswers, empty_pool, create, get, hand_out, alloc_slab,
  make_slab, link_slab, alloc_nr, fill_slab,
}
use accelio.Pools.Tasks.History.{create-run-Ledger, start, then_, gets}
use accelio.Pools.Tasks.Ledger.{Ledger}
use accelio.Table.{lookup_from_list, insert}
use accelio.Table.Hash.{int32_hash}
use accelio.Caches.Nexus.{
  nexus_cache_construct, nexus_cache_add, nexus_cache_lookup, NexusCache, add_numbered,
}
use accelio.Caches.Nexus as CacheNexus
use accelio.Mbuf.{Mbuf, done, init}
use accelio.Nexus.{Nexus, State, Event, Answers}
use accelio.Nexus.Observers.{Observers, nexus_reg_observer, observer_lookup}
use accelio.Nexus.Observers.Agree.{Agree, reg-Agree}
use accelio.Nexus.Queue.{flush_tx_queue, can_send, taken, again, send}
use accelio.Nexus.Queue.Flush.{flush-Ledger, Handed, send_order}
use accelio.Nexus.Reconnect.{on_transport_disconnected, server_timeout_msecs}
use accelio.Nexus.Reconnect.Backoff.{run_timers, GivenUp, client-GivenUp}
use accelio.Nexus.Reconnect.Outcome.{lost-Outcome}
use accelio.Nexus.Reconnect.Outcome as Lost
use accelio.Nexus.Setup.{SetupReq, SetupRsp, write_setup_req, read_setup_req, on_recv_setup_rsp}
use accelio.Nexus.Setup.RoundTrip.{Room, read-write_nexus_req}
use accelio.Nexus.Setup.Response.{setup_rsp-Outcome}
use accelio.Nexus.Setup.Response as Response
use accelio.Nexus.Reconnect.Outcome.{awaits}
use accelio.Nexus.Life.Shared.{Shared, open_new, open_fails}

-- Two tasks wait; each has one reference.
abbrev waiting_task : ℕ → Task
waiting_task x = record {
  ltid = 0;
  kref = 1;
  tlv_type = 0xbeef;
  context = 7;
  slab = 0;
  sender_task = none;
}

abbrev nexus : Nexus
nexus = record {
  state = State.connected;
  is_client = true;
  has_dup2 = true;
  kref = 1;
  is_first_req = true;
  is_listener = false;
  srq_enabled = false;
  reconnect_retries = 0;
  cid = 3;
  server_cid = 9;
  transport_hndl = 11;
  new_transport_hndl = 0;
  close_time = none;
  destroy_queued = false;
  pool = empty_pool (record { start_nr = 2; max_nr = 5; alloc_nr = 2 }) 7 waiting_task;
  tx_queue = [];
  events = [];
  transport_closed = [];
}

abbrev no_luck : Answers
no_luck = record {
  handle = 0;
  connects = false;
  dup2 = true;
  recreated = true;
  timer = true;
  observed = true;
}

client-GivenUp_example :
    let (waited, m) =
      run_timers
        (no_luck ∷ no_luck ∷ no_luck ∷ [])
        (on_transport_disconnected true nexus no_luck) in
    GivenUp m (Event.reconnecting ∷ []) × (waited + 1000 ≡ server_timeout_msecs)
client-GivenUp_example =
    client-GivenUp nexus no_luck no_luck no_luck no_luck refl refl refl (refl, refl) (refl, refl)
      (refl, refl) (refl, refl)

lost-Outcome_example : Lost.Outcome true nexus true (on_transport_disconnected true nexus no_luck)
lost-Outcome_example = lost-Outcome true nexus no_luck

abbrev observers : Observers
observers = record { observable = observable_create 5; observers_htbl = [] }

no_observers : Agree observers
unfolding observable_create find_node
no_observers = record { valid = record { distinct = tt; cached_in = tt }; once = λ x. refl }

reg-Agree_example :
    let m = nexus_reg_observer observers 40 6 8 true in
    Agree m × (observer_lookup m.observers_htbl 6 ≡ 40)
unfolding observable_create observer_lookup find_node
reg-Agree_example =
    reg-Agree observers 40 6 8 6 no_observers refl (omega arith) (omega arith) (omega arith) refl
      (λ x h. absurd (omega arith))

send_order_example :
    let r = send can_send (taken ∷ again ∷ []) (record nexus { tx_queue = 4 ∷ [] }) 6 in
    Handed can_send (taken ∷ again ∷ []) (record nexus { tx_queue = 4 ∷ [] }) 6 r.0 r.1 r.2
send_order_example = send_order can_send (taken ∷ again ∷ []) (record nexus { tx_queue = 4 ∷ [] }) 6

abbrev params : Params
params = record { start_nr = 2; max_nr = 5; alloc_nr = 2 }

abbrev good : PoolAnswers
good = record { buffer = true; slab_pre_create = 0; slab_init_task = λ i. 0; slab_post_create = 0 }

abbrev pool : Pool
pool = (alloc_slab (empty_pool params 7 waiting_task) 7 good).1

abbrev one_lent : Pool
one_lent = (get pool 7 good).0

one_lent-Ledger : Ledger one_lent (1 ∷ [])
unfolding create get hand_out alloc_slab make_slab link_slab alloc_nr fill_slab
one_lent-Ledger =
    create-run-Ledger params 7 waiting_task good pool one_lent (1 ∷ [])
      (record { start = omega arith; max = omega arith; alloc = omega arith }) refl refl
      (then_ start (gets 7 good 1 refl refl))

abbrev queued : Nexus
queued = record nexus { pool = one_lent; tx_queue = 1 ∷ [] }

flush-Ledger_example : let m = flush_tx_queue queued in (m.tx_queue ≡ []) × Ledger m.pool []
unfolding get hand_out alloc_slab make_slab link_slab alloc_nr fill_slab
flush-Ledger_example =
    flush-Ledger queued [] one_lent-Ledger
      (record { kref = λ x h. ground (arith, h); alone = λ x h. ground (arith, h) })

abbrev mbuf : Mbuf
mbuf = init (replicate 64 0) 4096 4096 64 0

mbuf-Room : (n : ℕ) → 0 < n → n < 40 → Room mbuf n
unfolding init
mbuf-Room n h k = record {
  base_le = omega arith;
  fits = omega arith;
  tail_le = omega arith;
  low = omega arith;
  some_room = h;
}

abbrev req : SetupReq
req = record { version = 256; flags = 1; cid = 70000 }

read-write_nexus_req_example :
    let r = write_setup_req mbuf req in (r.0 ≡ done) × ((read_setup_req r.1).0 ≡ some req)
read-write_nexus_req_example =
    read-write_nexus_req mbuf req (mbuf-Room 8 (omega arith) (omega arith)) (omega arith)
      (omega arith) (omega arith)

abbrev rsp : SetupRsp
rsp = record { cid = 5; status = 0; version = 256; flags = 0 }

setup_rsp-Outcome_example :
    let r = on_recv_setup_rsp nexus 1 rsp true no_luck in Response.Outcome nexus r.1 rsp r.0
setup_rsp-Outcome_example = setup_rsp-Outcome nexus 1 rsp true no_luck

abbrev known : CacheNexus.Nexus
known = record {
  portal_uri = some 80;
  ctx = 4096;
  attr_tos = true;
  tos = 3;
  refcount = 1;
  close_pending = false;
}

abbrev shared : Shared
shared = record {
  cache = (nexus_cache_add nexus_cache_construct known).1;
  ctx_observers = [];
  freed = [];
}

open_fails_example :
    let r = open_new shared 8192 0 true known in
    (r.0 ≡ none)
    × (0 < times 8192 r.1.freed)
    × (0 < times 8192 r.1.ctx_observers)
    × (nexus_cache_lookup r.1.cache 0 ≡ none)
unfolding nexus_cache_add add_numbered lookup_from_list int32_hash insert
open_fails_example = open_fails shared 8192 true known known 0 (omega arith) (refl, tt) refl
