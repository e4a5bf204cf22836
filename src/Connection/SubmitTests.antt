-- ===== src/Connection/SubmitTests.antt =====
-- Runs of submissions and completions at fixed inputs.
use accelio.Prelude.{
  ◌+◌, ◌≤◌, true, false, ◌≡◌, refl, List, [], ◌∷◌, arith, u32, ◌++◌, length, u64, if◌then◌else◌,
}
use accelio.Message.{Msg}
use accelio.Message.MsgType.{one_way_req}
use accelio.Connection.State.{Conn, sent}
use accelio.Connection.Submit.{enqueue, stage}
use accelio.Connection.Submit.Accounts.{Stopped, Fitting, bytes, numbered, enqueue_accounts}
use accelio.Connection.Submit.Leak.{enqueue_bounded, refused_chain_leaks}
use accelio.Connection.Tests.{opened, request}

-- Flow control, with a send queue of 150 bytes; a `request` has 100.
abbrev small : Conn
small = record (opened (sent ∷ [])) { enable_flow_control = true; snd_queue_depth_bytes = 150 }

enqueue_accounts_example :
    let (complete, c') = enqueue one_way_req (request 0 ∷ request 0 ∷ []) small in
    (taken : List Msg) × (refused : List Msg) × (request 0 ∷ request 0 ∷ [] ≡ taken ++ refused)
    × Fitting small taken
    × Stopped (stage one_way_req (request 0 ∷ request 0 ∷ []) [] small).conn refused complete
    × (c'.tx_queued_msgs ≡ u32 (0 + length taken))
    × (c'.tx_bytes ≡ u64 (0 + bytes taken))
    × (c'.trans_sn ≡ u64 (0 + length taken))
    × (c'.reqs_msgq ≡ (if complete then [] ++ numbered one_way_req 0 taken else []))
enqueue_accounts_example =
    enqueue_accounts one_way_req (request 0 ∷ request 0 ∷ []) small refl
      (omega arith, omega arith, omega arith)

enqueue_bounded_example :
    let c' = (enqueue one_way_req (request 0 ∷ request 0 ∷ []) small).1 in
    (c'.tx_queued_msgs ≤ 1025) × (c'.tx_bytes ≤ 150)
enqueue_bounded_example =
    enqueue_bounded one_way_req (request 0 ∷ request 0 ∷ []) small (omega arith)
      (omega arith, (omega arith, tt)) (omega arith, omega arith)

refused_chain_leaks_example :
    let (r, c') = enqueue one_way_req (request 0 ∷ request 0 ∷ []) small in
    (r ≡ false)
    × (c'.reqs_msgq ≡ [])
    × (c'.in_flight_reqs_msgq ≡ [])
    × (c'.tx_queued_msgs ≡ 1)
    × (c'.tx_bytes ≡ 100)
    × ((enqueue one_way_req (request 0 ∷ []) small).0 ≡ true)
    × ((enqueue one_way_req (request 0 ∷ []) c').0 ≡ false)
refused_chain_leaks_example =
    refused_chain_leaks one_way_req (request 0) (request 0) small refl refl refl (omega arith)
      (omega arith) (omega arith) (omega arith)

-- Two requests in flight, both counted.
abbrev flying : Conn
flying = record small { tx_queued_msgs = 2; in_flight_reqs_msgq = request 1 ∷ request 2 ∷ [] }

-- Two requests wait; the first is larger than the peer's queue.
abbrev oversized : Conn
oversized = record small {
  peer_credits_msgs = 4;
  peer_rcv_queue_depth_bytes = 50;
  tx_queued_msgs = 2;
  tx_bytes = 200;
  reqs_msgq = request 1 ∷ request 2 ∷ [];
}
