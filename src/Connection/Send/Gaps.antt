-- ===== src/Connection/Send/Gaps.antt =====
-- Three ways in which credits and serial numbers get out of step.
use accelio.Prelude.{u16, ◌+◌, ◌<◌, ◌^◌, true, false, ◌≡◌, List, ◌∷◌, arith, ◌==◌, ltb}
use accelio.Message.{Msg}
use accelio.Message.MsgType.{rdma, ack_req, one_way_req}
use accelio.Connection.State.{Conn, Answer, sent, again}
use accelio.Connection.Send.{ok, eagain, send, hand_over, deliver, charge, restore, header_of}
use accelio.Connection.Receive.{req_window}

-- What the flow control test lets pass.
abbrev pub Passes : Conn → Msg → Type 0
Passes c m =
    ((c.peer_credits_msgs == 0) ≡ false)
    × (ltb c.peer_rcv_queue_depth_bytes m.tx_bytes ≡ false)
    × (ltb c.peer_credits_bytes m.tx_bytes ≡ false)

-- An RDMA message that passes the flow control test, and that the nexus does not take for now,
-- drops our credits for the peer, and takes one credit from the peer that was never charged.
pub rdma_refused :
    (c : Conn) (m : Msg) (rest : List Answer)
    → m.type ≡ rdma
    → c.enable_flow_control ≡ true
    → Passes c m
    → c.nexus ≡ again ∷ rest
    → let (r, c') = send c m in
      (r ≡ eagain)
      × (c'.credits_msgs ≡ 0)
      × (c'.credits_bytes ≡ 0)
      × (c'.peer_credits_msgs ≡ u16 (c.peer_credits_msgs + 1))
unfolding send hand_over deliver charge restore
rdma_refused c m rest t f p n = ground arith

-- A one-way request that passes the flow control test, and that the nexus does not take for now, has
-- used up its serial number: when it is sent again, a peer that was in step (and is not
-- restarting) leaves its window as it is and ignores the credits of the header.
pub refused_request_desyncs :
    (c y : Conn) (m : Msg) (rest : List Answer)
    → m.type ≡ one_way_req
    → c.enable_flow_control ≡ true
    → Passes c m
    → c.nexus ≡ again ∷ rest
    → c.req_sn < 2 ^ 16
    → y.req_exp_sn ≡ c.req_sn
    → y.restarted ≡ false
    → let (r, c') = send c m in (r ≡ eagain) × (req_window (header_of c' m) y ≡ y)
unfolding send hand_over deliver charge restore req_window
refused_request_desyncs c y m rest t f p n b e s = ground arith

-- A credits ack is not tested: where the peer has no place left, it is sent, and the count of the
-- places wraps to 65535.
pub ack_without_place :
    (c : Conn) (m : Msg) (rest : List Answer)
    → m.type ≡ ack_req
    → c.enable_flow_control ≡ true
    → c.peer_credits_msgs ≡ 0
    → c.nexus ≡ sent ∷ rest
    → let (r, c') = send c m in (r ≡ ok) × (c'.peer_credits_msgs ≡ 65535)
unfolding send hand_over deliver charge
ack_without_place c m rest t f p n = ground arith
