-- ===== src/Connection/Submit.antt =====
-- What the application sends: xio_send_request, xio_send_msg and xio_send_rdma, which differ in the
-- type they give a message, of xio_connection.c.
pub mod Accounts
pub mod Leak
use accelio.Prelude.{
  u32, u64, ℕ, ◌+◌, ◌^◌, Bool, true, false, ◌&&◌, ◌||◌, not, List, [], ◌∷◌, ◌++◌, if◌then◌else◌,
  ltb,
}
use accelio.Message.{MsgType, Msg}
use accelio.Message.MsgType.{req, one_way_req, rdma}
use accelio.Connection.State.{State, Conn, init, established, online, is_connection_online}
use accelio.Connection.Xmit.{Outcome, finished, out_of_fuel, xmit_outcome, conn_of}

abbrev pub may_send : State → Bool
may_send online = true
may_send established = true
may_send init = true
may_send _ = false

-- The two tests of the send queue's limits. `tx_queued_msgs` is signed: a negative one passes.
unfoldable pub overflows : Conn → Msg → Bool
overflows c m =
    (ltb c.tx_queued_msgs (2 ^ 31) && ltb c.snd_queue_depth_msgs c.tx_queued_msgs)
    || ltb c.snd_queue_depth_bytes (u64 (c.tx_bytes + m.tx_bytes))

-- The type and the serial number (xio_session_get_sn) that a message gets.
abbrev pub typed : MsgType → Conn → Msg → Msg
typed t c m = record m { type = t; sn = c.trans_sn }

unfoldable pub account : Conn → Msg → Conn
account c m =
    let c1 = record c { trans_sn = u64 (c.trans_sn + 1) } in
    if c.enable_flow_control
    then record c1 {
      tx_queued_msgs = u32 (c.tx_queued_msgs + 1);
      tx_bytes = u64 (c.tx_bytes + m.tx_bytes);
    }
    else c1

-- What the loop over a chain of messages leaves: whether it came to the end, and the local queue.
pub record Staged : Type 0 where
  pub complete : Bool
  pub queue : List Msg
  pub conn : Conn

unfoldable pub stage : MsgType → List Msg → List Msg → Conn → Staged
stage t [] queue c = record { complete = true; queue = queue; conn = c }
stage t (m ∷ ms) queue c =
    let rest = stage t ms (queue ++ typed t c m ∷ []) (account c m) in
    if overflows c m then record { complete = false; queue = queue; conn = c } else rest

-- The local queue is joined to reqs_msgq only after a loop that came to the end. A message without
-- a next one goes there at once, after which its loop has ended.
unfoldable pub enqueue : MsgType → List Msg → Conn → Bool × Conn
enqueue t ms c =
    let s = stage t ms [] c in
    let c1 = s.conn in
    (s.complete, if s.complete then record c1 { reqs_msgq = c1.reqs_msgq ++ s.queue } else c1)

abbrev pub returns_zero : Outcome → Bool
returns_zero (finished r c) = r
returns_zero out_of_fuel = false

-- From `send:` on.
unfoldable pub then_xmit : Bool → Conn → Bool × Conn
then_xmit complete c =
    let o = xmit_outcome c in
    if is_connection_online c then (complete && returns_zero o, conn_of c o) else (complete, c)

-- xio_send_typed_msg and xio_send_request, of a message `m` and its chain; `true` is 0.
unfoldable pub send_typed_msg : MsgType → Msg → List Msg → Conn → Bool × Conn
send_typed_msg t m chain c =
    let (complete, c1) = enqueue t (m ∷ chain) c in
    let sent = then_xmit complete c1 in
    if c.disconnecting || not (may_send c.state) then (false, c) else sent

abbrev pub send_request : Msg → List Msg → Conn → Bool × Conn
send_request m chain c = send_typed_msg req m chain c

abbrev pub send_msg : Msg → List Msg → Conn → Bool × Conn
send_msg m chain c = send_typed_msg one_way_req m chain c

-- xio_send_rdma: `proto_rdma` is whether the transport is RDMA
abbrev pub send_rdma : Bool → Msg → List Msg → Conn → Bool × Conn
send_rdma proto_rdma m chain c = if proto_rdma then send_typed_msg rdma m chain c else (false, c)
