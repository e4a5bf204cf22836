-- ===== src/Connection/Send.antt =====
-- xio_connection_send: the test of the peer's credits, the header, and the hand-over to the nexus.
pub mod Moves
pub mod Failure
pub mod Gaps
use accelio.Prelude.{
  sub_wrap, u16, u64, ℕ, ◌+◌, Bool, true, false, ◌&&◌, ◌||◌, not, List, [], ◌∷◌, if◌then◌else◌, ltb,
  ◌==◌,
}
use accelio.Message.{MsgType, Msg, is_request, is_response, is_application_msg}
use accelio.Message.MsgType.{rdma, ack_req}
use accelio.Connection.State.{
  Conn, Answer, sent, again, no_task, message_error, nexus_error, Header, transmitted, emit,
}

-- What xio_connection_send returns: 0 or a negated error number.
pub data SendResult : Type 0 where
  ok eagain enomsg enomem peer_queue_size_mismatch failure : SendResult

abbrev pub is_ack_req : MsgType → Bool
is_ack_req ack_req = true
is_ack_req _ = false

abbrev pub is_rdma : MsgType → Bool
is_rdma rdma = true
is_rdma _ = false

-- The next answer of the outside, and the script after it.
abbrev pub next_answer : List Answer → Answer
next_answer [] = again
next_answer (a ∷ rest) = a

abbrev pub later_answers : List Answer → List Answer
later_answers [] = []
later_answers (a ∷ rest) = rest

-- Whether a header carries a serial number and credits.
abbrev pub carries_credits : MsgType → Bool
carries_credits t = not (is_rdma t) && (is_application_msg t || is_ack_req t)

-- A message that gives the peer's receive queue nothing to hold.
abbrev pub standalone_receipt : Msg → Bool
standalone_receipt m = is_response m.type && m.receipt_only

-- The bytes that are charged: only the flow control test computes them, and it does not look at
-- control messages.
abbrev pub charged_bytes : Conn → Msg → ℕ
charged_bytes c m = if is_application_msg m.type && c.enable_flow_control then m.tx_bytes else 0

abbrev pub empty_header : Msg → Header
empty_header m = record {
  serial_num = m.sn;
  sn = 0;
  ack_sn = 0;
  credits_msgs = 0;
  credits_bytes = 0;
}

-- The header of a message, before the credits.
abbrev pub numbered_header : Conn → Msg → Header
numbered_header c m =
    if carries_credits m.type
    then (if is_request m.type
        then record (empty_header m) { sn = c.req_sn; ack_sn = c.req_ack_sn }
        else record (empty_header m) { sn = c.rsp_sn; ack_sn = c.rsp_ack_sn })
    else empty_header m

abbrev pub header_of : Conn → Msg → Header
header_of c m =
    if carries_credits m.type && c.enable_flow_control
    then record (numbered_header c m) {
      credits_msgs = c.credits_msgs;
      credits_bytes = c.credits_bytes;
    }
    else numbered_header c m

-- The serial number is taken, our credits go into the header, and the peer's are charged.
abbrev pub number : Conn → Msg → Conn
number c m =
    if carries_credits m.type
    then (if is_request m.type
        then record c { req_sn = u16 (c.req_sn + 1) }
        else record c { rsp_sn = u16 (c.rsp_sn + 1) })
    else c

unfoldable pub charge : Conn → Msg → Conn
charge c m =
    let c1 = number c m in
    if carries_credits m.type && c.enable_flow_control
    then (if standalone_receipt m
        then record c1 { credits_msgs = 0; credits_bytes = 0 }
        else record c1 {
          credits_msgs = 0;
          credits_bytes = 0;
          peer_credits_msgs = sub_wrap 16 c1.peer_credits_msgs 1;
          peer_credits_bytes = sub_wrap 64 c1.peer_credits_bytes (charged_bytes c m);
        })
    else c1

-- The credits are taken back after a failure, the serial number is not. The test is not that of
-- `charge`: it does not leave RDMA messages out, whose header has no credits.
unfoldable pub restore : Conn → Msg → Header → Conn
restore c m hdr =
    if (is_application_msg m.type || is_ack_req m.type) && c.enable_flow_control
    then (if standalone_receipt m
        then record c { credits_msgs = hdr.credits_msgs; credits_bytes = hdr.credits_bytes }
        else record c {
          credits_msgs = hdr.credits_msgs;
          credits_bytes = hdr.credits_bytes;
          peer_credits_msgs = u16 (c.peer_credits_msgs + 1);
          peer_credits_bytes = u64 (c.peer_credits_bytes + charged_bytes c m);
        })
    else c

-- What follows an answer: `c0` is the connection as it was, `c1` the charged one. A response other
-- than a receipt uses the task of its request, so the pool is not asked and no task cannot be
-- missing.
unfoldable pub deliver : Answer → Msg → Header → Conn → Conn → SendResult × Conn
deliver sent m hdr c0 c1 = (ok, emit (transmitted m hdr) c1)
deliver again m hdr c0 c1 = (eagain, restore c1 m hdr)
deliver message_error m hdr c0 c1 = (enomsg, restore c1 m hdr)
deliver nexus_error m hdr c0 c1 = (failure, restore c1 m hdr)
deliver no_task m hdr c0 c1 =
    if is_response m.type && not m.receipt_only then (failure, restore c1 m hdr) else (enomem, c0)

-- From the choice of the task on.
unfoldable pub hand_over : Conn → Msg → SendResult × Conn
hand_over c m =
    let c0 = record c { nexus = later_answers c.nexus } in
    deliver (next_answer c.nexus) m (header_of c0 m) c0 (charge c0 m)

unfoldable pub send : Conn → Msg → SendResult × Conn
send c m =
    if is_application_msg m.type && c.enable_flow_control
    then (if c.peer_credits_msgs == 0
        then (eagain, c)
        else if ltb c.peer_rcv_queue_depth_bytes m.tx_bytes
        then (peer_queue_size_mismatch, c)
        else if ltb c.peer_credits_bytes m.tx_bytes
        then (eagain, c)
        else hand_over c m)
    else hand_over c m
