-- ===== src/Connection/Receive.antt =====
-- The credits of the receive queue: what a header that arrives brings, and what the application
-- gives back when it releases a message. src/common/xio_session.c and xio_connection.c.
pub mod Channel
pub mod Window
pub mod Link
use accelio.Prelude.{
  sub_wrap, u16, u64, ℕ, ◌+◌, Bool, true, false, ◌&&◌, ◌||◌, not, List, [], ◌∷◌, ◌++◌,
  if◌then◌else◌, leb, ◌==◌,
}
use accelio.Message.{MsgType, Msg}
use accelio.Message.MsgType.{ack_req}
use accelio.Connection.State.{Conn, Header, is_online, is_connection_online}
use accelio.Connection.Xmit.{xmit}

-- The credits of a header are added to those that the peer gave.
abbrev add_peer_credits : Header → Conn → Conn
add_peer_credits hdr c =
    if c.enable_flow_control
    then record c {
      peer_credits_msgs = u16 (c.peer_credits_msgs + hdr.credits_msgs);
      peer_credits_bytes = u64 (c.peer_credits_bytes + hdr.credits_bytes);
    }
    else c

-- The window in xio_on_req_recv
unfoldable pub req_window : Header → Conn → Conn
req_window hdr c =
    if c.req_exp_sn == hdr.sn
    then record (add_peer_credits hdr c) {
      req_exp_sn = u16 (c.req_exp_sn + 1);
      req_ack_sn = hdr.sn;
      restarted = false;
    }
    else if c.restarted
    then record c { req_exp_sn = u16 (hdr.sn + 1); restarted = false }
    else c

-- The window in xio_on_rsp_recv
unfoldable pub rsp_window : Header → Conn → Conn
rsp_window hdr c =
    if c.rsp_exp_sn == hdr.sn
    then record (add_peer_credits hdr c) {
      rsp_exp_sn = u16 (c.rsp_exp_sn + 1);
      rsp_ack_sn = hdr.sn;
      restarted = false;
    }
    else if c.restarted
    then record c { rsp_exp_sn = u16 (hdr.sn + 1); restarted = false }
    else c

-- xio_on_credits_ack_recv: the message itself goes back to the receive queue at once.
unfoldable pub on_credits_ack_recv : Header → Conn → Conn
on_credits_ack_recv hdr c =
    let c1 =
      if c.req_exp_sn == hdr.sn
      then record c {
        req_exp_sn = u16 (c.req_exp_sn + 1);
        req_ack_sn = hdr.sn;
        peer_credits_msgs = u16 (c.peer_credits_msgs + hdr.credits_msgs);
        peer_credits_bytes = u64 (c.peer_credits_bytes + hdr.credits_bytes);
      }
      else c in
    if c.enable_flow_control then record c1 { credits_msgs = u16 (c.credits_msgs + 1) } else c

-- xio_send_credits_ack
unfoldable pub send_credits_ack : Conn → Conn
send_credits_ack c = xmit (record c {
  reqs_msgq =
      c.reqs_msgq ++ (record { type = ack_req; sn = 0; tx_bytes = 0; receipt_only = false } ∷ []);
})

-- The credits of one message that is released, of `bytes` incoming bytes.
abbrev pub add_credits : ℕ → Conn → Conn
add_credits bytes c = record c {
  credits_msgs = u16 (c.credits_msgs + 1);
  credits_bytes = u64 (c.credits_bytes + bytes);
}

abbrev pub over_watermark : Conn → Bool
over_watermark c =
    is_online c.state
    && (leb c.rx_queue_watermark_msgs c.credits_msgs
        || leb c.rx_queue_watermark_bytes c.credits_bytes)

unfoldable pub release_credits : ℕ → Conn → Conn
release_credits bytes c =
    let c1 = add_credits bytes c in
    let acked = send_credits_ack c1 in
    if c.enable_flow_control then (if over_watermark c1 then acked else c1) else c

-- What xio_release_msg reads of a message that it is given: whether message and task are one-way
-- requests, and the incoming bytes.
pub record Released : Type 0 where
  pub is_one_way_req : Bool
  pub bytes : ℕ

-- The loop of xio_release_msg. It stops at the first message of another type, with what it has done
-- by then, and only a full walk ends with a transmission.
unfoldable pub release_msgs : List Released → Conn → Bool × Conn
release_msgs [] c = (true, if is_connection_online c then xmit c else c)
release_msgs (m ∷ ms) c =
    let rest = release_msgs ms (release_credits m.bytes c) in
    if m.is_one_way_req then rest else (false, c)

-- xio_release_msg; without a message there is no connection.
unfoldable pub release_msg : List Released → Conn → Bool × Conn
release_msg [] c = (true, c)
release_msg (m ∷ ms) c = release_msgs (m ∷ ms) c

-- What xio_release_response reads: whether message and task are a response with its request, the
-- bytes of the request that was sent, and those of the response.
pub record Answered : Type 0 where
  pub is_answered : Bool
  pub sent_bytes : ℕ
  pub received_bytes : ℕ

abbrev pub uncount_sent : ℕ → Conn → Conn
uncount_sent bytes c =
    if c.enable_flow_control
    then record c {
      tx_queued_msgs = sub_wrap 32 c.tx_queued_msgs 1;
      tx_bytes = sub_wrap 64 c.tx_bytes bytes;
    }
    else c

-- The loop of xio_release_response.
unfoldable pub release_answered : List Answered → Conn → Bool × Conn
release_answered [] c = (true, if is_connection_online c then xmit c else c)
release_answered (m ∷ ms) c =
    let rest =
      release_answered ms (release_credits m.received_bytes (uncount_sent m.sent_bytes c)) in
    if m.is_answered then rest else (false, c)

-- xio_release_response; without a message there is no connection.
unfoldable pub release_response : List Answered → Conn → Bool × Conn
release_response [] c = (true, c)
release_response (m ∷ ms) c = release_answered (m ∷ ms) c
