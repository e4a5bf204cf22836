-- ===== src/Connection/Xmit.antt =====
-- xio_connection_xmit_inl and xio_connection_xmit: requests and responses take turns until both
-- queues are empty or blocked.
pub mod Termination
pub mod Rounds
pub mod Mismatch
use accelio.Prelude.{
  ℕ, zero, suc, ◌+◌, Bool, true, false, not, List, [], ◌∷◌, ◌++◌, if◌then◌else◌, ltb, length,
}
use accelio.Message.{MsgType, Msg, is_application_msg}
use accelio.Connection.State.{Conn, Reason, peer_queue_size_mismatch, is_online}
use accelio.Connection.Queues.{notify_req_msgs_flush, notify_rsp_msgs_flush}
use accelio.Connection.Send.{SendResult, ok, eagain, enomsg, enomem, failure, send}

-- Which of the two queues, with its queue of messages in flight and its flush function.
pub data Side : Type 0 where
  requests responses : Side

abbrev pub msgq : Side → Conn → List Msg
msgq requests c = c.reqs_msgq
msgq responses c = c.rsps_msgq

-- The first message is unlinked.
abbrev pub tail : List Msg → List Msg
tail [] = []
tail (m ∷ ms) = ms

abbrev pub remove_first : Side → Conn → Conn
remove_first requests c = record c { reqs_msgq = tail c.reqs_msgq }
remove_first responses c = record c { rsps_msgq = tail c.rsps_msgq }

abbrev pub insert_in_flight : Side → Msg → Conn → Conn
insert_in_flight requests m c = record c { in_flight_reqs_msgq = c.in_flight_reqs_msgq ++ (m ∷ []) }
insert_in_flight responses m c = record c {
  in_flight_rsps_msgq = c.in_flight_rsps_msgq ++ (m ∷ []);
}

abbrev pub flush_msgq : Side → Conn → Conn
flush_msgq requests c = notify_req_msgs_flush peer_queue_size_mismatch c
flush_msgq responses c = notify_rsp_msgs_flush peer_queue_size_mismatch c

-- The return value of xmit_inl: 0, 1 or -1.
pub data Progress : Type 0 where
  progress blocked broken : Progress

pub record Turn : Type 0 where
  pub result : Progress
  pub retry_cnt : ℕ
  pub conn : Conn

-- What follows the call of xio_connection_send for the first message.
unfoldable pub after_send : Side → Msg → SendResult → ℕ → Conn → Turn
after_send side m ok retry c =
    let c1 = remove_first side c in
    let c2 = if is_application_msg m.type then insert_in_flight side m c1 else c1 in
    record { result = progress; retry_cnt = 0; conn = c2 }
after_send side m eagain retry c = record { result = blocked; retry_cnt = retry + 1; conn = c }
after_send side m enomsg retry c = record { result = progress; retry_cnt = 0; conn = c }
after_send side m SendResult.peer_queue_size_mismatch retry c = record {
  result = blocked;
  retry_cnt = retry + 1;
  conn = flush_msgq side c;
}
after_send side m enomem retry c = record {
  result = broken;
  retry_cnt = retry;
  conn = remove_first side c;
}
after_send side m failure retry c = record {
  result = broken;
  retry_cnt = retry;
  conn = remove_first side c;
}

unfoldable pub xmit_first : Side → ℕ → Conn → List Msg → Turn
xmit_first side retry c [] = record { result = progress; retry_cnt = retry + 1; conn = c }
xmit_first side retry c (m ∷ ms) = let (r, c') = send c m in after_send side m r retry c'

-- xio_connection_xmit_inl. The allocation of tasks ahead of need is left out.
unfoldable pub xmit_inl : Side → ℕ → Conn → Turn
xmit_inl side retry c = xmit_first side retry c (msgq side c)

abbrev pub is_broken : Progress → Bool
is_broken broken = true
is_broken _ = false

-- The state after the loop, and whether xio_connection_xmit returns 0.
pub data Outcome : Type 0 where
  finished : Bool → Conn → Outcome
  out_of_fuel : Outcome

-- `while (retry_cnt < 2)`, one turn of each side in a round.
unfoldable pub xmit_loop : ℕ → Side → Side → ℕ → Conn → Outcome
xmit_loop zero first second retry c = out_of_fuel
xmit_loop (suc fuel) first second retry c =
    let t1 = xmit_inl first retry c in
    let t2 = xmit_inl second t1.retry_cnt t1.conn in
    let rest = xmit_loop fuel first second t2.retry_cnt t2.conn in
    if not (ltb retry 2)
    then finished true c
    else if is_broken t1.result
    then (let c1 = t1.conn in
        finished false (record c1 { send_req_toggle = not c1.send_req_toggle }))
    else if is_broken t2.result
    then finished false t2.conn
    else rest

abbrev pub first_side : Conn → Side
first_side c = if c.send_req_toggle then responses else requests

abbrev pub second_side : Conn → Side
second_side c = if c.send_req_toggle then requests else responses

-- xio_connection_xmit, with enough fuel for all answers of the outside (`Termination`).
unfoldable pub xmit_outcome : Conn → Outcome
xmit_outcome c = xmit_loop (length c.nexus + 2) (first_side c) (second_side c) 0 c

abbrev pub conn_of : Conn → Outcome → Conn
conn_of c (finished r c') = c'
conn_of c out_of_fuel = c

unfoldable pub xmit : Conn → Conn
xmit c = conn_of c (xmit_outcome c)

-- xio_connection_xmit_msgs
unfoldable pub xmit_msgs : Conn → Conn
xmit_msgs c = if is_online c.state then xmit c else c
