-- ===== src/Connection/Complete.antt =====
-- The end of a message that was sent: its completion, and what a reconnection does with those that
-- were in flight, of xio_connection.c and xio_session.c.
pub mod Restart
use accelio.Prelude.{
  sub_wrap, ℕ, Bool, true, false, ◌&&◌, ◌||◌, not, Option, none, some, List, [], ◌∷◌, if◌then◌else◌,
  ◌==◌,
}
use accelio.Message.{MsgType, Msg, is_request, is_response, is_application_msg}
use accelio.Connection.State.{
  Conn, session_disconnected, msg_flushed, send_complete, rdma_complete, reconnecting, reconnected,
  emit,
}
use accelio.Connection.Queues.{flush_msgs, notify_rsp_msgs_flush}
use accelio.Connection.Send.{is_rdma}
use accelio.Connection.Xmit.{xmit_outcome, conn_of, xmit_msgs}
use accelio.Connection.Submit.{returns_zero}

-- xio_msg_list_remove; a message is known by its serial number
unfoldable pub unlink_msg : List Msg → Msg → List Msg
unlink_msg [] m = []
unlink_msg (x ∷ xs) m = let rest = unlink_msg xs m in if x.sn == m.sn then xs else x ∷ rest

-- xio_connection_remove_in_flight
unfoldable pub remove_in_flight : Conn → Msg → Conn
remove_in_flight c m =
    if not (is_application_msg m.type)
    then c
    else if is_request m.type || is_rdma m.type
    then record c { in_flight_reqs_msgq = unlink_msg c.in_flight_reqs_msgq m }
    else if is_response m.type
    then record c { in_flight_rsps_msgq = unlink_msg c.in_flight_rsps_msgq m }
    else c

-- xio_connection_remove_msg_from_queue
unfoldable pub remove_msg_from_queue : Conn → Msg → Conn
remove_msg_from_queue c m =
    if not (is_application_msg m.type)
    then c
    else if is_request m.type || is_rdma m.type
    then record c { reqs_msgq = unlink_msg c.reqs_msgq m }
    else if is_response m.type
    then record c { rsps_msgq = unlink_msg c.rsps_msgq m }
    else c

-- xio_on_ow_req_send_comp: `receipt` is whether the flags ask for a receipt, which then completes
-- the message instead
unfoldable pub on_ow_req_send_comp : Option Msg → Bool → Conn → Conn
on_ow_req_send_comp none receipt c = c
on_ow_req_send_comp (some m) receipt c =
    let c1 = remove_in_flight c m in
    let c2 =
      if c.enable_flow_control
      then record c1 {
        tx_queued_msgs = sub_wrap 32 c1.tx_queued_msgs 1;
        tx_bytes = sub_wrap 64 c1.tx_bytes m.tx_bytes;
      }
      else c1 in
    if c.is_flushed || receipt then c else emit (send_complete m) c2

-- xio_on_rdma_direct_comp
unfoldable pub on_rdma_direct_comp : Option Msg → Conn → Conn
on_rdma_direct_comp none c = if c.is_flushed then xmit_msgs c else c
on_rdma_direct_comp (some m) c =
    let c1 = remove_in_flight c m in
    let c2 = record c1 { tx_queued_msgs = sub_wrap 32 c1.tx_queued_msgs 1 } in
    if c.is_flushed then xmit_msgs c else xmit_msgs (emit (rdma_complete m) c2)

-- xio_connection_reconnect
abbrev pub reconnect : Conn → Conn
reconnect c = emit reconnecting (record c { close_reason = session_disconnected })

-- xio_connection_restart: `rkeys` and `tasks` are whether xio_connection_update_rkeys and
-- xio_connection_restart_tasks succeed; `true` is 0
unfoldable pub restart : Bool → Bool → Conn → Bool × Conn
restart rkeys tasks c =
    let c1 = flush_msgs c in
    let c2 =
      emit reconnected (notify_rsp_msgs_flush msg_flushed (record c1 { restarted = true })) in
    let o = xmit_outcome c2 in
    if rkeys && tasks then (returns_zero o, conn_of c2 o) else (false, c1)
