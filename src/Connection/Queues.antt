-- ===== src/Connection/Queues.antt =====
-- The queues of messages: what is flushed from in flight back to its queue, and what is given back
-- to the application. A loop over a queue that unlinks each message recurs on the queue.
pub mod Flush
use accelio.Prelude.{
  sub_wrap, ℕ, ◌-◌, Bool, true, false, ◌&&◌, ◌||◌, not, List, [], ◌∷◌, ◌++◌, if◌then◌else◌,
}
use accelio.Message.{MsgType, Msg, is_response, is_application_msg}
use accelio.Message.MsgType.{req, one_way_req, one_way_rsp, fin_req}
use accelio.Connection.State.{Conn, Reason, msg_flushed, msg_error, emit, is_disconnected, kref_put}

-- The messages that the send queue's limits count.
abbrev pub is_counted : MsgType → Bool
is_counted req = true
is_counted one_way_req = true
is_counted _ = false

abbrev pub is_one_way_rsp : MsgType → Bool
is_one_way_rsp one_way_rsp = true
is_one_way_rsp _ = false

abbrev pub is_fin_req : MsgType → Bool
is_fin_req fin_req = true
is_fin_req _ = false

unfoldable pub uncount : Conn → Msg → Conn
uncount c m =
    if c.enable_flow_control && is_counted m.type
    then record c {
      tx_queued_msgs = sub_wrap 32 c.tx_queued_msgs 1;
      tx_bytes = sub_wrap 64 c.tx_bytes m.tx_bytes;
    }
    else c

-- The loop over in_flight_reqs_msgq. `moved` are the messages that stand before the first one that
-- was queued, `queued`; a message goes right before that one, or to the tail if there was none.
unfoldable pub flush_reqs : List Msg → List Msg → List Msg → Conn → Conn
unfolding uncount
flush_reqs [] moved queued c = record c { in_flight_reqs_msgq = []; reqs_msgq = moved ++ queued }
flush_reqs (m ∷ ms) moved queued c = flush_reqs ms (moved ++ (m ∷ [])) queued (uncount c m)

unfoldable pub flush_rsps : List Msg → List Msg → List Msg → Conn → Conn
flush_rsps [] moved queued c = record c { in_flight_rsps_msgq = []; rsps_msgq = moved ++ queued }
flush_rsps (m ∷ ms) moved queued c = flush_rsps ms (moved ++ (m ∷ [])) queued c

-- xio_connection_flush_msgs
unfoldable pub flush_msgs : Conn → Conn
flush_msgs c =
    let c1 = flush_reqs c.in_flight_reqs_msgq [] c.reqs_msgq c in
    flush_rsps c1.in_flight_rsps_msgq [] c1.rsps_msgq c1

-- A request that is given back. A FIN that was not sent undoes the two references that
-- xio_send_fin_req took.
unfoldable pub give_back_req : Reason → Msg → Conn → Conn
give_back_req status m c =
    if is_application_msg m.type
    then emit (msg_error m status) c
    else if is_fin_req m.type && not (is_disconnected c.state)
    then kref_put (kref_put (record c { fin_request_flushed = true }))
    else c

unfoldable pub req_msgs_flush : Reason → List Msg → Conn → Conn
unfolding give_back_req
req_msgs_flush status [] c = record c { reqs_msgq = [] }
req_msgs_flush status (m ∷ ms) c = req_msgs_flush status ms (give_back_req status m c)

-- xio_connection_notify_req_msgs_flush
unfoldable pub notify_req_msgs_flush : Reason → Conn → Conn
notify_req_msgs_flush status c = req_msgs_flush status c.reqs_msgq c

unfoldable pub give_back_rsp : Reason → Msg → Conn → Conn
give_back_rsp status m c =
    if is_one_way_rsp m.type
      || (is_response m.type && m.receipt_only)
      || not (is_application_msg m.type)
    then c
    else emit (msg_error m status) c

unfoldable pub rsp_msgs_flush : Reason → List Msg → Conn → Conn
unfolding give_back_rsp
rsp_msgs_flush status [] c = record c { rsps_msgq = [] }
rsp_msgs_flush status (m ∷ ms) c = rsp_msgs_flush status ms (give_back_rsp status m c)

-- xio_connection_notify_rsp_msgs_flush
unfoldable pub notify_rsp_msgs_flush : Reason → Conn → Conn
notify_rsp_msgs_flush status c = rsp_msgs_flush status c.rsps_msgq c

-- xio_connection_notify_msgs_flush
unfoldable pub notify_msgs_flush : Conn → Conn
notify_msgs_flush c =
    let c1 = notify_req_msgs_flush msg_flushed c in
    let c2 = notify_rsp_msgs_flush msg_flushed c1 in record c2 { is_flushed = true }
