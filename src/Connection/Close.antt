-- ===== src/Connection/Close.antt =====
-- The handlers of the close protocol, src/common/xio_connection.c. A message is queued and sent by
-- the functions of `Connection.Xmit`; the returned tasks and pool messages are left out. The serial
-- number of a control message is that of its request, or 0.
pub mod Frame
pub mod Endpoint
pub mod Timeout
pub mod Views
pub mod Sequence
pub mod Accounts
pub mod Reach
use accelio.Prelude.{
  u16, ℕ, ◌+◌, Bool, true, false, ◌&&◌, ◌||◌, not, List, [], ◌∷◌, ◌++◌, if◌then◌else◌, ◌==◌,
}
use accelio.Message.{MsgType, Msg}
use accelio.Message.MsgType.{fin_req, fin_rsp}
use accelio.Connection.State.{
  Conn, State, Reason, init, established, online, fin_wait_1, fin_wait_2, closing, time_wait,
  close_wait, last_ack, closed, disconnected, error, invalid, success, session_closed,
  session_disconnected, session_rejected, timeout, connect_error, Event, connection_closed,
  connection_disconnected, connection_refused, connection_error, teardown_queued, destroy_denied,
  emit, is_online, kref_get, kref_put, off,
}
use accelio.Connection.Queues.{flush_msgs, notify_req_msgs_flush, notify_msgs_flush}
use accelio.Connection.Xmit.{xmit}
use accelio.Connection.Transition.{Transition, FinAck, fin, ack, next_transit}

-- A pool message with no data.
abbrev pub control_msg : MsgType → ℕ → Msg
control_msg t sn = record { type = t; sn = sn; tx_bytes = 0; receipt_only = false }

abbrev pub set_state : State → Conn → Conn
set_state s c = record c { state = s }

-- xio_session_notify_connection_closed: once per connection
abbrev pub notify_connection_closed : Conn → Conn
notify_connection_closed c =
    if c.cd_bit then c else emit (connection_closed c.close_reason) (record c { cd_bit = true })

-- xio_session_notify_connection_disconnected
abbrev pub notify_connection_disconnected : Conn → Conn
notify_connection_disconnected c =
    if c.cd_bit
    then c
    else emit (connection_disconnected c.close_reason) (record c { cd_bit = true })

-- xio_ctx_add_work for the teardown handler
abbrev pub add_teardown_work : Conn → Conn
add_teardown_work c = emit teardown_queued (record c { teardown_work = true })

abbrev pub may_destroy : State → Bool
may_destroy init = true
may_destroy closed = true
may_destroy disconnected = true
may_destroy error = true
may_destroy _ = false

-- All pending works are deleted, then the reference of the creation is put.
destroy_now : Conn → Conn
destroy_now c = kref_put (record c {
  hello_work = false;
  fin_work = false;
  teardown_work = false;
  fin_delayed_work = false;
  fin_timeout_work = false;
  ka_timer = off;
})

-- xio_connection_destroy: the object is taken out of the index of user objects before the state is
-- looked at.
unfoldable pub destroy : Conn → Conn
unfolding destroy_now
destroy c =
    let c1 = record c { in_idr = false } in
    if c.in_idr
    then (if may_destroy c.state then destroy_now c1 else emit destroy_denied c1)
    else emit destroy_denied c

-- The end that the handlers share: all messages are given back, and the application is told.
abbrev pub flush_all : Conn → Conn
flush_all c = notify_msgs_flush (flush_msgs c)

abbrev pub teardown_or_destroy : Conn → Conn
teardown_or_destroy c = if c.disable_notify then destroy c else add_teardown_work c

abbrev pub queue_fin_req : Conn → Conn
queue_fin_req c = record c {
  reqs_msgq = c.reqs_msgq ++ (control_msg fin_req 0 ∷ []);
  fin_req_timeout = 0;
}

-- One reference for the send completion of the FIN, and one for its acknowledgment.
abbrev pub arm_fin_req : Conn → Conn
arm_fin_req c = kref_get (kref_get (record c { fin_timeout_work = true }))

-- xio_send_fin_req. Where the context takes no delayed work it stops before the references.
unfoldable pub send_fin_req : Conn → Conn
send_fin_req c = let c1 = queue_fin_req c in if c.timer_ok then xmit (arm_fin_req c1) else c1

-- xio_send_fin_ack; `sn` is the serial number of the FIN.
unfoldable pub send_fin_ack : ℕ → Conn → Conn
send_fin_ack sn c =
    xmit (kref_get (record c { rsps_msgq = c.rsps_msgq ++ (control_msg fin_rsp sn ∷ []) }))

-- xio_close_time_wait
unfoldable pub close_time_wait : Conn → Conn
close_time_wait c =
    let reason =
      if c.session_was_rejected
      then session_rejected
      else if c.ka_timedout
      then timeout
      else session_closed in
    let c1 = flush_all (record c { fin_delayed_work = false; close_reason = reason }) in
    kref_put (teardown_or_destroy (set_state closed c1))

-- xio_handle_last_ack
unfoldable pub handle_last_ack : Conn → Conn
handle_last_ack c =
    let c1 = flush_all (record c { close_reason = session_disconnected }) in
    teardown_or_destroy (set_state closed c1)

abbrev pub is_state_time_wait : State → Bool
is_state_time_wait time_wait = true
is_state_time_wait _ = false

abbrev pub is_state_close_wait : State → Bool
is_state_close_wait close_wait = true
is_state_close_wait _ = false

abbrev pub is_state_last_ack : State → Bool
is_state_last_ack last_ack = true
is_state_last_ack _ = false

abbrev pub is_state_fin_wait_1 : State → Bool
is_state_fin_wait_1 fin_wait_1 = true
is_state_fin_wait_1 _ = false

-- The timer of TIME_WAIT, if the context takes it.
abbrev pub start_time_wait : Conn → Conn
start_time_wait c =
    if is_state_time_wait c.state && c.timer_ok then record c { fin_delayed_work = true } else c

-- xio_on_fin_req_send_comp
unfoldable pub on_fin_req_send_comp : Conn → Conn
on_fin_req_send_comp c = kref_put c

-- The step of xio_on_fin_ack_recv behind the timer, by the transition's validity.
ack_transit : Transition → Conn → Conn
ack_transit t c =
    if t.valid
    then (if is_state_last_ack c.state
        then handle_last_ack c
        else start_time_wait (set_state t.next_state c))
    else c

-- xio_on_fin_ack_recv
unfoldable pub on_fin_ack_recv : Conn → Conn
unfolding ack_transit
on_fin_ack_recv c =
    let c1 = record c { fin_req_timeout = u16 (c.fin_req_timeout + 1); fin_timeout_work = false } in
    if c.fin_req_timeout == 0 then kref_put (ack_transit (next_transit c.state ack) c1) else c

-- xio_on_fin_req_recv; `sn` is the serial number of the FIN.
unfoldable pub on_fin_req_recv : ℕ → Conn → Conn
on_fin_req_recv sn c =
    let t = next_transit c.state fin in
    let c1 = notify_req_msgs_flush Reason.msg_flushed c in
    let c2 = if c1.fin_request_flushed then send_fin_req c1 else c1 in
    if t.valid then (if t.send_ack then send_fin_ack sn c2 else c2) else c

-- The passive close: the FIN of this end follows its acknowledgment.
abbrev pub passive_close : Conn → Conn
passive_close c =
    let c1 = send_fin_req (record c { disconnecting = true }) in
    let c2 = record c1 { close_reason = session_disconnected } in
    let c3 = if c2.disable_notify then c2 else notify_connection_closed c2 in set_state last_ack c3

-- xio_on_fin_ack_send_comp. Where the transition is not valid it returns without the put.
unfoldable pub on_fin_ack_send_comp : Conn → Conn
on_fin_ack_send_comp c =
    let t = next_transit c.state fin in
    let c1 = set_state t.next_state c in
    let c2 = if is_state_close_wait c1.state then passive_close c1 else c1 in
    if t.valid then kref_put (start_time_wait c2) else c

-- The end of xio_fin_req_timeout outside LAST_ACK
unfoldable pub close_by_timer : Conn → Conn
close_by_timer c = teardown_or_destroy (set_state closed (flush_all c))

-- xio_fin_req_timeout
unfoldable pub on_fin_req_timeout : Conn → Conn
on_fin_req_timeout c =
    let c0 = record c { fin_timeout_work = false; fin_req_timeout = u16 (c.fin_req_timeout + 1) } in
    let c1 = if is_state_fin_wait_1 c.state then kref_put c0 else c0 in
    let c2 = close_by_timer c1 in
    if c.fin_req_timeout == 0
    then (if is_state_last_ack c.state then kref_put (set_state closed c0) else kref_put c2)
    else record c { fin_timeout_work = false }

-- xio_pre_disconnect, run by the context
unfoldable pub pre_disconnect : Conn → Conn
pre_disconnect c =
    let c0 = record c { fin_work = false } in
    let c1 = kref_get c0 in
    let active = send_fin_req (set_state fin_wait_1 c1) in
    let timed =
      if c1.disable_notify
      then c1
      else notify_connection_closed (record c1 { close_reason = timeout }) in
    if is_online c.state
    then (if c.ka_timedout
        then close_time_wait (set_state time_wait timed)
        else if active.disable_notify
        then active
        else notify_connection_closed (record active { close_reason = session_closed }))
    else c0

abbrev pub is_online_or_established : State → Bool
is_online_or_established online = true
is_online_or_established established = true
is_online_or_established _ = false

-- xio_disconnect: the close is put off until the connection is online.
unfoldable pub disconnect : Conn → Conn
disconnect c =
    let c1 = record c { disconnecting = true } in
    if not (is_online_or_established c.state) || c.disconnecting
    then c1
    else record c1 { fin_work = true }
