-- ===== src/Connection/Setup.antt =====
-- The start of a connection by hello messages, and its end by the outside: src/common/xio_connection.c.
-- `xio_connection_set_state` only logs and stores. The session's ops, the state of the session and
-- its leading connections are outside.
pub mod Deferred
use accelio.Prelude.{ℕ, Bool, true, false, ◌&&◌, not, if◌then◌else◌}
use accelio.Message.{MsgType, Msg}
use accelio.Message.MsgType.{hello_req, hello_rsp}
use accelio.Connection.State.{
  Conn, State, Reason, init, established, online, disconnected, error, connect_error,
  connection_refused, connection_error, connection_established, new_connection, emit,
}
use accelio.Connection.Send.{send}
use accelio.Connection.Xmit.{xmit_msgs}
use accelio.Connection.Close.{
  control_msg, set_state, add_teardown_work, flush_all, notify_connection_disconnected, disconnect,
}
use accelio.Connection.Keepalive.{Options, keepalive_start}

-- What the application's callback does with the connection: it may disconnect it.
abbrev pub callback : Bool → Conn → Conn
callback disconnects c = if disconnects then disconnect c else c

-- xio_connection_send_hello_req and xio_connection_send_hello_rsp do not queue the message.
unfoldable pub send_hello_req : Conn → Conn
send_hello_req c = (send c (control_msg hello_req 0)).1

unfoldable pub send_hello_rsp : ℕ → Conn → Conn
send_hello_rsp sn c = (send c (control_msg hello_rsp sn)).1

-- The credits of an empty queue at the peer.
abbrev pub full_credits : Conn → Conn
full_credits c = record c {
  peer_credits_msgs = c.peer_rcv_queue_depth_msgs;
  credits_msgs = 0;
  peer_credits_bytes = c.peer_rcv_queue_depth_bytes;
  credits_bytes = 0;
}

abbrev pub is_init : State → Bool
is_init init = true
is_init _ = false

abbrev pub is_established : State → Bool
is_established established = true
is_established _ = false

-- A close that was asked for before the connection was online.
abbrev pub deferred_disconnect : Conn → Conn
deferred_disconnect c = disconnect (set_state online (record c { disconnecting = false }))

-- xio_on_connection_hello_rsp_recv; `disconnects` is whether the application closes the connection
-- when it hears that it is established.
unfoldable pub on_hello_rsp_recv : Options → Bool → Conn → Conn
on_hello_rsp_recv o disconnects c =
    let c1 = record (full_credits c) { disable_notify = false } in
    let c2 = callback disconnects (emit connection_established (set_state established c1)) in
    let c3 = record (keepalive_start o (set_state online c2)) { hello_work = true } in
    if is_init c1.state && c1.disconnecting
    then deferred_disconnect c1
    else if is_established c2.state
    then c3
    else c2

-- xio_on_connection_hello_req_recv; `disconnects` is whether the application closes the connection
-- when it hears of it, and `sn` the serial number of the hello.
unfoldable pub on_hello_req_recv : Options → Bool → ℕ → Conn → Conn
on_hello_req_recv o disconnects sn c =
    let c1 = set_state init (record c { disable_notify = false }) in
    let c2 = callback disconnects (emit new_connection c1) in
    let c3 =
      keepalive_start o (set_state online (record (full_credits c2) { session_online = true })) in
    send_hello_rsp sn (if c2.disconnecting then c2 else c3)

-- xio_on_connection_hello_rsp_send_comp
unfoldable pub on_hello_rsp_send_comp : Conn → Conn
on_hello_rsp_send_comp c = if c.disconnecting then deferred_disconnect c else c

-- xio_connection_disconnected. What it closes of the nexus is outside.
unfoldable pub on_disconnected : Conn → Conn
on_disconnected c =
    let c1 = record c {
      hello_work = false;
      fin_delayed_work = false;
      fin_timeout_work = false;
      fin_work = false;
    } in
    let c2 =
      if not c1.disable_notify && not c1.disconnecting
      then notify_connection_disconnected c1
      else if is_init c1.state && c1.disconnecting
      then notify_connection_disconnected (record c1 { disable_notify = false })
      else c1 in
    let c3 = flush_all (set_state disconnected c2) in
    if c3.disable_notify then c3 else add_teardown_work c3

-- The end that xio_connection_refused and xio_connection_error_event share.
abbrev pub fail : Conn → Conn
fail c = add_teardown_work (set_state error (flush_all c))

-- xio_connection_refused
unfoldable pub on_refused : Conn → Conn
on_refused c =
    fail (emit (connection_refused connect_error) (record c { close_reason = connect_error }))

-- xio_connection_error_event
unfoldable pub on_error_event : Reason → Conn → Conn
on_error_event reason c = fail (emit (connection_error reason) (record c { close_reason = reason }))
