-- ===== src/Connection/Keepalive.antt =====
-- Keepalive: the probes of a silent peer, src/common/xio_connection.c. A timer that fires has left
-- the context before its handler runs.
pub mod Silence
use accelio.Prelude.{
  u32, ℕ, zero, suc, ◌+◌, Bool, true, false, ◌&&◌, ◌||◌, not, List, ◌∷◌, if◌then◌else◌, ◌==◌,
}
use accelio.Message.{MsgType, Msg}
use accelio.Message.MsgType.{ka_req, ka_rsp}
use accelio.Connection.State.{
  Conn, KaTimer, off, start_timer, time_timer, intvl_timer, timeout, connection_error, emit,
  is_online,
}
use accelio.Connection.Xmit.{xmit}
use accelio.Connection.Close.{control_msg, disconnect}

-- The options that the keepalive reads.
pub record Options : Type 0 where
  pub enable_keepalive : Bool
  pub probes : ℕ
  pub reconnect : Bool

-- xio_ctx_del_delayed_work, then xio_ctx_add_delayed_work
abbrev pub restart_timer : KaTimer → Conn → Conn
restart_timer t c = record c { ka_timer = if c.timer_ok then t else off }

-- xio_connection_keepalive_start
unfoldable pub keepalive_start : Options → Conn → Conn
keepalive_start o c =
    if o.enable_keepalive then restart_timer time_timer c else record c { ka_timer = off }

-- xio_connection_send_ka_req: to the head of the queue.
unfoldable pub send_ka_req : Conn → Conn
send_ka_req c =
    let c1 = record c { ka_req_sent = true; reqs_msgq = control_msg ka_req 0 ∷ c.reqs_msgq } in
    if not (is_online c.state) || c.ka_req_sent then c else xmit c1

-- xio_connection_send_ka_rsp; `sn` is the serial number of the request.
unfoldable pub send_ka_rsp : ℕ → Conn → Conn
send_ka_rsp sn c = xmit (record c { rsps_msgq = control_msg ka_rsp sn ∷ c.rsps_msgq })

-- xio_connection_keepalive_time
unfoldable pub keepalive_time : Conn → Conn
keepalive_time c = let c1 = restart_timer intvl_timer c in if c.timer_ok then send_ka_req c1 else c1

-- The application is told, and unless it reconnects the connection is closed.
abbrev pub give_up : Options → Conn → Conn
give_up o c =
    let c1 = emit (connection_error timeout) c in
    if not c1.disconnecting && not o.reconnect then disconnect c1 else c1

-- xio_connection_keepalive_intvl
unfoldable pub keepalive_intvl : Options → Conn → Conn
keepalive_intvl o c =
    let c1 = record c { ka_timedout = true; ka_probes = u32 (c.ka_probes + 1) } in
    let last = restart_timer start_timer (record c1 { ka_probes = 0; ka_req_sent = false }) in
    if c1.ka_probes == o.probes
    then (if c.timer_ok then give_up o last else last)
    else restart_timer intvl_timer c1

-- xio_on_connection_ka_rsp_recv
unfoldable pub on_ka_rsp_recv : Conn → Conn
on_ka_rsp_recv c =
    restart_timer time_timer (record c { ka_probes = 0; ka_req_sent = false; ka_timedout = false })

-- xio_on_connection_ka_req_recv. Where the context takes no timer no response is sent.
unfoldable pub on_ka_req_recv : Options → ℕ → Conn → Conn
on_ka_req_recv o sn c =
    let c1 = record c { ka_timedout = false } in
    let c2 = restart_timer start_timer c1 in
    if o.enable_keepalive && (c.ka_probes == 0) && not c.ka_req_sent
    then (if c.timer_ok then send_ka_rsp sn c2 else c2)
    else send_ka_rsp sn c1
