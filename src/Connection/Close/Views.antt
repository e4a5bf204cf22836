-- ===== src/Connection/Close/Views.antt =====
-- What each handler does to the view of a plain connection.
use accelio.Prelude.{sub_wrap, u16, u32, ℕ, ◌+◌, true, false, ◌≡◌, arith, if◌then◌else◌}
use accelio.Connection.State.{
  Conn, State, online, fin_wait_1, closing, time_wait, close_wait, last_ack, closed, timeout,
  session_closed, session_disconnected, session_rejected, msg_flushed,
}
use accelio.Connection.Queues.{notify_req_msgs_flush}
use accelio.Connection.Transition.{next_transit, fin, ack}
use accelio.Connection.Close.{
  pre_disconnect, on_fin_req_send_comp, on_fin_req_recv, on_fin_ack_send_comp, on_fin_ack_recv,
  close_time_wait, handle_last_ack, set_state,
}
use accelio.Connection.State.{kref_get}
use accelio.Connection.Close.Frame.{View, view, view-notify_req}
use accelio.Connection.Close.Endpoint.{
  FinLeft, view-send_fin_req, view-send_fin_ack, view-flush_all,
}

pub record Plain (c : Conn) : Type 0 where
  pub no_flow : c.enable_flow_control ≡ false
  pub timer : c.timer_ok ≡ true
  pub notifies : c.disable_notify ≡ false
  pub alive : c.ka_timedout ≡ false
  pub unflushed : c.fin_request_flushed ≡ false

pub view-pre_disconnect :
    (c : Conn)
    → Plain c
    → c.state ≡ online
    → view (pre_disconnect c) ≡ record (view c) {
      state = fin_wait_1;
      fin_req_timeout = 0;
      kref = u32 (u32 (u32 (c.kref + 1) + 1) + 1);
    }
unfolding pre_disconnect
view-pre_disconnect c p h =
    let v =
      view-send_fin_req (set_state fin_wait_1 (kref_get (record c { fin_work = false }))) p.no_flow
        p.timer in
    ground (arith, v, p.alive, p.notifies)

pub view-on_fin_req_recv :
    (sn : ℕ) (c : Conn)
    → Plain c
    → FinLeft c
    → view (on_fin_req_recv sn c) ≡ (
        if (next_transit c.state fin).send_ack
        then record (view c) { kref = u32 (c.kref + 1) }
        else view c)
unfolding on_fin_req_recv next_transit
view-on_fin_req_recv sn c p h =
    let v0 = view-notify_req msg_flushed c h.0 in
    let v1 = view-send_fin_ack sn (notify_req_msgs_flush msg_flushed c) in
    ground (arith, v0, v1, p.unflushed, p.no_flow)

pub view-on_fin_req_send_comp :
    (c : Conn) → view (on_fin_req_send_comp c) ≡ record (view c) { kref = sub_wrap 32 c.kref 1 }
unfolding on_fin_req_send_comp
view-on_fin_req_send_comp c = ground arith

abbrev pub after_fin : State → View → View
after_fin close_wait v = record v {
  state = last_ack;
  disconnecting = true;
  fin_req_timeout = 0;
  kref = sub_wrap 32 (u32 (u32 (v.kref + 1) + 1)) 1;
}
after_fin time_wait v = record v {
  state = time_wait;
  fin_delayed_work = true;
  kref = sub_wrap 32 v.kref 1;
}
after_fin s v = record v { state = s; kref = sub_wrap 32 v.kref 1 }

pub view-on_fin_ack_send_comp :
    (c : Conn)
    → Plain c
    → (next_transit c.state fin).valid ≡ true
    → view (on_fin_ack_send_comp c) ≡ after_fin (next_transit c.state fin).next_state (view c)
unfolding on_fin_ack_send_comp next_transit
view-on_fin_ack_send_comp c p h =
    let s = (next_transit c.state fin).next_state in
    let v = view-send_fin_req (record (set_state s c) { disconnecting = true }) p.no_flow p.timer in
    ground (arith, v, p.notifies, p.timer)

pub view-handle_last_ack :
    (c : Conn) → Plain c → FinLeft c → view (handle_last_ack c) ≡ record (view c) { state = closed }
unfolding handle_last_ack
view-handle_last_ack c p h =
    let v = view-flush_all (record c { close_reason = session_disconnected }) h in
    ground (arith, v, p.notifies)

abbrev pub after_ack : State → View → View
after_ack last_ack v = record v { state = closed; fin_req_timeout = 1; kref = sub_wrap 32 v.kref 1 }
after_ack closing v = record v {
  state = time_wait;
  fin_delayed_work = true;
  fin_req_timeout = 1;
  kref = sub_wrap 32 v.kref 1;
}
after_ack s v = record v {
  state = (next_transit s ack).next_state;
  fin_req_timeout = 1;
  kref = sub_wrap 32 v.kref 1;
}

pub view-on_fin_ack_recv :
    (c : Conn)
    → Plain c
    → FinLeft c
    → (next_transit c.state ack).valid ≡ true
    → c.fin_req_timeout ≡ 0
    → view (on_fin_ack_recv c) ≡ after_ack c.state (view c)
unfolding on_fin_ack_recv next_transit
view-on_fin_ack_recv c p h v z =
    let c1 = record c { fin_req_timeout = u16 (c.fin_req_timeout + 1); fin_timeout_work = false } in
    let w =
      view-handle_last_ack c1
        (record {
          no_flow = p.no_flow;
          timer = p.timer;
          notifies = p.notifies;
          alive = p.alive;
          unflushed = p.unflushed;
        })
        h in
    ground (arith, w, p.timer)

pub view-close_time_wait :
    (c : Conn)
    → Plain c
    → FinLeft c
    → view (close_time_wait c)
      ≡ record (view c) { state = closed; fin_delayed_work = false; kref = sub_wrap 32 c.kref 1 }
unfolding close_time_wait
view-close_time_wait c p h =
    let reason =
      if c.session_was_rejected
      then session_rejected
      else if c.ka_timedout
      then timeout
      else session_closed in
    let v = view-flush_all (record c { fin_delayed_work = false; close_reason = reason }) h in
    ground (arith, v, p.notifies)
