-- ===== src/Connection/Close/Endpoint.antt =====
-- One end of a connection through the close protocol, with what the outside still owes it.
use accelio.Prelude.{
  u32, ℕ, ◌+◌, Bool, true, false, ◌&&◌, ◌||◌, not, ◌≡◌, ◌∙◌, arith, if◌then◌else◌,
}
use accelio.Connection.State.{
  Conn, State, online, fin_wait_1, fin_wait_2, closing, time_wait, last_ack, closed,
}
use accelio.Connection.Queues.{flush_msgs}
use accelio.Connection.Queues.Flush.{flush_msgs_queues}
use accelio.Connection.Close.{
  queue_fin_req, arm_fin_req, send_fin_req, send_fin_ack, pre_disconnect, on_fin_req_send_comp,
  on_fin_req_recv, on_fin_ack_send_comp, on_fin_ack_recv, close_time_wait, flush_all,
}
use accelio.Connection.Close.Frame.{
  View, view, no_fin, no_fin-append, view-xmit, view-notify_msgs_flush, view-flush_msgs,
}

-- No FIN waits to be sent.
abbrev pub FinLeft : Conn → Type 0
FinLeft c = (no_fin c.reqs_msgq ≡ true) × (no_fin c.in_flight_reqs_msgq ≡ true)

pub view-flush_all : (c : Conn) → FinLeft c → view (flush_all c) ≡ view c
view-flush_all c h =
    view-notify_msgs_flush (flush_msgs c)
      (rw ((flush_msgs_queues c).0, no_fin-append c.in_flight_reqs_msgq c.reqs_msgq) (ground arith))
    ∙ view-flush_msgs c

-- Two references more, and the flag of the timeout down.
pub view-send_fin_req :
    (c : Conn)
    → c.enable_flow_control ≡ false
    → c.timer_ok ≡ true
    → view (send_fin_req c)
      ≡ record (view c) { fin_req_timeout = 0; kref = u32 (u32 (c.kref + 1) + 1) }
unfolding send_fin_req
view-send_fin_req c off ok = ground (arith, view-xmit (arm_fin_req (queue_fin_req c)) off)

pub view-send_fin_ack :
    (sn : ℕ) (c : Conn)
    → c.enable_flow_control ≡ false
    → view (send_fin_ack sn c) ≡ record (view c) { kref = u32 (c.kref + 1) }
unfolding send_fin_ack
view-send_fin_ack sn c off = view-xmit _ off

-- What has happened at this end, and what the outside owes it.
pub record Ghost : Type 0 where
  pub active : Bool  -- this end closed first, from ONLINE
  pub passive : Bool  -- our FIN followed the peer's
  pub fin_completed : Bool  -- the send completion of our FIN has come
  pub acked : Bool  -- the acknowledgment of our FIN has come
  pub fin_received : Bool  -- the peer's FIN has come
  pub ack_completed : Bool  -- the send completion of our acknowledgment has come
  pub expired : Bool  -- the timer of TIME_WAIT has expired

abbrev pub start : Ghost
start = record {
  active = false;
  passive = false;
  fin_completed = false;
  acked = false;
  fin_received = false;
  ack_completed = false;
  expired = false;
}

abbrev pub fin_sent : Ghost → Bool
fin_sent g = g.active || g.passive

abbrev active_state : Bool → Bool → Bool → State
active_state false false expired = fin_wait_1
active_state true false expired = fin_wait_2
active_state false true expired = closing
active_state true true false = time_wait
active_state true true true = closed

-- The state of the connection, by what has happened.
abbrev pub expected_state : Ghost → State
expected_state g =
    if g.active
    then active_state g.acked g.ack_completed g.expired
    else if g.passive
    then (if g.acked then closed else last_ack)
    else online

abbrev pub one : Bool → ℕ
one true = 1
one false = 0

-- One reference for the application, and one for each call that the outside owes.
abbrev pub expected_kref : Ghost → ℕ
expected_kref g =
    1
    + one (g.active && not g.expired)
    + one (fin_sent g && not g.fin_completed)
    + one (fin_sent g && not g.acked)
    + one (g.fin_received && not g.ack_completed)

-- The end that the theorems are about: no flow control, the context takes delayed work, the
-- application is told of the teardown, and no keepalive has run out.
abbrev pub expected_view : Ghost → Bool → Bool → View
expected_view g disconnecting in_idr = record {
  state = expected_state g;
  enable_flow_control = false;
  fin_req_timeout = one g.acked;
  disable_notify = false;
  disconnecting = disconnecting;
  fin_request_flushed = false;
  kref = expected_kref g;
  ka_timedout = false;
  fin_delayed_work = g.active && g.acked && g.ack_completed && not g.expired;
  timer_ok = true;
  in_idr = in_idr;
}

-- The order in which things happen.
pub record Order (g : Ghost) : Type 0 where
  pub one_close : (g.active && g.passive) ≡ false
  pub passive_after : g.passive ≡ true → g.ack_completed ≡ true
  pub completed_after : g.ack_completed ≡ true → (g.fin_received ≡ true) × (fin_sent g ≡ true)
  pub fin_completed_after : g.fin_completed ≡ true → fin_sent g ≡ true
  pub acked_after : g.acked ≡ true → fin_sent g ≡ true
  pub expired_after :
      g.expired ≡ true → (g.active ≡ true) × (g.acked ≡ true) × (g.ack_completed ≡ true)

pub record Inv (c : Conn) (g : Ghost) : Type 0 where
  pub view_is : view c ≡ expected_view g c.disconnecting c.in_idr
  pub order : Order g

-- What can happen next. An event of the outside comes at most once, and only after what causes it;
-- our FIN has left the queue when the peer's FIN or an acknowledgment is handled.
pub data Step (c : Conn) (g : Ghost) : Conn → Ghost → Type 0 where
  close_local : fin_sent g ≡ false → Step c g (pre_disconnect c) (record g { active = true })
  fin_sent_comp :
      fin_sent g ≡ true
      → g.fin_completed ≡ false
      → Step c g (on_fin_req_send_comp c) (record g { fin_completed = true })
  peer_fin :
      (sn : ℕ)
      → g.fin_received ≡ false
      → FinLeft c
      → Step c g (on_fin_req_recv sn c) (record g { fin_received = true })
  ack_sent_comp :
      g.fin_received ≡ true
      → g.ack_completed ≡ false
      → Step c g
          (on_fin_ack_send_comp c)
          (record g { ack_completed = true; passive = not g.active })
  peer_ack :
      fin_sent g ≡ true
      → g.acked ≡ false
      → FinLeft c
      → Step c g (on_fin_ack_recv c) (record g { acked = true })
  time_wait_over :
      c.fin_delayed_work ≡ true
      → FinLeft c
      → Step c g (close_time_wait c) (record g { expired = true })
