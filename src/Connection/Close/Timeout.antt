-- ===== src/Connection/Close/Timeout.antt =====
-- The timer of the close protocol, xio_fin_req_timeout.
use accelio.Prelude.{
  sub_wrap, u16, ℕ, ◌+◌, true, false, ◌&&◌, not, ◌≡◌, List, [], ◌∷◌, refl, ◌∙◌, ap, arith,
  if◌then◌else◌, Bool-cases, inl, inr,
}
use accelio.Message.{Msg}
use accelio.Message.MsgType.{fin_req}
use accelio.Connection.State.{Conn, fin_wait_1, closed, kref_put, msg_flushed}
use accelio.Connection.Queues.{
  flush_msgs, notify_msgs_flush, notify_req_msgs_flush, notify_rsp_msgs_flush, req_msgs_flush,
  give_back_req,
}
use accelio.Connection.Queues.Flush.{flush_msgs_queues}
use accelio.Connection.Close.{
  on_fin_req_timeout, flush_all, control_msg, close_by_timer, is_state_fin_wait_1,
}
use accelio.Connection.Close.Frame.{View, view, view-rsp_msgs_flush, view-flush_msgs}
use accelio.Connection.Close.Endpoint.{Ghost, FinLeft, fin_sent, one, view-flush_all}
use accelio.Connection.Close.Views.{Plain}
use accelio.Connection.Close.Accounts.{Inv-Plain}
use accelio.Connection.Close.Reach.{Ready, Reach, Reach-Inv}

view-close_by_timer :
    (c : Conn)
    → c.disable_notify ≡ false
    → FinLeft c
    → view (close_by_timer c) ≡ record (view c) { state = closed }
unfolding close_by_timer
view-close_by_timer c p l = ground (arith, view-flush_all c l, p)

-- The flag of the timeout is up.
abbrev timed_out : Conn → Conn
timed_out c = record c { fin_timeout_work = false; fin_req_timeout = u16 (c.fin_req_timeout + 1) }

abbrev timeout_view : Conn → ℕ → View
timeout_view c k = record (view c) { state = closed; fin_req_timeout = 1; kref = k }

timeout_in_fin_wait_1 :
    (c : Conn)
    → c.fin_req_timeout ≡ 0
    → is_state_fin_wait_1 c.state ≡ true
    → view (close_by_timer (kref_put (timed_out c)))
      ≡ record (view (kref_put (timed_out c))) { state = closed }
    → view (on_fin_req_timeout c) ≡ timeout_view c (sub_wrap 32 (sub_wrap 32 c.kref 1) 1)
unfolding on_fin_req_timeout
timeout_in_fin_wait_1 c z w v = ground arith

timeout_elsewhere :
    (c : Conn)
    → c.fin_req_timeout ≡ 0
    → is_state_fin_wait_1 c.state ≡ false
    → view (close_by_timer (timed_out c)) ≡ record (view (timed_out c)) { state = closed }
    → view (on_fin_req_timeout c) ≡ timeout_view c (sub_wrap 32 c.kref 1)
unfolding on_fin_req_timeout
timeout_elsewhere c z w v = ground arith

put_FinLeft : (d : Conn) → FinLeft d → FinLeft (kref_put d)
put_FinLeft d h = (ground (arith, h.0), ground (arith, h.1))

put_notifies : (d : Conn) → d.disable_notify ≡ false → (kref_put d).disable_notify ≡ false
put_notifies d h = ground (arith, h)

view-on_fin_req_timeout :
    (c : Conn)
    → Plain c
    → FinLeft c
    → c.fin_req_timeout ≡ 0
    → view (on_fin_req_timeout c)
      ≡ timeout_view c (
          if is_state_fin_wait_1 c.state
          then sub_wrap 32 (sub_wrap 32 c.kref 1) 1
          else sub_wrap 32 c.kref 1)
view-on_fin_req_timeout c p l z =
    let t = timed_out c in
    elim (Bool-cases (is_state_fin_wait_1 c.state)) [
      | inl w ↦ rw w (
          timeout_in_fin_wait_1 c z w
            (view-close_by_timer (kref_put t) (put_notifies t p.notifies) (put_FinLeft t l)))
      | inr w ↦ rw w (timeout_elsewhere c z w (view-close_by_timer t p.notifies l))
    ]

-- When the timer of a FIN that has left the queue fires before the acknowledgment, the connection
-- is CLOSED. The references that stay are one, one for each call owed, and, when this end closed
-- first and the peer's FIN has been handled (CLOSING), one more that nothing puts.
pub timeout_accounts :
    (c0 c : Conn) (g : Ghost)
    → Ready c0
    → Reach c0 c g
    → FinLeft c
    → fin_sent g ≡ true
    → g.acked ≡ false
    → ((on_fin_req_timeout c).state ≡ closed)
      × ((on_fin_req_timeout c).kref
          ≡ 1
            + one (g.active && g.ack_completed)
            + one (not g.fin_completed)
            + one (g.fin_received && not g.ack_completed))
timeout_accounts c0 c g r p l h h2 =
    let i = Reach-Inv c0 c g r p in
    let v = view-on_fin_req_timeout c (Inv-Plain c g i) l in
    ground (
      arith, v, i.view_is, i.order.one_close, i.order.passive_after, i.order.completed_after,
      i.order.expired_after,
    )

-- A FIN that was never sent is the only message.
abbrev pub UnsentFin : Conn → Type 0
UnsentFin c =
    (c.reqs_msgq ≡ control_msg fin_req 0 ∷ [])
    × (c.in_flight_reqs_msgq ≡ [])
    × (c.state ≡ fin_wait_1)

abbrev undo_fin : Conn → View
undo_fin c = record (view c) {
  kref = sub_wrap 32 (sub_wrap 32 c.kref 1) 1;
  fin_request_flushed = true;
}

view-give_back_fin :
    (c : Conn)
    → c.state ≡ fin_wait_1
    → view (give_back_req msg_flushed (control_msg fin_req 0) c) ≡ undo_fin c
unfolding give_back_req
view-give_back_fin c h = ground arith

view-flush_one :
    (c : Conn)
    → c.state ≡ fin_wait_1
    → view (req_msgs_flush msg_flushed (control_msg fin_req 0 ∷ []) c) ≡ undo_fin c
unfolding req_msgs_flush
view-flush_one c h = view-give_back_fin c h

view-notify_unsent :
    (c : Conn)
    → c.reqs_msgq ≡ control_msg fin_req 0 ∷ []
    → c.state ≡ fin_wait_1
    → view (notify_req_msgs_flush msg_flushed c) ≡ undo_fin c
unfolding notify_req_msgs_flush
view-notify_unsent c q h =
    ap (λ (ms : List Msg). view (req_msgs_flush msg_flushed ms c)) q ∙ view-flush_one c h

view-flush_unsent : (c : Conn) → UnsentFin c → view (flush_all c) ≡ undo_fin c
unfolding notify_msgs_flush notify_rsp_msgs_flush
view-flush_unsent c h =
    let d = flush_msgs c in
    let q : d.reqs_msgq ≡ control_msg fin_req 0 ∷ [] =
      (flush_msgs_queues c).0 ∙ rw (h.0, h.1) refl in
    let s : d.state ≡ fin_wait_1 = ap (λ (v : View). v.state) (view-flush_msgs c) ∙ h.2 in
    let n = notify_req_msgs_flush msg_flushed d in
    view-rsp_msgs_flush msg_flushed n.rsps_msgq n
    ∙ (view-notify_unsent d q s ∙ ap undo_view (view-flush_msgs c))
  where
    undo_view : View → View
    undo_view v = record v {
      kref = sub_wrap 32 (sub_wrap 32 v.kref 1) 1;
      fin_request_flushed = true;
    }

-- An end that closed first holds four references while its FIN waits in the queue. When the timer
-- fires then, the flush takes back the two of the FIN and the timer puts two more: none is left,
-- and the teardown that is queued in the context is for a connection that is freed.
pub UnsentFin-timeout :
    (c : Conn)
    → Plain c
    → UnsentFin c
    → c.fin_req_timeout ≡ 0
    → c.kref ≡ 4
    → ((on_fin_req_timeout c).kref ≡ 0) × ((on_fin_req_timeout c).teardown_work ≡ true)
unfolding on_fin_req_timeout close_by_timer
UnsentFin-timeout c p u z k = ground (arith, view-flush_unsent (kref_put (timed_out c)))
