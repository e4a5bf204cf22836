-- ===== src/Connection/Close/Accounts.antt =====
-- Every handler keeps the accounts of one end.
use accelio.Prelude.{ℕ, true, false, not, ◌≡◌, sym, ◌∙◌, ap, arith}
use accelio.Connection.State.{Conn, online}
use accelio.Connection.Transition.{next_transit}
use accelio.Connection.Close.{
  pre_disconnect, on_fin_req_send_comp, on_fin_req_recv, on_fin_ack_send_comp, on_fin_ack_recv,
  close_time_wait,
}
use accelio.Connection.Close.Sequence.{
  Order-close_local, Order-fin_sent_comp, Order-peer_fin, Order-ack_sent_comp, Order-peer_ack,
  Order-time_wait_over,
}
use accelio.Connection.Close.Frame.{View, view}
use accelio.Connection.Close.Endpoint.{
  Ghost, Inv, Order, Step, close_local, fin_sent_comp, peer_fin, ack_sent_comp, peer_ack,
  time_wait_over, FinLeft, fin_sent, expected_view,
}
use accelio.Connection.Close.Views.{
  Plain, view-pre_disconnect, view-on_fin_req_recv, view-on_fin_req_send_comp,
  view-on_fin_ack_send_comp, view-on_fin_ack_recv, view-close_time_wait,
}

pub Inv-Plain : (c : Conn) (g : Ghost) → Inv c g → Plain c
Inv-Plain c g i = record {
  no_flow = ap (λ (v : View). v.enable_flow_control) i.view_is;
  timer = ap (λ (v : View). v.timer_ok) i.view_is;
  notifies = ap (λ (v : View). v.disable_notify) i.view_is;
  alive = ap (λ (v : View). v.ka_timedout) i.view_is;
  unflushed = ap (λ (v : View). v.fin_request_flushed) i.view_is;
}

close_local-Inv :
    (c : Conn) (g : Ghost)
    → Inv c g
    → fin_sent g ≡ false
    → view (pre_disconnect c)
      ≡ expected_view
          (record g { active = true })
          (pre_disconnect c).disconnecting
          (pre_disconnect c).in_idr
close_local-Inv c g i h =
    let s : c.state ≡ online = ap (λ (v : View). v.state) i.view_is ∙ ground arith in
    ground (
      arith,
      view-pre_disconnect c (Inv-Plain c g i) s,
      i.view_is,
      i.order.completed_after,
      i.order.fin_completed_after,
      i.order.acked_after,
      i.order.expired_after,
    )

sent_comp-Inv :
    (c : Conn) (g : Ghost)
    → Inv c g
    → fin_sent g ≡ true
    → g.fin_completed ≡ false
    → view (on_fin_req_send_comp c)
      ≡ expected_view
          (record g { fin_completed = true })
          (on_fin_req_send_comp c).disconnecting
          (on_fin_req_send_comp c).in_idr
sent_comp-Inv c g i h h2 = ground (arith, view-on_fin_req_send_comp c, i.view_is)

peer_fin-Inv :
    (c : Conn) (g : Ghost) (sn : ℕ)
    → Inv c g
    → g.fin_received ≡ false
    → FinLeft c
    → view (on_fin_req_recv sn c)
      ≡ expected_view
          (record g { fin_received = true })
          (on_fin_req_recv sn c).disconnecting
          (on_fin_req_recv sn c).in_idr
unfolding next_transit
peer_fin-Inv c g sn i h l = ground (
  arith,
  view-on_fin_req_recv sn c (Inv-Plain c g i) l,
  i.view_is,
  i.order.one_close,
  i.order.passive_after,
  i.order.completed_after,
  i.order.expired_after,
)

ack_sent_comp-Inv :
    (c : Conn) (g : Ghost)
    → Inv c g
    → g.fin_received ≡ true
    → g.ack_completed ≡ false
    → view (on_fin_ack_send_comp c)
      ≡ expected_view
          (record g { ack_completed = true; passive = not g.active })
          (on_fin_ack_send_comp c).disconnecting
          (on_fin_ack_send_comp c).in_idr
unfolding next_transit
ack_sent_comp-Inv c g i h h2 = ground (
  arith,
  view-on_fin_ack_send_comp c (Inv-Plain c g i),
  i.view_is,
  i.order.one_close,
  i.order.passive_after,
  i.order.fin_completed_after,
  i.order.acked_after,
  i.order.expired_after,
)

peer_ack-Inv :
    (c : Conn) (g : Ghost)
    → Inv c g
    → fin_sent g ≡ true
    → g.acked ≡ false
    → FinLeft c
    → view (on_fin_ack_recv c)
      ≡ expected_view
          (record g { acked = true })
          (on_fin_ack_recv c).disconnecting
          (on_fin_ack_recv c).in_idr
unfolding next_transit
peer_ack-Inv c g i h h2 l = ground (
  arith,
  view-on_fin_ack_recv c (Inv-Plain c g i) l,
  i.view_is,
  i.order.one_close,
  i.order.passive_after,
  i.order.completed_after,
  i.order.expired_after,
)

expired-Inv :
    (c : Conn) (g : Ghost)
    → Inv c g
    → c.fin_delayed_work ≡ true
    → FinLeft c
    → view (close_time_wait c)
      ≡ expected_view
          (record g { expired = true })
          (close_time_wait c).disconnecting
          (close_time_wait c).in_idr
expired-Inv c g i h l = ground (
  arith,
  view-close_time_wait c (Inv-Plain c g i) l,
  i.view_is,
  i.order.one_close,
  i.order.passive_after,
  i.order.completed_after,
  i.order.expired_after,
)

pub Step-view :
    (c c' : Conn) (g g' : Ghost)
    → Inv c g
    → Step c g c' g'
    → view c' ≡ expected_view g' c'.disconnecting c'.in_idr
Step-view c c' g g' i (close_local h) = close_local-Inv c g i h
Step-view c c' g g' i (fin_sent_comp h h2) = sent_comp-Inv c g i h h2
Step-view c c' g g' i (peer_fin sn h l) = peer_fin-Inv c g sn i h l
Step-view c c' g g' i (ack_sent_comp h h2) = ack_sent_comp-Inv c g i h h2
Step-view c c' g g' i (peer_ack h h2 l) = peer_ack-Inv c g i h h2 l
Step-view c c' g g' i (time_wait_over h l) = expired-Inv c g i h l

pub Step-Order : (c c' : Conn) (g g' : Ghost) → Inv c g → Step c g c' g' → Order g'
Step-Order c c' g g' i (close_local h) = Order-close_local g i.order h
Step-Order c c' g g' i (fin_sent_comp h h2) = Order-fin_sent_comp g i.order h
Step-Order c c' g g' i (peer_fin sn h l) = Order-peer_fin g i.order h
Step-Order c c' g g' i (ack_sent_comp h h2) = Order-ack_sent_comp g i.order h h2
Step-Order c c' g g' i (peer_ack h h2 l) = Order-peer_ack g i.order h
Step-Order c c' g g' i (time_wait_over h l) =
    Order-time_wait_over g i.order (sym (ap (λ (v : View). v.fin_delayed_work) i.view_is) ∙ h)
