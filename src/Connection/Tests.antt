-- ===== src/Connection/Tests.antt =====
-- Runs of the connection at fixed inputs.
use accelio.Prelude.{ℕ, ◌≤◌, ◌&&◌, not, true, false, ◌≡◌, refl, List, [], ◌∷◌, if◌then◌else◌}
use accelio.Message.{Msg}
use accelio.Message.MsgType.{one_way_req}
use accelio.Connection.State.{Conn, Answer, online, fin_wait_1, closed, success, sent, again, off}
use accelio.Connection.Queues.{notify_req_msgs_flush, req_msgs_flush}
use accelio.Connection.Send.{send, hand_over, deliver, charge, restore}
use accelio.Connection.Xmit.{xmit, xmit_outcome, xmit_loop, xmit_inl, xmit_first, after_send}
use accelio.Connection.Xmit.{xmit_loop, xmit_outcome, requests, responses}
use accelio.Connection.Xmit.Termination.{Returns}
use accelio.Connection.Xmit.Rounds.{xmit_rounds}
use accelio.Connection.Transition.{next_transit, fin, ack}
use accelio.Connection.Close.{
  send_fin_req, send_fin_ack, pre_disconnect, on_fin_req_send_comp, on_fin_req_recv,
  on_fin_ack_send_comp, on_fin_ack_recv, close_time_wait,
}
use accelio.Connection.Close.Endpoint.{
  Ghost, start, close_local, fin_sent_comp, peer_fin, ack_sent_comp, peer_ack, time_wait_over,
  FinLeft, fin_sent,
}
use accelio.Connection.Close.Views.{Plain}
use accelio.Connection.Close.Reach.{
  Ready, Reach, begin, then_step, accounts_balance, close_settles, close_never_stuck,
}
use accelio.Connection.Close.Timeout.{UnsentFin}

-- An end that is online, without flow control; `answers` is what the nexus will say.
abbrev pub opened : List Answer → Conn
opened answers = record {
  state = online;
  enable_flow_control = false;
  req_sn = 0;
  req_exp_sn = 0;
  req_ack_sn = 65535;
  rsp_sn = 0;
  rsp_exp_sn = 0;
  rsp_ack_sn = 65535;
  credits_msgs = 0;
  peer_credits_msgs = 0;
  rx_queue_watermark_msgs = 4;
  credits_bytes = 0;
  peer_credits_bytes = 0;
  rx_queue_watermark_bytes = 4096;
  tx_queued_msgs = 0;
  tx_bytes = 0;
  reqs_msgq = [];
  rsps_msgq = [];
  in_flight_reqs_msgq = [];
  in_flight_rsps_msgq = [];
  send_req_toggle = false;
  fin_req_timeout = 0;
  disable_notify = false;
  disconnecting = false;
  restarted = false;
  is_flushed = false;
  cd_bit = false;
  fin_request_flushed = false;
  close_reason = success;
  kref = 1;
  ka_probes = 0;
  ka_req_sent = false;
  ka_timedout = false;
  hello_work = false;
  fin_work = false;
  teardown_work = false;
  fin_delayed_work = false;
  fin_timeout_work = false;
  ka_timer = off;
  session_online = true;
  session_was_rejected = false;
  trans_sn = 0;
  snd_queue_depth_msgs = 1024;
  snd_queue_depth_bytes = 65536;
  peer_rcv_queue_depth_msgs = 1024;
  peer_rcv_queue_depth_bytes = 65536;
  in_idr = true;
  timer_ok = true;
  nexus = answers;
  log = [];
}

opened-Ready : Ready (opened (sent ∷ sent ∷ []))
opened-Ready = refl

-- This end closes first, and every call comes.
abbrev c0 : Conn
c0 = opened (sent ∷ sent ∷ [])

abbrev c1 : Conn
c1 = pre_disconnect c0

abbrev c2 : Conn
c2 = on_fin_req_send_comp c1

abbrev c3 : Conn
c3 = on_fin_ack_recv c2

abbrev c4 : Conn
c4 = on_fin_req_recv 9 c3

abbrev c5 : Conn
c5 = on_fin_ack_send_comp c4

abbrev c6 : Conn
c6 = close_time_wait c5

abbrev g1 : Ghost
g1 = record start { active = true }

abbrev g2 : Ghost
g2 = record g1 { fin_completed = true }

abbrev g3 : Ghost
g3 = record g2 { acked = true }

abbrev g4 : Ghost
g4 = record g3 { fin_received = true }

abbrev g5 : Ghost
g5 = record g4 { ack_completed = true }

abbrev g6 : Ghost
g6 = record g5 { expired = true }

c2-FinLeft : FinLeft c2
unfolding pre_disconnect on_fin_req_send_comp on_fin_ack_recv on_fin_req_recv on_fin_ack_send_comp
    next_transit send_fin_req send_fin_ack xmit xmit_outcome xmit_loop xmit_inl xmit_first
    after_send send hand_over deliver charge notify_req_msgs_flush req_msgs_flush
c2-FinLeft = (refl, refl)

c3-FinLeft : FinLeft c3
unfolding pre_disconnect on_fin_req_send_comp on_fin_ack_recv on_fin_req_recv on_fin_ack_send_comp
    next_transit send_fin_req send_fin_ack xmit xmit_outcome xmit_loop xmit_inl xmit_first
    after_send send hand_over deliver charge notify_req_msgs_flush req_msgs_flush
c3-FinLeft = (refl, refl)

c5-FinLeft : FinLeft c5
unfolding pre_disconnect on_fin_req_send_comp on_fin_ack_recv on_fin_req_recv on_fin_ack_send_comp
    next_transit send_fin_req send_fin_ack xmit xmit_outcome xmit_loop xmit_inl xmit_first
    after_send send hand_over deliver charge notify_req_msgs_flush req_msgs_flush
c5-FinLeft = (refl, refl)

c5-delayed : c5.fin_delayed_work ≡ true
unfolding pre_disconnect on_fin_req_send_comp on_fin_ack_recv on_fin_req_recv on_fin_ack_send_comp
    next_transit send_fin_req send_fin_ack xmit xmit_outcome xmit_loop xmit_inl xmit_first
    after_send send hand_over deliver charge notify_req_msgs_flush req_msgs_flush
c5-delayed = refl

to_c1 : Reach c0 c1 g1
to_c1 = then_step begin (close_local refl)

to_c6 : Reach c0 c6 g6
to_c6 =
    then_step
      (then_step
        (then_step
          (then_step (then_step to_c1 (fin_sent_comp refl refl)) (peer_ack refl refl c2-FinLeft))
          (peer_fin 9 refl c3-FinLeft))
        (ack_sent_comp refl refl))
      (time_wait_over c5-delayed c5-FinLeft)

accounts_balance_example : (c1.state ≡ fin_wait_1) × (c1.kref ≡ 4)
accounts_balance_example = accounts_balance c0 c1 g1 opened-Ready to_c1

close_settles_example : (c6.state ≡ closed) × (c6.kref ≡ 1)
close_settles_example = close_settles c0 c6 g6 opened-Ready to_c6 refl

close_never_stuck_example :
    (1 ≤ c6.kref)
    × ((if g6.fin_received && not g6.ack_completed then (next_transit c6.state fin).valid else true)
        ≡ true)
    × ((if fin_sent g6 && not g6.acked then (next_transit c6.state ack).valid else true) ≡ true)
close_never_stuck_example = close_never_stuck c0 c6 g6 opened-Ready to_c6

to_c2 : Reach c0 c2 g2
to_c2 = then_step to_c1 (fin_sent_comp refl refl)

-- The transport takes nothing.
abbrev unsent : Conn
unsent = pre_disconnect (opened [])

unsent-Plain : Plain unsent
unfolding pre_disconnect on_fin_req_send_comp on_fin_ack_recv on_fin_req_recv on_fin_ack_send_comp
    next_transit send_fin_req send_fin_ack xmit xmit_outcome xmit_loop xmit_inl xmit_first
    after_send send hand_over deliver charge restore notify_req_msgs_flush req_msgs_flush
unsent-Plain = record {
  no_flow = refl;
  timer = refl;
  notifies = refl;
  alive = refl;
  unflushed = refl;
}

unsent-UnsentFin : UnsentFin unsent
unfolding pre_disconnect on_fin_req_send_comp on_fin_ack_recv on_fin_req_recv on_fin_ack_send_comp
    next_transit send_fin_req send_fin_ack xmit xmit_outcome xmit_loop xmit_inl xmit_first
    after_send send hand_over deliver charge restore notify_req_msgs_flush req_msgs_flush
unsent-UnsentFin = (refl, refl, refl)

unsent_timeout : unsent.fin_req_timeout ≡ 0
unfolding pre_disconnect on_fin_req_send_comp on_fin_ack_recv on_fin_req_recv on_fin_ack_send_comp
    next_transit send_fin_req send_fin_ack xmit xmit_outcome xmit_loop xmit_inl xmit_first
    after_send send hand_over deliver charge restore notify_req_msgs_flush req_msgs_flush
unsent_timeout = refl

unsent_kref : unsent.kref ≡ 4
unfolding pre_disconnect on_fin_req_send_comp on_fin_ack_recv on_fin_req_recv on_fin_ack_send_comp
    next_transit send_fin_req send_fin_ack xmit xmit_outcome xmit_loop xmit_inl xmit_first
    after_send send hand_over deliver charge restore notify_req_msgs_flush req_msgs_flush
unsent_kref = refl

abbrev pub request : ℕ → Msg
request sn = record { type = one_way_req; sn = sn; tx_bytes = 100; receipt_only = false }

abbrev three_waiting : Conn
three_waiting = record (opened (sent ∷ again ∷ sent ∷ [])) {
  reqs_msgq = request 0 ∷ request 1 ∷ request 2 ∷ [];
}

xmit_rounds_example :
    Returns (xmit_loop 5 requests responses 0 three_waiting)
    × (xmit_outcome three_waiting ≡ xmit_loop 5 requests responses 0 three_waiting)
xmit_rounds_example = xmit_rounds three_waiting refl

-- Two requests in flight, and one that waits.
abbrev in_flight : Conn
in_flight = record (opened []) {
  in_flight_reqs_msgq = request 1 ∷ request 2 ∷ [];
  reqs_msgq = request 3 ∷ [];
}
