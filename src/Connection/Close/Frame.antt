-- ===== src/Connection/Close/Frame.antt =====
-- What the transmission and the flushes leave alone: all that the close protocol decides by.
use accelio.Prelude.{
  ℕ, zero, suc, ◌+◌, Bool, true, false, ◌&&◌, not, ◌≡◌, ◌≢◌, refl, ◌∙◌, ap, List, [], ◌∷◌, ◌++◌,
  length, arith,
}
use accelio.Message.{Msg}
use accelio.Connection.State.{
  Conn, State, Reason, Answer, Header, sent, again, no_task, message_error, nexus_error,
  msg_flushed,
}
use accelio.Connection.Queues.{
  is_fin_req, uncount, flush_reqs, flush_rsps, flush_msgs, give_back_req, req_msgs_flush,
  notify_req_msgs_flush, give_back_rsp, rsp_msgs_flush, notify_rsp_msgs_flush, notify_msgs_flush,
}
use accelio.Connection.Send.{
  SendResult, peer_queue_size_mismatch, charge, restore, deliver, hand_over, send,
}
use accelio.Connection.Xmit.{
  Side, requests, responses, msgq, after_send, xmit_first, xmit_inl, xmit_loop, xmit_outcome, xmit,
  conn_of, first_side, second_side,
}

pub record View : Type 0 where
  pub state : State
  pub enable_flow_control : Bool
  pub fin_req_timeout : ℕ
  pub disable_notify : Bool
  pub disconnecting : Bool
  pub fin_request_flushed : Bool
  pub kref : ℕ
  pub ka_timedout : Bool
  pub fin_delayed_work : Bool
  pub timer_ok : Bool
  pub in_idr : Bool

abbrev pub view : Conn → View
view c = record {
  state = c.state;
  enable_flow_control = c.enable_flow_control;
  fin_req_timeout = c.fin_req_timeout;
  disable_notify = c.disable_notify;
  disconnecting = c.disconnecting;
  fin_request_flushed = c.fin_request_flushed;
  kref = c.kref;
  ka_timedout = c.ka_timedout;
  fin_delayed_work = c.fin_delayed_work;
  timer_ok = c.timer_ok;
  in_idr = c.in_idr;
}

-- No FIN waits among the messages.
abbrev pub no_fin : List Msg → Bool
no_fin [] = true
no_fin (m ∷ ms) = not (is_fin_req m.type) && no_fin ms

pub no_fin-append : (xs ys : List Msg) → no_fin (xs ++ ys) ≡ (no_fin xs && no_fin ys)
no_fin-append [] ys = refl
no_fin-append (m ∷ xs) ys = ground (arith, no_fin-append xs ys)

view-charge : (c : Conn) (m : Msg) → view (charge c m) ≡ view c
unfolding charge
view-charge c m = ground arith

view-restore : (c : Conn) (m : Msg) (h : Header) → view (restore c m h) ≡ view c
unfolding restore
view-restore c m h = ground arith

view-deliver :
    (a : Answer) (m : Msg) (h : Header) (c0 c1 : Conn)
    → view c1 ≡ view c0
    → view (deliver a m h c0 c1).1 ≡ view c0
unfolding deliver
view-deliver sent m h c0 c1 e = e
view-deliver again m h c0 c1 e = view-restore c1 m h ∙ e
view-deliver message_error m h c0 c1 e = view-restore c1 m h ∙ e
view-deliver nexus_error m h c0 c1 e = view-restore c1 m h ∙ e
view-deliver no_task m h c0 c1 e = ground (arith, view-restore c1 m h)

view-hand_over : (c : Conn) (m : Msg) → view (hand_over c m).1 ≡ view c
unfolding hand_over
view-hand_over c m = view-deliver _ m _ _ _ (view-charge _ m)

pub view-send : (c : Conn) (m : Msg) → view (send c m).1 ≡ view c
unfolding send
view-send c m = ground (arith, view-hand_over c m)

result-deliver :
    (a : Answer) (m : Msg) (h : Header) (c0 c1 : Conn)
    → (deliver a m h c0 c1).0 ≢ peer_queue_size_mismatch
unfolding deliver
result-deliver a m h c0 c1 = ground arith

result-hand_over : (c : Conn) (m : Msg) → (hand_over c m).0 ≢ peer_queue_size_mismatch
unfolding hand_over
result-hand_over c m = result-deliver _ m _ _ _

-- Without flow control no message is too long for the peer.
result-send :
    (c : Conn) (m : Msg) → c.enable_flow_control ≡ false → (send c m).0 ≢ peer_queue_size_mismatch
unfolding send
result-send c m off = ground (arith, result-hand_over c m)

view-after_send :
    (side : Side) (m : Msg) (r : SendResult) (retry : ℕ) (c : Conn)
    → r ≢ peer_queue_size_mismatch
    → view (after_send side m r retry c).conn ≡ view c
unfolding after_send
view-after_send requests m r retry c h = ground arith
view-after_send responses m r retry c h = ground arith

view-xmit_first :
    (side : Side) (retry : ℕ) (c : Conn) (ms : List Msg)
    → c.enable_flow_control ≡ false
    → view (xmit_first side retry c ms).conn ≡ view c
unfolding xmit_first
view-xmit_first side retry c [] off = refl
view-xmit_first side retry c (m ∷ ms) off =
    view-after_send side m (send c m).0 retry (send c m).1 (result-send c m off) ∙ view-send c m

view-xmit_inl :
    (side : Side) (retry : ℕ) (c : Conn)
    → c.enable_flow_control ≡ false
    → view (xmit_inl side retry c).conn ≡ view c
unfolding xmit_inl
view-xmit_inl side retry c off = view-xmit_first side retry c (msgq side c) off

loop_cases :
    (first second : Side) (retry fuel : ℕ) (c c0 : Conn)
    → let t1 = xmit_inl first retry c in
      let t2 = xmit_inl second t1.retry_cnt t1.conn in
      view t1.conn ≡ view c0
      → view t2.conn ≡ view c0
      → view c ≡ view c0
      → view (conn_of c0 (xmit_loop fuel first second t2.retry_cnt t2.conn)) ≡ view c0
      → view (conn_of c0 (xmit_loop (suc fuel) first second retry c)) ≡ view c0
unfolding xmit_loop
loop_cases first second retry fuel c c0 v1 v2 v3 rest = ground arith

view-xmit_loop :
    (fuel : ℕ) (first second : Side) (retry : ℕ) (c c0 : Conn)
    → view c ≡ view c0
    → c.enable_flow_control ≡ false
    → view (conn_of c0 (xmit_loop fuel first second retry c)) ≡ view c0
unfolding xmit_loop
view-xmit_loop zero first second retry c c0 e off = refl
view-xmit_loop (suc fuel) first second retry c c0 e off =
    let t1 = xmit_inl first retry c in
    let t2 = xmit_inl second t1.retry_cnt t1.conn in
    let v1 = view-xmit_inl first retry c off in
    let off1 : t1.conn.enable_flow_control ≡ false =
      ap (λ (v : View). v.enable_flow_control) v1 ∙ off in
    let v2 = view-xmit_inl second t1.retry_cnt t1.conn off1 in
    let off2 : t2.conn.enable_flow_control ≡ false =
      ap (λ (v : View). v.enable_flow_control) v2 ∙ off1 in
    let rest = view-xmit_loop fuel first second t2.retry_cnt t2.conn c0 (v2 ∙ v1 ∙ e) off2 in
    loop_cases first second retry fuel c c0 (v1 ∙ e) (v2 ∙ v1 ∙ e) e rest

-- Without flow control a transmission leaves the view alone.
pub view-xmit : (c : Conn) → c.enable_flow_control ≡ false → view (xmit c) ≡ view c
unfolding xmit xmit_outcome
view-xmit c off = view-xmit_loop (length c.nexus + 2) (first_side c) (second_side c) 0 c c refl off

view-give_back_rsp : (s : Reason) (m : Msg) (c : Conn) → view (give_back_rsp s m c) ≡ view c
unfolding give_back_rsp
view-give_back_rsp s m c = ground arith

pub view-rsp_msgs_flush :
    (s : Reason) (ms : List Msg) (c : Conn) → view (rsp_msgs_flush s ms c) ≡ view c
unfolding rsp_msgs_flush
view-rsp_msgs_flush s [] c = refl
view-rsp_msgs_flush s (m ∷ ms) c =
    view-rsp_msgs_flush s ms (give_back_rsp s m c) ∙ view-give_back_rsp s m c

view-give_back_req :
    (s : Reason) (m : Msg) (c : Conn)
    → is_fin_req m.type ≡ false
    → view (give_back_req s m c) ≡ view c
unfolding give_back_req
view-give_back_req s m c h = ground arith

view-req_msgs_flush :
    (s : Reason) (ms : List Msg) (c : Conn)
    → no_fin ms ≡ true
    → view (req_msgs_flush s ms c) ≡ view c
unfolding req_msgs_flush
view-req_msgs_flush s [] c h = refl
view-req_msgs_flush s (m ∷ ms) c h =
    view-req_msgs_flush s ms (give_back_req s m c) (ground arith)
    ∙ view-give_back_req s m c (ground arith)

-- A flush of requests among which no FIN waits leaves the view alone.
pub view-notify_req :
    (s : Reason) (c : Conn) → no_fin c.reqs_msgq ≡ true → view (notify_req_msgs_flush s c) ≡ view c
unfolding notify_req_msgs_flush
view-notify_req s c h = view-req_msgs_flush s c.reqs_msgq c h

pub view-notify_msgs_flush :
    (c : Conn) → no_fin c.reqs_msgq ≡ true → view (notify_msgs_flush c) ≡ view c
unfolding notify_msgs_flush notify_rsp_msgs_flush
view-notify_msgs_flush c h =
    view-rsp_msgs_flush msg_flushed (notify_req_msgs_flush msg_flushed c).rsps_msgq
      (notify_req_msgs_flush msg_flushed c)
    ∙ view-notify_req msg_flushed c h

view-flush_reqs :
    (ms moved queued : List Msg) (c : Conn) → view (flush_reqs ms moved queued c) ≡ view c
unfolding flush_reqs
view-flush_reqs [] moved queued c = refl
view-flush_reqs (m ∷ ms) moved queued c =
    view-flush_reqs ms (moved ++ (m ∷ [])) queued (uncount c m) ∙ view-uncount
  where
    view-uncount : view (uncount c m) ≡ view c
    view-uncount = ground arith

view-flush_rsps :
    (ms moved queued : List Msg) (c : Conn) → view (flush_rsps ms moved queued c) ≡ view c
unfolding flush_rsps
view-flush_rsps [] moved queued c = refl
view-flush_rsps (m ∷ ms) moved queued c = view-flush_rsps ms (moved ++ (m ∷ [])) queued c

pub view-flush_msgs : (c : Conn) → view (flush_msgs c) ≡ view c
unfolding flush_msgs
view-flush_msgs c =
    view-flush_rsps _ [] _ _ ∙ view-flush_reqs c.in_flight_reqs_msgq [] c.reqs_msgq c
