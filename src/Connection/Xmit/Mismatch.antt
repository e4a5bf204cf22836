-- ===== src/Connection/Xmit/Mismatch.antt =====
-- A message that is larger than the peer's receive queue.
use accelio.Prelude.{
  ℕ, ◌<◌, Bool, true, false, ◌&&◌, ◌≡◌, refl, ap, ◌∙◌, List, [], ◌∷◌, ◌==◌, arith, subst, sym, ltb,
  if◌then◌else◌,
}
use accelio.Message.{Msg, is_application_msg}
use accelio.Connection.State.{Conn, Reason}
use accelio.Connection.Queues.{give_back_req, req_msgs_flush, notify_req_msgs_flush}
use accelio.Connection.Send.{SendResult, send, peer_queue_size_mismatch}
use accelio.Connection.Xmit.{requests, after_send, xmit_first, xmit_inl, blocked}

-- The counters of the send queue.
abbrev pub counters : Conn → ℕ × ℕ
counters c = (c.tx_queued_msgs, c.tx_bytes)

counters-req_msgs_flush :
    (s : Reason) (ms : List Msg) (c : Conn)
    → ((req_msgs_flush s ms c).reqs_msgq ≡ []) × (counters (req_msgs_flush s ms c) ≡ counters c)
unfolding req_msgs_flush
counters-req_msgs_flush s [] c = (refl, refl)
counters-req_msgs_flush s (m ∷ ms) c =
    let (a, b) = counters-req_msgs_flush s ms (give_back_req s m c) in (a, b ∙ step)
  where
    step : counters (give_back_req s m c) ≡ counters c
    step = ground arith

send-mismatch :
    (c : Conn) (m : Msg)
    → is_application_msg m.type ≡ true
    → c.enable_flow_control ≡ true
    → (c.peer_credits_msgs == 0) ≡ false
    → c.peer_rcv_queue_depth_bytes < m.tx_bytes
    → send c m ≡ (peer_queue_size_mismatch, c)
unfolding send
send-mismatch c m a f p h =
    choose (is_application_msg m.type) c.enable_flow_control (c.peer_credits_msgs == 0)
      (ltb c.peer_rcv_queue_depth_bytes m.tx_bytes) _ _ _ _ a f p
      (ltb-true c.peer_rcv_queue_depth_bytes m.tx_bytes h)
  where
    choose :
        (x g z l : Bool) (e r t d : SendResult × Conn)
        → x ≡ true
        → g ≡ true
        → z ≡ false
        → l ≡ true
        → (if x && g then (if z then e else if l then r else t) else d) ≡ r
    choose x g z l e r t d i j k n = rw (i, j, k, n) refl

    ltb-true : (i j : ℕ) → i < j → ltb i j ≡ true
    ltb-true i j k = ground (arith, k)

-- Under flow control, when the first request is an application's message that is larger than the
-- peer's receive queue, and the peer has a place, the transmission gives back every request of the
-- queue, and blocks; none of them is taken out of the counters of the send queue.
pub mismatch_flush_leaks :
    (c : Conn) (m : Msg) (ms : List Msg) (retry : ℕ)
    → c.reqs_msgq ≡ m ∷ ms
    → is_application_msg m.type ≡ true
    → c.enable_flow_control ≡ true
    → (c.peer_credits_msgs == 0) ≡ false
    → c.peer_rcv_queue_depth_bytes < m.tx_bytes
    → let t = xmit_inl requests retry c in
      (t.result ≡ blocked) × (t.conn.reqs_msgq ≡ []) × (counters t.conn ≡ counters c)
unfolding xmit_inl xmit_first after_send notify_req_msgs_flush
mismatch_flush_leaks c m ms retry q a f p h =
    let flushed = counters-req_msgs_flush Reason.peer_queue_size_mismatch c.reqs_msgq c in
    subst (λ t. (t.result ≡ blocked) × (t.conn.reqs_msgq ≡ []) × (counters t.conn ≡ counters c))
      (sym (
        ap (xmit_first requests retry c) q
        ∙ ap (λ r. after_send requests m r.0 retry r.1) (send-mismatch c m a f p h)))
      (refl, flushed.0, flushed.1)
