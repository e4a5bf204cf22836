-- ===== src/Connection/Xmit/Rounds.antt =====
-- How many rounds the loop of xio_connection_xmit makes, by the messages that are queued.
use accelio.Prelude.{
  ℕ, zero, suc, ◌+◌, ◌≤◌, ◌<◌, ◌≡◌, ◌⊎◌, inl, inr, refl, ap, sym, subst, ◌∙◌, if◌then◌else◌, not,
  ltb, Bool, true, false, List, [], ◌∷◌, length, arith,
}
use accelio.Message.{Msg}
use accelio.Connection.State.{
  Conn, Reason, Answer, Header, sent, again, no_task, message_error, nexus_error,
  peer_queue_size_mismatch,
}
use accelio.Connection.Queues.{
  give_back_req, give_back_rsp, req_msgs_flush, rsp_msgs_flush, notify_req_msgs_flush,
  notify_rsp_msgs_flush,
}
use accelio.Connection.Queues.Flush.{nexus-notify_req, nexus-notify_rsp}
use accelio.Connection.Send.{
  SendResult, ok, eagain, enomsg, enomem, failure, charge, restore, deliver, hand_over, send,
  next_answer, later_answers, header_of,
}
use accelio.Connection.Send.Moves.{nexus-hand_over}
use accelio.Connection.Xmit.{
  Side, requests, responses, msgq, Turn, after_send, xmit_first, xmit_inl, xmit_loop, Outcome,
  finished, xmit_outcome, first_side, second_side, is_broken,
}
use accelio.Connection.Xmit.Termination.{Returns, xmit_outcome-Returns}

-- No answer of the outside is an error of a message, after which that message is tried again.
abbrev pub calm : List Answer → Bool
calm [] = true
calm (message_error ∷ answers) = false
calm (a ∷ answers) = calm answers

-- The messages that wait.
abbrev pub waiting : Conn → ℕ
waiting c = length c.reqs_msgq + length c.rsps_msgq

-- The two queues are as they were.
record Same (c c' : Conn) : Type 0 where
  reqs : c'.reqs_msgq ≡ c.reqs_msgq
  rsps : c'.rsps_msgq ≡ c.rsps_msgq

charge-Same : (c : Conn) (m : Msg) → Same c (charge c m)
unfolding charge
charge-Same c m = record { reqs = ground arith; rsps = ground arith }

restore-Same : (c c1 : Conn) (m : Msg) (h : Header) → Same c c1 → Same c (restore c1 m h)
unfolding restore
restore-Same c c1 m h s = record { reqs = ground (arith, s.reqs); rsps = ground (arith, s.rsps) }

abbrev is_enomsg : SendResult → Bool
is_enomsg enomsg = true
is_enomsg _ = false

abbrev tolerable : Answer → Bool
tolerable message_error = false
tolerable _ = true

deliver-Same :
    (a : Answer) (m : Msg) (h : Header) (c0 c1 : Conn)
    → Same c0 c1
    → Same c0 (deliver a m h c0 c1).1
unfolding deliver
deliver-Same sent m h c0 c1 s = record { reqs = s.reqs; rsps = s.rsps }
deliver-Same again m h c0 c1 s = restore-Same c0 c1 m h s
deliver-Same message_error m h c0 c1 s = restore-Same c0 c1 m h s
deliver-Same nexus_error m h c0 c1 s = restore-Same c0 c1 m h s
deliver-Same no_task m h c0 c1 s =
    let r = restore-Same c0 c1 m h s in
    record { reqs = ground (arith, r.reqs); rsps = ground (arith, r.rsps) }

deliver-result :
    (a : Answer) (m : Msg) (h : Header) (c0 c1 : Conn)
    → tolerable a ≡ true
    → is_enomsg (deliver a m h c0 c1).0 ≡ false
unfolding deliver
deliver-result sent m h c0 c1 t = refl
deliver-result again m h c0 c1 t = refl
deliver-result message_error m h c0 c1 t = absurd (cc)
deliver-result nexus_error m h c0 c1 t = refl
deliver-result no_task m h c0 c1 t = ground arith

calm-later : (l : List Answer) → calm l ≡ true → calm (later_answers l) ≡ true
calm-later [] h = refl
calm-later (sent ∷ l) h = h
calm-later (again ∷ l) h = h
calm-later (no_task ∷ l) h = h
calm-later (nexus_error ∷ l) h = h
calm-later (message_error ∷ l) h = absurd (cc)

calm-next : (l : List Answer) → calm l ≡ true → tolerable (next_answer l) ≡ true
calm-next [] h = refl
calm-next (sent ∷ l) h = refl
calm-next (again ∷ l) h = refl
calm-next (no_task ∷ l) h = refl
calm-next (nexus_error ∷ l) h = refl
calm-next (message_error ∷ l) h = absurd (cc)

-- A send leaves the queues alone, asks the outside at most once, and is not told ENOMSG.
record Kept (c : Conn) (r : SendResult) (c' : Conn) : Type 0 where
  reqs : c'.reqs_msgq ≡ c.reqs_msgq
  rsps : c'.rsps_msgq ≡ c.rsps_msgq
  calmly : calm c'.nexus ≡ true
  result : is_enomsg r ≡ false

hand_over-Kept :
    (c : Conn) (m : Msg) → calm c.nexus ≡ true → Kept c (hand_over c m).0 (hand_over c m).1
unfolding hand_over
hand_over-Kept c m h =
    let c0 = record c { nexus = later_answers c.nexus } in
    let s =
      deliver-Same (next_answer c.nexus) m (header_of c0 m) c0 (charge c0 m) (charge-Same c0 m) in
    record {
      reqs = s.reqs;
      rsps = s.rsps;
      calmly = ap calm (unfold hand_over in nexus-hand_over c m) ∙ calm-later c.nexus h;
      result =
          deliver-result (next_answer c.nexus) m (header_of c0 m) c0 (charge c0 m)
            (calm-next c.nexus h);
    }

send-Kept : (c : Conn) (m : Msg) → calm c.nexus ≡ true → Kept c (send c m).0 (send c m).1
unfolding send
send-Kept c m h =
    let k = hand_over-Kept c m h in
    record {
      reqs = ground (arith, k.reqs);
      rsps = ground (arith, k.rsps);
      calmly = ground (arith, h, k.calmly);
      result = ground (arith, k.result);
    }

-- What a flush leaves of a queue: nothing, and the other queue as it was.
flushed_reqs :
    (s : Reason) (ms : List Msg) (c : Conn)
    → ((req_msgs_flush s ms c).reqs_msgq ≡ []) × ((req_msgs_flush s ms c).rsps_msgq ≡ c.rsps_msgq)
unfolding req_msgs_flush give_back_req
flushed_reqs s [] c = (refl, refl)
flushed_reqs s (m ∷ ms) c =
    let (a, b) = flushed_reqs s ms (give_back_req s m c) in (a, b ∙ ground arith)

flushed_rsps :
    (s : Reason) (ms : List Msg) (c : Conn)
    → ((rsp_msgs_flush s ms c).rsps_msgq ≡ []) × ((rsp_msgs_flush s ms c).reqs_msgq ≡ c.reqs_msgq)
unfolding rsp_msgs_flush give_back_rsp
flushed_rsps s [] c = (refl, refl)
flushed_rsps s (m ∷ ms) c =
    let (a, b) = flushed_rsps s ms (give_back_rsp s m c) in (a, b ∙ ground arith)

-- A turn takes a message off its queue, or is blocked, or ends the loop.
abbrev Shrinks : ℕ → Conn → Turn → Type 0
Shrinks retry c t =
    (calm t.conn.nexus ≡ true)
    × ((is_broken t.result ≡ true)
        ⊎ ((waiting t.conn < waiting c)
            ⊎ ((waiting t.conn ≤ waiting c) × (t.retry_cnt ≡ retry + 1))))

after_send-Shrinks :
    (side : Side) (m : Msg) (ms : List Msg) (r : SendResult) (retry : ℕ) (c c' : Conn)
    → msgq side c ≡ m ∷ ms
    → Kept c r c'
    → Shrinks retry c (after_send side m r retry c')
unfolding after_send notify_req_msgs_flush notify_rsp_msgs_flush
after_send-Shrinks requests m ms ok retry c c' e k =
    let r : c'.reqs_msgq ≡ m ∷ ms = k.reqs ∙ e in
    (
      ground (arith, k.calmly),
      inr (inl (ground (arith, r, ap length k.reqs, ap length k.rsps, ap length e))),
    )
after_send-Shrinks responses m ms ok retry c c' e k =
    let r : c'.rsps_msgq ≡ m ∷ ms = k.rsps ∙ e in
    (
      ground (arith, k.calmly),
      inr (inl (ground (arith, r, ap length k.reqs, ap length k.rsps, ap length e))),
    )
after_send-Shrinks requests m ms eagain retry c c' e k =
    (k.calmly, inr (inr (omega (arith, ap length k.reqs, ap length k.rsps), refl)))
after_send-Shrinks responses m ms eagain retry c c' e k =
    (k.calmly, inr (inr (omega (arith, ap length k.reqs, ap length k.rsps), refl)))
after_send-Shrinks requests m ms enomsg retry c c' e k = absurd (ground (arith, k.result))
after_send-Shrinks responses m ms enomsg retry c c' e k = absurd (ground (arith, k.result))
after_send-Shrinks requests m ms SendResult.peer_queue_size_mismatch retry c c' e k =
    let f = flushed_reqs peer_queue_size_mismatch c'.reqs_msgq c' in
    (
      ap calm (nexus-notify_req peer_queue_size_mismatch c') ∙ k.calmly,
      inr (
          inr (
            omega (arith, ap length f.0, ap length f.1, ap length k.reqs, ap length k.rsps),
            refl,
          )),
    )
after_send-Shrinks responses m ms SendResult.peer_queue_size_mismatch retry c c' e k =
    let f = flushed_rsps peer_queue_size_mismatch c'.rsps_msgq c' in
    (
      ap calm (nexus-notify_rsp peer_queue_size_mismatch c') ∙ k.calmly,
      inr (
          inr (
            omega (arith, ap length f.0, ap length f.1, ap length k.reqs, ap length k.rsps),
            refl,
          )),
    )
after_send-Shrinks requests m ms enomem retry c c' e k = (k.calmly, inl refl)
after_send-Shrinks responses m ms enomem retry c c' e k = (k.calmly, inl refl)
after_send-Shrinks requests m ms failure retry c c' e k = (k.calmly, inl refl)
after_send-Shrinks responses m ms failure retry c c' e k = (k.calmly, inl refl)

xmit_first-Shrinks :
    (side : Side) (retry : ℕ) (c : Conn) (ms : List Msg)
    → msgq side c ≡ ms
    → calm c.nexus ≡ true
    → Shrinks retry c (xmit_first side retry c ms)
unfolding xmit_first
xmit_first-Shrinks side retry c [] e h = (h, inr (inr (omega arith, refl)))
xmit_first-Shrinks side retry c (m ∷ ms) e h =
    after_send-Shrinks side m ms (send c m).0 retry c (send c m).1 e (send-Kept c m h)

xmit_inl-Shrinks :
    (side : Side) (retry : ℕ) (c : Conn)
    → calm c.nexus ≡ true
    → Shrinks retry c (xmit_inl side retry c)
unfolding xmit_inl
xmit_inl-Shrinks side retry c h = xmit_first-Shrinks side retry c (msgq side c) refl h

-- The fuel covers the messages that wait, or the loop is about to end.
abbrev Enough : ℕ → ℕ → Conn → Type 0
Enough fuel retry c = (waiting c + 2 ≤ fuel) ⊎ ((2 ≤ retry) × (1 ≤ fuel))

rounds-Returns :
    (fuel : ℕ) (first second : Side) (retry : ℕ) (c : Conn)
    → calm c.nexus ≡ true
    → Enough fuel retry c
    → Returns (xmit_loop fuel first second retry c)
unfolding xmit_loop
rounds-Returns zero first second retry c k h = absurd (omega arith)
rounds-Returns (suc fuel) first second retry c k h =
    let t1 = xmit_inl first retry c in
    let t2 = xmit_inl second t1.retry_cnt t1.conn in
    let s1 = xmit_inl-Shrinks first retry c k in
    let s2 = xmit_inl-Shrinks second t1.retry_cnt t1.conn s1.0 in
    ground (arith, h, s1, s2, rounds-Returns fuel first second t2.retry_cnt t2.conn s2.0)

abbrev choose : Bool → Bool → Bool → Outcome → Outcome → Outcome → Outcome → Outcome
choose a b d x y z r = if a then x else if b then y else if d then z else r

choose_same :
    (a b d : Bool) (x y z r r' : Outcome)
    → (Returns r → r' ≡ r)
    → Returns (choose a b d x y z r)
    → choose a b d x y z r' ≡ choose a b d x y z r
choose_same true b d x y z r r' f h = refl
choose_same false true d x y z r r' f h = refl
choose_same false false true x y z r r' f h = refl
choose_same false false false x y z r r' f h = f h

-- More fuel changes nothing for a loop that ends.
more_fuel :
    (fuel : ℕ) (first second : Side) (retry : ℕ) (c : Conn)
    → Returns (xmit_loop fuel first second retry c)
    → xmit_loop (suc fuel) first second retry c ≡ xmit_loop fuel first second retry c
unfolding xmit_loop
more_fuel zero first second retry c r = absurd r
more_fuel (suc fuel) first second retry c r =
    let t1 = xmit_inl first retry c in
    let t2 = xmit_inl second t1.retry_cnt t1.conn in
    choose_same (not (ltb retry 2)) (is_broken t1.result) (is_broken t2.result) (finished true c)
      (finished false (record t1.conn { send_req_toggle = not t1.conn.send_req_toggle }))
      (finished false t2.conn) (xmit_loop fuel first second t2.retry_cnt t2.conn)
      (xmit_loop (suc fuel) first second t2.retry_cnt t2.conn)
      (more_fuel fuel first second t2.retry_cnt t2.conn) r

extra_fuel :
    (k fuel : ℕ) (first second : Side) (retry : ℕ) (c : Conn)
    → Returns (xmit_loop fuel first second retry c)
    → xmit_loop (k + fuel) first second retry c ≡ xmit_loop fuel first second retry c
extra_fuel zero fuel first second retry c r =
    ap (λ n. xmit_loop n first second retry c) (omega arith)
extra_fuel (suc k) fuel first second retry c r =
    let e = extra_fuel k fuel first second retry c r in
    ap (λ n. xmit_loop n first second retry c) (omega arith)
    ∙ more_fuel (k + fuel) first second retry c (subst Returns (sym e) r)
    ∙ e

-- When no answer of the outside is the error of a message, the loop of xio_connection_xmit ends within
-- two rounds more than there are messages in the two queues, however many answers there are: with that
-- many rounds it returns, and what it returns is the result of `xmit_outcome`.
pub xmit_rounds :
    (c : Conn)
    → calm c.nexus ≡ true
    → let fuel = length c.reqs_msgq + length c.rsps_msgq + 2 in
      Returns (xmit_loop fuel (first_side c) (second_side c) 0 c)
      × (xmit_outcome c ≡ xmit_loop fuel (first_side c) (second_side c) 0 c)
unfolding xmit_outcome
xmit_rounds c h =
    let f = first_side c in
    let s = second_side c in
    let n = length c.reqs_msgq + length c.rsps_msgq + 2 in
    let m = length c.nexus + 2 in
    let r = rounds-Returns n f s 0 c h (inl (omega arith)) in
    let q = xmit_outcome-Returns c in
    (
      r,
      sym (extra_fuel n m f s 0 c q)
          ∙ ap (λ k. xmit_loop k f s 0 c) (omega arith)
          ∙ extra_fuel m n f s 0 c r,
    )
