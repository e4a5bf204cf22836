-- ===== src/Connection/Complete/Restart.antt =====
-- What completions and a reconnection do with the counters of the send queue.
use accelio.Prelude.{
  u32, ℕ, suc, ◌+◌, ◌^◌, ◌<◌, true, ◌≡◌, refl, ap, ◌∙◌, List, [], ◌∷◌, ◌++◌, if◌then◌else◌, arith,
  Bool-cases, inl, inr,
}
use accelio.Message.{Msg}
use accelio.Connection.State.{Conn}
use accelio.Connection.Queues.{is_counted, uncount, flush_reqs, flush_rsps, flush_msgs}
use accelio.Connection.Queues.Flush.{flush_msgs_queues}

-- The messages of a list that the flush uncounts.
abbrev pub uncounted : List Msg → ℕ
uncounted [] = 0
uncounted (m ∷ ms) = let rest = uncounted ms in if is_counted m.type then suc rest else rest

uncount-counter :
    (c : Conn) (m : Msg)
    → c.enable_flow_control ≡ true
    → c.tx_queued_msgs < 2 ^ 32
    → ((uncount c m).enable_flow_control ≡ true)
      × ((uncount c m).tx_queued_msgs < 2 ^ 32)
      × (u32 ((uncount c m).tx_queued_msgs + (if is_counted m.type then 1 else 0))
          ≡ c.tx_queued_msgs)
unfolding uncount
uncount-counter c m f h = (ground (arith, f), ground (arith, f, h), ground (arith, f, h))

flush_reqs-counter :
    (ms moved queued : List Msg) (c : Conn)
    → c.enable_flow_control ≡ true
    → c.tx_queued_msgs < 2 ^ 32
    → u32 ((flush_reqs ms moved queued c).tx_queued_msgs + uncounted ms) ≡ c.tx_queued_msgs
unfolding flush_reqs
flush_reqs-counter [] moved queued c f h = omega arith
flush_reqs-counter (m ∷ ms) moved queued c f h =
    let (a, b, k) = uncount-counter c m f h in
    let ih = flush_reqs-counter ms (moved ++ (m ∷ [])) queued (uncount c m) a b in
    elim (Bool-cases (is_counted m.type)) [
      | inl e ↦ ground (arith, ih, k, e)
      | inr e ↦ ground (arith, ih, k, e)
    ]

flush_rsps-counter :
    (ms moved queued : List Msg) (c : Conn)
    → (flush_rsps ms moved queued c).tx_queued_msgs ≡ c.tx_queued_msgs
unfolding flush_rsps
flush_rsps-counter [] moved queued c = refl
flush_rsps-counter (m ∷ ms) moved queued c = flush_rsps-counter ms (moved ++ (m ∷ [])) queued c

-- A reconnection puts the requests in flight back into the queue, and takes those of them that the
-- send queue's limits count out of its counter, under flow control: the counter falls by their
-- number, while all of them will be sent, and counted off, once more.
pub flush_msgs_uncounts :
    (c : Conn)
    → c.enable_flow_control ≡ true
    → c.tx_queued_msgs < 2 ^ 32
    → let c' = flush_msgs c in
      (u32 (c'.tx_queued_msgs + uncounted c.in_flight_reqs_msgq) ≡ c.tx_queued_msgs)
      × (c'.reqs_msgq ≡ c.in_flight_reqs_msgq ++ c.reqs_msgq)
unfolding flush_msgs
flush_msgs_uncounts c f h =
    let c1 = flush_reqs c.in_flight_reqs_msgq [] c.reqs_msgq c in
    let k = flush_reqs-counter c.in_flight_reqs_msgq [] c.reqs_msgq c f h in
    (
      ap (λ n. u32 (n + uncounted c.in_flight_reqs_msgq))
            (flush_rsps-counter c1.in_flight_rsps_msgq [] c1.rsps_msgq c1)
          ∙ k,
      (flush_msgs_queues c).0,
    )
