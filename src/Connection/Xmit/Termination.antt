-- ===== src/Connection/Xmit/Termination.antt =====
-- The loop of xio_connection_xmit ends.
use accelio.Prelude.{
  ℕ, zero, suc, ◌+◌, ◌≤◌, ◌<◌, ◌≡◌, ◌⊎◌, inl, inr, refl, List, [], ◌∷◌, length, arith,
}
use accelio.Message.{Msg}
use accelio.Connection.State.{Conn, peer_queue_size_mismatch}
use accelio.Connection.Queues.Flush.{nexus-notify_req, nexus-notify_rsp}
use accelio.Connection.Send.{SendResult, send}
use accelio.Connection.Send.Moves.{Moves, send-Moves}
use accelio.Connection.Xmit.{
  Side, requests, responses, msgq, Turn, after_send, xmit_first, xmit_inl, xmit_loop, Outcome,
  finished, out_of_fuel, xmit_outcome, first_side, second_side,
}

-- An answer was used up, or the attempt was blocked.
abbrev TurnMoves : ℕ → Conn → Turn → Type 0
TurnMoves retry c t =
    (length t.conn.nexus < length c.nexus)
    ⊎ ((length t.conn.nexus ≡ length c.nexus) × (t.retry_cnt ≡ retry + 1))

after_send-TurnMoves :
    (side : Side) (m : Msg) (r : SendResult) (retry : ℕ) (c c' : Conn)
    → Moves c (r, c')
    → TurnMoves retry c (after_send side m r retry c')
unfolding after_send
after_send-TurnMoves requests m r retry c c' h =
    ground (arith, nexus-notify_req peer_queue_size_mismatch c')
after_send-TurnMoves responses m r retry c c' h =
    ground (arith, nexus-notify_rsp peer_queue_size_mismatch c')

xmit_first-TurnMoves :
    (side : Side) (retry : ℕ) (c : Conn) (ms : List Msg)
    → TurnMoves retry c (xmit_first side retry c ms)
unfolding xmit_first
xmit_first-TurnMoves side retry c [] = inr (refl, refl)
xmit_first-TurnMoves side retry c (m ∷ ms) =
    after_send-TurnMoves side m (send c m).0 retry c (send c m).1 (send-Moves c m)

xmit_inl-TurnMoves :
    (side : Side) (retry : ℕ) (c : Conn) → TurnMoves retry c (xmit_inl side retry c)
unfolding xmit_inl
xmit_inl-TurnMoves side retry c = xmit_first-TurnMoves side retry c (msgq side c)

-- The loop was not stopped by its fuel.
abbrev pub Returns : Outcome → Type 0
Returns (finished r c) = Unit
Returns out_of_fuel = ⊥

-- The fuel covers the answers that are left, or the loop is about to end.
abbrev Enough : ℕ → ℕ → Conn → Type 0
Enough fuel retry c = (length c.nexus + 2 ≤ fuel) ⊎ ((2 ≤ retry) × (1 ≤ fuel))

xmit_loop-Returns :
    (fuel : ℕ) (first second : Side) (retry : ℕ) (c : Conn)
    → Enough fuel retry c
    → Returns (xmit_loop fuel first second retry c)
unfolding xmit_loop
xmit_loop-Returns zero first second retry c h = absurd (omega arith)
xmit_loop-Returns (suc fuel) first second retry c h =
    let t1 = xmit_inl first retry c in
    let t2 = xmit_inl second t1.retry_cnt t1.conn in
    ground (
      arith,
      xmit_inl-TurnMoves first retry c,
      xmit_inl-TurnMoves second t1.retry_cnt t1.conn,
      xmit_loop-Returns fuel first second t2.retry_cnt t2.conn,
    )

-- The loop of xio_connection_xmit ends, for any connection and any answers of the outside.
pub xmit_outcome-Returns : (c : Conn) → Returns (xmit_outcome c)
unfolding xmit_outcome
xmit_outcome-Returns c =
    xmit_loop-Returns (length c.nexus + 2) (first_side c) (second_side c) 0 c (inl (omega arith))
