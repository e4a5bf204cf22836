-- ===== src/Connection/Send/Failure.antt =====
-- What a failed send leaves behind.
use accelio.Prelude.{ℕ, ◌<◌, ◌^◌, false, ◌≡◌, ◌≢◌, refl, arith}
use accelio.Message.{Msg}
use accelio.Connection.State.{
  Conn, Header, Answer, sent, again, no_task, message_error, nexus_error,
}
use accelio.Connection.Send.{
  ok, send, hand_over, deliver, charge, restore, header_of, is_rdma, next_answer, later_answers,
}

-- The credits of both directions.
pub record Credits : Type 0 where
  pub msgs : ℕ
  pub bytes : ℕ
  pub peer_msgs : ℕ
  pub peer_bytes : ℕ

abbrev pub credits : Conn → Credits
credits c = record {
  msgs = c.credits_msgs;
  bytes = c.credits_bytes;
  peer_msgs = c.peer_credits_msgs;
  peer_bytes = c.peer_credits_bytes;
}

-- The peer's credits are in the range of their types.
abbrev pub InRange : Conn → Type 0
InRange c = (c.peer_credits_msgs < 2 ^ 16) × (c.peer_credits_bytes < 2 ^ 64)

restore-charge :
    (c : Conn) (m : Msg)
    → is_rdma m.type ≡ false
    → InRange c
    → m.tx_bytes < 2 ^ 64
    → credits (restore (charge c m) m (header_of c m)) ≡ credits c
unfolding restore charge
restore-charge c m h r b = ground arith

credits-deliver :
    (a : Answer) (m : Msg) (h : Header) (c c0 c1 : Conn)
    → credits (restore c1 m h) ≡ credits c
    → credits c0 ≡ credits c
    → (deliver a m h c0 c1).0 ≢ ok
    → credits (deliver a m h c0 c1).1 ≡ credits c
unfolding deliver
credits-deliver sent m h c c0 c1 e f n = absurd (n refl)
credits-deliver again m h c c0 c1 e f n = e
credits-deliver message_error m h c c0 c1 e f n = e
credits-deliver nexus_error m h c c0 c1 e f n = e
credits-deliver no_task m h c c0 c1 e f n = ground (arith, e, f)

credits-hand_over :
    (c : Conn) (m : Msg)
    → is_rdma m.type ≡ false
    → InRange c
    → m.tx_bytes < 2 ^ 64
    → (hand_over c m).0 ≢ ok
    → credits (hand_over c m).1 ≡ credits c
unfolding hand_over
credits-hand_over c m h r b n =
    let c0 = record c { nexus = later_answers c.nexus } in
    credits-deliver (next_answer c.nexus) m (header_of c0 m) c c0 (charge c0 m)
      (restore-charge c0 m h r b) refl n

-- A send that fails, for whatever reason, leaves the credits of both directions as they were, for
-- every message but those of type RDMA.
pub failed_send_keeps_credits :
    (c : Conn) (m : Msg)
    → is_rdma m.type ≡ false
    → InRange c
    → m.tx_bytes < 2 ^ 64
    → (send c m).0 ≢ ok
    → credits (send c m).1 ≡ credits c
unfolding send
failed_send_keeps_credits c m h r b n = ground (arith, credits-hand_over c m)
