-- ===== src/Connection/Send/Moves.antt =====
-- A send uses up an answer of the outside or is blocked.
use accelio.Prelude.{◌<◌, ◌≡◌, ◌⊎◌, ◌∙◌, [], length, arith}
use accelio.Message.{Msg}
use accelio.Connection.State.{
  Conn, Answer, sent, again, no_task, message_error, nexus_error, Header,
}
use accelio.Connection.Send.{
  SendResult, eagain, peer_queue_size_mismatch, charge, restore, later_answers, deliver, hand_over,
  send,
}

nexus-charge : (c : Conn) (m : Msg) → (charge c m).nexus ≡ c.nexus
unfolding charge
nexus-charge c m = ground arith

nexus-restore : (c : Conn) (m : Msg) (h : Header) → (restore c m h).nexus ≡ c.nexus
unfolding restore
nexus-restore c m h = ground arith

-- The results after which the message stays where it is and is not tried again.
abbrev pub Blocked : SendResult → Type 0
Blocked eagain = Unit
Blocked peer_queue_size_mismatch = Unit
Blocked _ = ⊥

abbrev pub Moves : Conn → SendResult × Conn → Type 0
Moves c t =
    (length t.1.nexus < length c.nexus) ⊎ ((length t.1.nexus ≡ length c.nexus) × Blocked t.0)

nexus-deliver :
    (a : Answer) (m : Msg) (h : Header) (c0 c1 : Conn)
    → c1.nexus ≡ c0.nexus
    → (deliver a m h c0 c1).1.nexus ≡ c0.nexus
unfolding deliver
nexus-deliver sent m h c0 c1 e = e
nexus-deliver again m h c0 c1 e = nexus-restore c1 m h ∙ e
nexus-deliver message_error m h c0 c1 e = nexus-restore c1 m h ∙ e
nexus-deliver nexus_error m h c0 c1 e = nexus-restore c1 m h ∙ e
nexus-deliver no_task m h c0 c1 e = ground (arith, nexus-restore c1 m h)

abbrev spend : Conn → Conn
spend c = record c { nexus = later_answers c.nexus }

pub nexus-hand_over : (c : Conn) (m : Msg) → (hand_over c m).1.nexus ≡ later_answers c.nexus
unfolding hand_over
nexus-hand_over c m = nexus-deliver _ m _ (spend c) (charge (spend c) m) (nexus-charge (spend c) m)

result-hand_over : (c : Conn) (m : Msg) → c.nexus ≡ [] → (hand_over c m).0 ≡ eagain
unfolding hand_over deliver
result-hand_over c m e = ground arith

hand_over-Moves : (c : Conn) (m : Msg) → Moves c (hand_over c m)
hand_over-Moves c m = ground (arith, nexus-hand_over c m, result-hand_over c m)

pub send-Moves : (c : Conn) (m : Msg) → Moves c (send c m)
unfolding send
send-Moves c m = ground (arith, hand_over-Moves c m)
