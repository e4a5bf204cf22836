-- ===== src/Connection/Receive/Channel.antt =====
-- Two ends with the requests between them, each channel in order.
use accelio.Prelude.{u16, ◌+◌, ◌<◌, ◌^◌, Bool, true, false, ◌≡◌, arith, ◌==◌, Bool-cases, inl, inr}
use accelio.Message.{Msg, is_request, is_application_msg}
use accelio.Connection.State.{
  Conn, Header, Answer, sent, again, no_task, message_error, nexus_error,
}
use accelio.Connection.Send.{
  ok, send, hand_over, deliver, charge, header_of, carries_credits, next_answer, later_answers,
}

-- A request on its way: its header, and whether it is a credits ack.
pub record Packet : Type 0 where
  pub hdr : Header
  pub is_ack : Bool

-- What a sent request changes at its sender.
pub record Charged (c c' : Conn) : Type 0 where
  pub flow : c'.enable_flow_control ≡ c.enable_flow_control
  pub sn : c'.req_sn ≡ u16 (c.req_sn + 1)
  pub exp_sn : c'.req_exp_sn ≡ c.req_exp_sn
  pub given : c'.credits_msgs ≡ 0
  pub taken : c.peer_credits_msgs ≡ c'.peer_credits_msgs + 1

-- A request that carries credits. A credits ack, of which xio_connection_send does not ask whether
-- the peer has a place for it, must have one.
pub record Sendable (c : Conn) (m : Msg) : Type 0 where
  pub flow : c.enable_flow_control ≡ true
  pub request : is_request m.type ≡ true
  pub carries : carries_credits m.type ≡ true
  pub ack_place : is_application_msg m.type ≡ false → (c.peer_credits_msgs == 0) ≡ false
  pub bound : c.peer_credits_msgs < 2 ^ 16

-- A request that the peer has a place for.
record Placed (c : Conn) (m : Msg) : Type 0 where
  flow : c.enable_flow_control ≡ true
  request : is_request m.type ≡ true
  carries : carries_credits m.type ≡ true
  place : (c.peer_credits_msgs == 0) ≡ false
  bound : c.peer_credits_msgs < 2 ^ 16

charge-Charged : (c : Conn) (m : Msg) → Placed c m → Charged c (charge c m)
unfolding charge
charge-Charged c m s = ground (arith, s.flow, s.request, s.carries, s.place, s.bound)

Charged-deliver :
    (a : Answer) (m : Msg) (h : Header) (c c0 c1 : Conn)
    → Charged c c1
    → (deliver a m h c0 c1).0 ≡ ok
    → Charged c (deliver a m h c0 c1).1
unfolding deliver
Charged-deliver sent m h c c0 c1 k e = record {
  flow = k.flow;
  sn = k.sn;
  exp_sn = k.exp_sn;
  given = k.given;
  taken = k.taken;
}
Charged-deliver again m h c c0 c1 k e = ground arith
Charged-deliver message_error m h c c0 c1 k e = ground arith
Charged-deliver nexus_error m h c c0 c1 k e = ground arith
Charged-deliver no_task m h c c0 c1 k e = ground arith

Charged-hand_over :
    (c : Conn) (m : Msg) → Placed c m → (hand_over c m).0 ≡ ok → Charged c (hand_over c m).1
unfolding hand_over
Charged-hand_over c m s e =
    let c0 = record c { nexus = later_answers c.nexus } in
    Charged-deliver (next_answer c.nexus) m (header_of c0 m) c c0 (charge c0 m)
      (at_c (charge c0 m) (charge-Charged c0 m s0)) e
  where
    s0 : Placed (record c { nexus = later_answers c.nexus }) m
    s0 = record {
      flow = s.flow;
      request = s.request;
      carries = s.carries;
      place = s.place;
      bound = s.bound;
    }

    at_c : (d : Conn) → Charged (record c { nexus = later_answers c.nexus }) d → Charged c d
    at_c d k = record {
      flow = k.flow;
      sn = k.sn;
      exp_sn = k.exp_sn;
      given = k.given;
      taken = k.taken;
    }

placed : (c : Conn) (m : Msg) → Sendable c m → (c.peer_credits_msgs == 0) ≡ false → Placed c m
placed c m s p = record {
  flow = s.flow;
  request = s.request;
  carries = s.carries;
  place = p;
  bound = s.bound;
}

-- With no place at the peer, a message of the application is not sent.
refused_without_place :
    (c : Conn) (m : Msg)
    → c.enable_flow_control ≡ true
    → is_application_msg m.type ≡ true
    → (c.peer_credits_msgs == 0) ≡ true
    → (send c m).0 ≡ ok
    → ⊥
unfolding send
refused_without_place c m f a z e = ground (arith, f, a, z, e)

sent-Placed : (c : Conn) (m : Msg) → Sendable c m → (send c m).0 ≡ ok → Placed c m
sent-Placed c m s e = elim (Bool-cases (is_application_msg m.type)) [
  | inr a ↦ placed c m s (s.ack_place a)
  | inl a ↦ elim (Bool-cases (c.peer_credits_msgs == 0)) [
    | inl z ↦ absurd (refused_without_place c m s.flow a z e)
    | inr z ↦ placed c m s z
  ]
]

send-Placed : (c : Conn) (m : Msg) → Placed c m → (send c m).0 ≡ ok → Charged c (send c m).1
unfolding send
send-Placed c m s e = ground (arith, Charged-hand_over c m)

pub send-Charged : (c : Conn) (m : Msg) → Sendable c m → (send c m).0 ≡ ok → Charged c (send c m).1
send-Charged c m s e = send-Placed c m (sent-Placed c m s e) e

pub sn_of : (c : Conn) (m : Msg) → Sendable c m → (header_of c m).sn ≡ c.req_sn
sn_of c m s = ground (arith, s.request, s.carries)

pub credits_of : (c : Conn) (m : Msg) → Sendable c m → (header_of c m).credits_msgs ≡ c.credits_msgs
credits_of c m s = ground (arith, s.flow, s.carries)
