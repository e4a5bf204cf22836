-- ===== src/Connection/Receive/Link.antt =====
-- Two ends that send requests to each other with flow control.
use accelio.Prelude.{ℕ, ◌+◌, ◌≤◌, ◌≡◌, sym, List, [], ◌∷◌, ◌++◌, length, arith}
use accelio.Message.{Msg}
use accelio.Connection.State.{Conn}
use accelio.Connection.Send.{ok, send, header_of, is_ack_req}
use accelio.Connection.Receive.{add_credits}
use accelio.Connection.Receive.Channel.{Packet, Sendable, send-Charged, sn_of, credits_of}
use accelio.Connection.Receive.Window.{
  credits_in, Consecutive, Places, arrive, held_after, sent-Places, gave-Places, arrived-Places,
  got-Places, released-Places, own_release-Places,
}

pub record Link : Type 0 where
  pub a : Conn
  pub b : Conn
  pub ab : List Packet
  pub ba : List Packet
  pub held_a : ℕ
  pub held_b : ℕ

-- The packet that `send` puts on the way.
abbrev pub packet : Conn → Msg → Packet
packet c m = record { hdr = header_of c m; is_ack = is_ack_req m.type }

-- What can happen: a request is sent with success, the next packet arrives, or the application
-- releases a message that it holds.
pub data Step : Link → Link → Type 0 where
  send_a :
      (l : Link) (m : Msg)
      → Sendable l.a m
      → (send l.a m).0 ≡ ok
      → Step l (record l { a = (send l.a m).1; ab = l.ab ++ (packet l.a m ∷ []) })
  send_b :
      (l : Link) (m : Msg)
      → Sendable l.b m
      → (send l.b m).0 ≡ ok
      → Step l (record l { b = (send l.b m).1; ba = l.ba ++ (packet l.b m ∷ []) })
  arrive_b :
      (l : Link) (p : Packet) (ps : List Packet)
      → l.ab ≡ p ∷ ps
      → Step l (record l { b = arrive p l.b; ab = ps; held_b = held_after p l.held_b })
  arrive_a :
      (l : Link) (p : Packet) (ps : List Packet)
      → l.ba ≡ p ∷ ps
      → Step l (record l { a = arrive p l.a; ba = ps; held_a = held_after p l.held_a })
  release_b :
      (l : Link) (bytes held : ℕ)
      → l.held_b ≡ held + 1
      → Step l (record l { b = add_credits bytes l.b; held_b = held })
  release_a :
      (l : Link) (bytes held : ℕ)
      → l.held_a ≡ held + 1
      → Step l (record l { a = add_credits bytes l.a; held_a = held })

pub data Run (l0 : Link) : Link → Type 0 where
  begin : Run l0 l0
  then_step : {l l' : Link} → Run l0 l → Step l l' → Run l0 l'

-- Both receive queues, of `depth_a` and `depth_b` places.
pub record Balanced (depth_a depth_b : ℕ) (l : Link) : Type 0 where
  pub to_b : Places l.a l.b l.ab l.ba l.held_b depth_b
  pub to_a : Places l.b l.a l.ba l.ab l.held_a depth_a

-- One of the ends sends, receives or releases; seen from both receive queues.
send-Places :
    (x y : Conn) (xy yx : List Packet) (held_x held_y depth_x depth_y : ℕ) (m : Msg)
    → Places x y xy yx held_y depth_y
    → Places y x yx xy held_x depth_x
    → Sendable x m
    → (send x m).0 ≡ ok
    → let xy' = xy ++ (packet x m ∷ []) in
      Places (send x m).1 y xy' yx held_y depth_y × Places y (send x m).1 yx xy' held_x depth_x
send-Places x y xy yx held_x held_y depth_x depth_y m i j s e =
    let k = send-Charged x m s e in
    (
      sent-Places x (send x m).1 y xy yx (packet x m) held_y depth_y i k (sn_of x m s),
      gave-Places y x (send x m).1 yx xy (packet x m) held_x depth_x j k (credits_of x m s),
    )

arrive-Places :
    (x y : Conn) (p : Packet) (xy yx : List Packet) (held_x held_y depth_x depth_y : ℕ)
    → Places x y (p ∷ xy) yx held_y depth_y
    → Places y x yx (p ∷ xy) held_x depth_x
    → Places x (arrive p y) xy yx (held_after p held_y) depth_y
      × Places (arrive p y) x yx xy held_x depth_x
arrive-Places x y p xy yx held_x held_y depth_x depth_y i j = (
  arrived-Places x y p xy yx held_y depth_y i j.flow,
  got-Places y x p yx xy held_x depth_x j (sym i.in_order.0),
)

Step-Balanced :
    (depth_a depth_b : ℕ) (l l' : Link)
    → Step l l'
    → Balanced depth_a depth_b l
    → Balanced depth_a depth_b l'
Step-Balanced da db l l' (send_a _ m s e) i =
    let (p, q) = send-Places l.a l.b l.ab l.ba l.held_a l.held_b da db m i.to_b i.to_a s e in
    record { to_b = p; to_a = q }
Step-Balanced da db l l' (send_b _ m s e) i =
    let (p, q) = send-Places l.b l.a l.ba l.ab l.held_b l.held_a db da m i.to_a i.to_b s e in
    record { to_b = q; to_a = p }
Step-Balanced da db l l' (arrive_b _ p ps e) i =
    let (r, s) =
      arrive-Places l.a l.b p ps l.ba l.held_a l.held_b da db (rw⁻¹ e i.to_b) (rw⁻¹ e i.to_a) in
    record { to_b = r; to_a = s }
Step-Balanced da db l l' (arrive_a _ p ps e) i =
    let (r, s) =
      arrive-Places l.b l.a p ps l.ab l.held_b l.held_a db da (rw⁻¹ e i.to_a) (rw⁻¹ e i.to_b) in
    record { to_b = s; to_a = r }
Step-Balanced da db l l' (release_b _ bytes held e) i = record {
  to_b = released-Places l.a l.b l.ab l.ba bytes held db (rw⁻¹ e i.to_b);
  to_a = own_release-Places l.b l.a l.ba l.ab bytes l.held_a da i.to_a;
}
Step-Balanced da db l l' (release_a _ bytes held e) i = record {
  to_b = own_release-Places l.a l.b l.ab l.ba bytes l.held_b db i.to_b;
  to_a = released-Places l.b l.a l.ba l.ab bytes held da (rw⁻¹ e i.to_a);
}

Run-Balanced :
    (depth_a depth_b : ℕ) (l0 l : Link)
    → Balanced depth_a depth_b l0
    → Run l0 l
    → Balanced depth_a depth_b l
Run-Balanced da db l0 l i begin = i
Run-Balanced da db l0 l i (then_step {l = l1} r s) =
    Step-Balanced da db l1 l s (Run-Balanced da db l0 l1 i r)

-- From two ends in balance, with flow control and receive queues of fewer than 2^16 places, after
-- any successful sends of requests, and of credits acks where the peer has a place left, arrivals in
-- order and releases: the places of each receive queue are those that the sender may still use, the
-- requests on their way, those that the application holds and the credits that go back.
pub credits_conserved :
    (depth_a depth_b : ℕ) (l0 l : Link)
    → Balanced depth_a depth_b l0
    → Run l0 l
    → (l.a.peer_credits_msgs + length l.ab + l.held_b + l.b.credits_msgs + credits_in l.ba
        ≡ depth_b)
      × (l.b.peer_credits_msgs + length l.ba + l.held_a + l.a.credits_msgs + credits_in l.ab
          ≡ depth_a)
credits_conserved da db l0 l i r = let j = Run-Balanced da db l0 l i r in (j.to_b.all, j.to_a.all)

-- From two ends in balance, with flow control and receive queues of fewer than 2^16 places, after
-- any sends of requests that xio_connection_send lets through, of credits acks where the peer has a
-- place left, arrivals in order and releases: the requests on their way and those that the
-- application holds are never more than the places of the receive queue, and no request arrives out
-- of order.
pub queue_never_overrun :
    (depth_a depth_b : ℕ) (l0 l : Link)
    → Balanced depth_a depth_b l0
    → Run l0 l
    → (length l.ab + l.held_b ≤ depth_b)
      × (length l.ba + l.held_a ≤ depth_a)
      × Consecutive l.b.req_exp_sn l.ab l.a.req_sn
      × Consecutive l.a.req_exp_sn l.ba l.b.req_sn
queue_never_overrun da db l0 l i r =
    let j = Run-Balanced da db l0 l i r in
    (omega (arith, j.to_b.all), omega (arith, j.to_a.all), j.to_b.in_order, j.to_a.in_order)
