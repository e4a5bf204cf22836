-- ===== src/Connection/Receive/Window.antt =====
-- The places of a receive queue are never lost and never doubled.
use accelio.Prelude.{
  u16, ℕ, ◌+◌, ◌<◌, ◌^◌, true, ◌≡◌, refl, sym, ◌∙◌, ap, List, [], ◌∷◌, ◌++◌, length, arith,
  if◌then◌else◌,
}
use accelio.Connection.State.{Conn}
use accelio.Connection.Receive.{req_window, on_credits_ack_recv, add_credits}
use accelio.Connection.Receive.Channel.{Packet, Charged}

-- The credits that are on their way.
abbrev pub credits_in : List Packet → ℕ
credits_in [] = 0
credits_in (p ∷ ps) = p.hdr.credits_msgs + credits_in ps

-- The serial numbers go from the one that the receiver expects to the sender's next one.
abbrev pub Consecutive : ℕ → List Packet → ℕ → Type 0
Consecutive exp [] next = exp ≡ next
Consecutive exp (p ∷ ps) next = (p.hdr.sn ≡ exp) × Consecutive (u16 (exp + 1)) ps next

-- The places of the receive queue of `y`, `depth` in all: those that `x` may still use, the requests
-- on their way, those that the application holds, and the credits that go back.
pub record Places (x y : Conn) (xy yx : List Packet) (held depth : ℕ) : Type 0 where
  pub flow : x.enable_flow_control ≡ true
  pub all : x.peer_credits_msgs + length xy + held + y.credits_msgs + credits_in yx ≡ depth
  pub in_order : Consecutive y.req_exp_sn xy x.req_sn
  pub bound : depth < 2 ^ 16

credits_in-append : (ps qs : List Packet) → credits_in (ps ++ qs) ≡ credits_in ps + credits_in qs
credits_in-append [] qs = omega arith
credits_in-append (p ∷ ps) qs = ground (arith, credits_in-append ps qs)

length-snoc : (ps : List Packet) (q : Packet) → length (ps ++ (q ∷ [])) ≡ length ps + 1
length-snoc [] q = refl
length-snoc (p ∷ ps) q = ground (arith, length-snoc ps q)

Consecutive-snoc :
    (exp next : ℕ) (ps : List Packet) (q : Packet)
    → Consecutive exp ps next
    → q.hdr.sn ≡ next
    → Consecutive exp (ps ++ (q ∷ [])) (u16 (next + 1))
Consecutive-snoc exp next [] q h e = (e ∙ sym h, ap (λ (n : ℕ). u16 (n + 1)) h)
Consecutive-snoc exp next (p ∷ ps) q h e = (h.0, Consecutive-snoc (u16 (exp + 1)) next ps q h.1 e)

-- `x` sends.
pub sent-Places :
    (x x' y : Conn) (xy yx : List Packet) (p : Packet) (held depth : ℕ)
    → Places x y xy yx held depth
    → Charged x x'
    → p.hdr.sn ≡ x.req_sn
    → Places x' y (xy ++ (p ∷ [])) yx held depth
sent-Places x x' y xy yx p held depth i k e = record {
  flow = k.flow ∙ i.flow;
  all = ground (arith, i.all, k.taken, length-snoc xy p);
  in_order = rw k.sn (Consecutive-snoc y.req_exp_sn x.req_sn xy p i.in_order e);
  bound = i.bound;
}

-- `y` sends: its credits go on their way.
pub gave-Places :
    (x y y' : Conn) (xy yx : List Packet) (p : Packet) (held depth : ℕ)
    → Places x y xy yx held depth
    → Charged y y'
    → p.hdr.credits_msgs ≡ y.credits_msgs
    → Places x y' xy (yx ++ (p ∷ [])) held depth
gave-Places x y y' xy yx p held depth i k e = record {
  flow = i.flow;
  all = ground (arith, i.all, k.given, credits_in-append yx (p ∷ []));
  in_order = rw k.exp_sn i.in_order;
  bound = i.bound;
}

-- A packet that arrives.
abbrev pub arrive : Packet → Conn → Conn
arrive p c = if p.is_ack then on_credits_ack_recv p.hdr c else req_window p.hdr c

-- The places that the application holds then.
abbrev pub held_after : Packet → ℕ → ℕ
held_after p held = if p.is_ack then held else held + 1

-- `y` receives: the place is taken.
pub arrived-Places :
    (x y : Conn) (p : Packet) (xy yx : List Packet) (held depth : ℕ)
    → Places x y (p ∷ xy) yx held depth
    → y.enable_flow_control ≡ true
    → Places x (arrive p y) xy yx (held_after p held) depth
unfolding req_window on_credits_ack_recv
arrived-Places x y p xy yx held depth i f = record {
  flow = i.flow;
  all = ground (arith, i.all, i.in_order, i.bound);
  in_order = ground (arith, i.in_order);
  bound = i.bound;
}

-- `x` receives: the credits are its own again.
pub got-Places :
    (x y : Conn) (p : Packet) (xy yx : List Packet) (held depth : ℕ)
    → Places x y xy (p ∷ yx) held depth
    → x.req_exp_sn ≡ p.hdr.sn
    → Places (arrive p x) y xy yx held depth
unfolding req_window on_credits_ack_recv
got-Places x y p xy yx held depth i e = record {
  flow = ground (arith, i.flow);
  all = ground (arith, i.all, i.flow, i.bound);
  in_order = ground (arith, i.in_order);
  bound = i.bound;
}

-- The application of `y` releases a message of `bytes` bytes.
pub released-Places :
    (x y : Conn) (xy yx : List Packet) (bytes held depth : ℕ)
    → Places x y xy yx (held + 1) depth
    → Places x (add_credits bytes y) xy yx held depth
released-Places x y xy yx bytes held depth i = record {
  flow = i.flow;
  all = ground (arith, i.all, i.bound);
  in_order = i.in_order;
  bound = i.bound;
}

pub own_release-Places :
    (x y : Conn) (xy yx : List Packet) (bytes held depth : ℕ)
    → Places x y xy yx held depth
    → Places (add_credits bytes x) y xy yx held depth
own_release-Places x y xy yx bytes held depth i = record {
  flow = i.flow;
  all = i.all;
  in_order = i.in_order;
  bound = i.bound;
}
