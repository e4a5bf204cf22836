-- ===== src/Connection/Submit/Leak.antt =====
-- How far the send queue fills, and what a chain that is refused leaves in its counters.
use accelio.Prelude.{
  ◌+◌, ◌^◌, ◌≤◌, ◌<◌, true, false, ◌≡◌, refl, ap, ◌∙◌, List, [], ◌∷◌, ◌++◌, not, arith, Bool-cases,
  inl, inr,
}
use accelio.Message.{MsgType, Msg}
use accelio.Connection.State.{Conn}
use accelio.Connection.Submit.{overflows, account, typed, stage, enqueue}

-- What the limits allow: one message more than snd_queue_depth_msgs, and snd_queue_depth_bytes.
abbrev pub Limited : Conn → Type 0
Limited c = (c.tx_queued_msgs ≤ c.snd_queue_depth_msgs + 1) × (c.tx_bytes ≤ c.snd_queue_depth_bytes)

-- Messages whose bytes the sum of a message and a full queue does not wrap.
abbrev pub Sized : Conn → List Msg → Type 0
Sized c [] = Unit
Sized c (m ∷ ms) = (c.snd_queue_depth_bytes + m.tx_bytes < 2 ^ 64) × Sized c ms

account-Limited :
    (c : Conn) (m : Msg)
    → c.snd_queue_depth_msgs < 2 ^ 16
    → c.snd_queue_depth_bytes + m.tx_bytes < 2 ^ 64
    → overflows c m ≡ false
    → Limited c
    → Limited (account c m)
unfolding overflows account
account-Limited c m d b o (x, y) = (ground (arith, x, y, d, b, o), ground (arith, x, y, d, b, o))

account-depths :
    (c : Conn) (m : Msg)
    → ((account c m).snd_queue_depth_msgs ≡ c.snd_queue_depth_msgs)
      × ((account c m).snd_queue_depth_bytes ≡ c.snd_queue_depth_bytes)
unfolding account
account-depths c m = (ground arith, ground arith)

account-Sized : (c : Conn) (m : Msg) (ms : List Msg) → Sized c ms → Sized (account c m) ms
account-Sized c m [] s = tt
account-Sized c m (x ∷ ms) (h, s) =
    (omega (arith, h, (account-depths c m).1), account-Sized c m ms s)

stage-Limited :
    (t : MsgType) (ms queue : List Msg) (c : Conn)
    → c.snd_queue_depth_msgs < 2 ^ 16
    → Sized c ms
    → Limited c
    → Limited (stage t ms queue c).conn
unfolding stage
stage-Limited t [] queue c d s l = l
stage-Limited t (m ∷ ms) queue c d s l = elim (Bool-cases (overflows c m)) [
  | inl h ↦ rw h l
  | inr h ↦ rw h (
      stage-Limited t ms (queue ++ typed t c m ∷ []) (account c m)
        (omega (arith, d, (account-depths c m).0)) (account-Sized c m ms s.1)
        (account-Limited c m d s.0 h l))
]

stage-depths :
    (t : MsgType) (ms queue : List Msg) (c : Conn)
    → let c' = (stage t ms queue c).conn in
      (c'.snd_queue_depth_msgs ≡ c.snd_queue_depth_msgs)
      × (c'.snd_queue_depth_bytes ≡ c.snd_queue_depth_bytes)
unfolding stage
stage-depths t [] queue c = (refl, refl)
stage-depths t (m ∷ ms) queue c = elim (Bool-cases (overflows c m)) [
  | inl h ↦ rw h (refl, refl)
  | inr h ↦
      let (a, b) = stage-depths t ms (queue ++ typed t c m ∷ []) (account c m) in
      rw h (a ∙ (account-depths c m).0, b ∙ (account-depths c m).1)
]

-- Joining the local queue to the queue leaves the counters alone.
enqueue_counters :
    (t : MsgType) (ms : List Msg) (c : Conn)
    → ((enqueue t ms c).1.tx_queued_msgs ≡ (stage t ms [] c).conn.tx_queued_msgs)
      × ((enqueue t ms c).1.tx_bytes ≡ (stage t ms [] c).conn.tx_bytes)
unfolding enqueue
enqueue_counters t ms c = elim (Bool-cases (stage t ms [] c).complete) [
  | inl e ↦ rw e (refl, refl)
  | inr e ↦ rw e (refl, refl)
]

-- Whatever is submitted, the counters stay within snd_queue_depth_bytes and within one message more
-- than snd_queue_depth_msgs, which is of 16 bits, as long as no sum of a message's bytes with
-- snd_queue_depth_bytes wraps.
pub enqueue_bounded :
    (t : MsgType) (ms : List Msg) (c : Conn)
    → c.snd_queue_depth_msgs < 2 ^ 16
    → Sized c ms
    → Limited c
    → let c' = (enqueue t ms c).1 in
      (c'.tx_queued_msgs ≤ c.snd_queue_depth_msgs + 1) × (c'.tx_bytes ≤ c.snd_queue_depth_bytes)
enqueue_bounded t ms c d s l =
    let (a, b) = enqueue_counters t ms c in
    let (x, y) = stage-depths t ms [] c in
    let (u, v) = stage-Limited t ms [] c d s l in (omega (arith, a, x, u), omega (arith, b, y, v))

fits :
    (c : Conn) (m : Msg)
    → c.tx_queued_msgs ≡ 0
    → c.tx_bytes ≡ 0
    → m.tx_bytes ≤ c.snd_queue_depth_bytes
    → c.snd_queue_depth_bytes < 2 ^ 64
    → overflows c m ≡ false
unfolding overflows
fits c m a b h d = ground (arith, a, b, h, d)

too_big :
    (c : Conn) (m : Msg)
    → c.snd_queue_depth_bytes < c.tx_bytes + m.tx_bytes
    → c.tx_bytes + m.tx_bytes < 2 ^ 64
    → overflows c m ≡ true
unfolding overflows
too_big c m h b = ground (arith, h, b)

enqueue_first :
    (t : MsgType) (m1 m2 : Msg) (c : Conn)
    → overflows c m1 ≡ false
    → overflows (account c m1) m2 ≡ true
    → enqueue t (m1 ∷ m2 ∷ []) c ≡ (false, account c m1)
unfolding enqueue stage
enqueue_first t m1 m2 c a b = rw (a, b) refl

enqueue_one : (t : MsgType) (m : Msg) (c : Conn) → (enqueue t (m ∷ []) c).0 ≡ not (overflows c m)
unfolding enqueue stage
enqueue_one t m c = elim (Bool-cases (overflows c m)) [ inl e ↦ rw e refl | inr e ↦ rw e refl ]

counted_first :
    (c : Conn) (m : Msg)
    → c.enable_flow_control ≡ true
    → c.tx_queued_msgs ≡ 0
    → c.tx_bytes ≡ 0
    → m.tx_bytes < 2 ^ 64
    → ((account c m).tx_queued_msgs ≡ 1)
      × ((account c m).tx_bytes ≡ m.tx_bytes)
      × ((account c m).reqs_msgq ≡ c.reqs_msgq)
      × ((account c m).in_flight_reqs_msgq ≡ c.in_flight_reqs_msgq)
unfolding account
counted_first c m f a b h =
    (ground (arith, f, a), ground (arith, f, b, h), ground (arith, f), ground (arith, f))

-- Under flow control, with nothing counted and sizes that do not wrap, a chain of two messages
-- whose first one fits, but not both, is refused; nothing of it is queued, yet its first message
-- stays counted, so that the second message, which was accepted alone before, is now refused alone
-- too.
pub refused_chain_leaks :
    (t : MsgType) (m1 m2 : Msg) (c : Conn)
    → c.enable_flow_control ≡ true
    → c.tx_queued_msgs ≡ 0
    → c.tx_bytes ≡ 0
    → m1.tx_bytes ≤ c.snd_queue_depth_bytes
    → m2.tx_bytes ≤ c.snd_queue_depth_bytes
    → c.snd_queue_depth_bytes < m1.tx_bytes + m2.tx_bytes
    → m1.tx_bytes + m2.tx_bytes < 2 ^ 64
    → let (r, c') = enqueue t (m1 ∷ m2 ∷ []) c in
      (r ≡ false)
      × (c'.reqs_msgq ≡ c.reqs_msgq)
      × (c'.in_flight_reqs_msgq ≡ c.in_flight_reqs_msgq)
      × (c'.tx_queued_msgs ≡ 1)
      × (c'.tx_bytes ≡ m1.tx_bytes)
      × ((enqueue t (m2 ∷ []) c).0 ≡ true)
      × ((enqueue t (m2 ∷ []) c').0 ≡ false)
refused_chain_leaks t m1 m2 c f a b h1 h2 h s =
    let (n, k, q, i) = counted_first c m1 f a b (omega arith) in
    let o2 =
      too_big (account c m1) m2 (omega (arith, k, (account-depths c m1).1)) (omega (arith, k)) in
    let e = enqueue_first t m1 m2 c (fits c m1 a b h1 (omega arith)) o2 in
    rw e (
      refl,
      q,
      i,
      n,
      k,
      enqueue_one t m2 c ∙ ap not (fits c m2 a b h2 (omega arith)),
      enqueue_one t m2 (account c m1) ∙ ap not o2,
    )
