-- ===== src/Connection/Submit/Accounts.antt =====
-- What a submission counts, numbers and queues.
use mathlib.Core.List.{append_assoc}
use accelio.Prelude.{
  u32, u64, ℕ, ◌+◌, ◌^◌, ◌<◌, Bool, true, false, ◌≡◌, refl, sym, ap, ◌∙◌, List, [], ◌∷◌, ◌++◌,
  if◌then◌else◌, arith, length, subst, Bool-cases, inl, inr,
}
use accelio.Message.{MsgType, Msg}
use accelio.Connection.State.{Conn}
use accelio.Connection.Submit.{overflows, typed, account, Staged, stage, enqueue}

-- The bytes of a list of messages.
abbrev pub bytes : List Msg → ℕ
bytes [] = 0
bytes (m ∷ ms) = m.tx_bytes + bytes ms

-- The messages `ms` with the type `t` and consecutive serial numbers from `sn` on.
abbrev pub numbered : MsgType → ℕ → List Msg → List Msg
numbered t sn [] = []
numbered t sn (m ∷ ms) = record m { type = t; sn = sn } ∷ numbered t (u64 (sn + 1)) ms

pub bytes-append : (xs ys : List Msg) → bytes (xs ++ ys) ≡ bytes xs + bytes ys
bytes-append [] ys = omega arith
bytes-append (x ∷ xs) ys = omega (arith, bytes-append xs ys)

-- The counters are within their types.
abbrev pub InRange : Conn → Type 0
InRange c = (c.tx_queued_msgs < 2 ^ 32) × (c.tx_bytes < 2 ^ 64) × (c.trans_sn < 2 ^ 64)

-- A list of messages is empty, or its first one does not fit.
abbrev pub Stopped : Conn → List Msg → Bool → Type 0
Stopped c [] complete = complete ≡ true
Stopped c (m ∷ ms) complete = (complete ≡ false) × (overflows c m ≡ true)

-- Each message of a list fits when those before it have been counted.
abbrev pub Fitting : Conn → List Msg → Type 0
Fitting c [] = Unit
Fitting c (m ∷ ms) = (overflows c m ≡ false) × Fitting (account c m) ms

-- A connection with the counters of another.
abbrev pub with_counters : Conn → Conn → Conn
with_counters c d = record d {
  tx_queued_msgs = c.tx_queued_msgs;
  tx_bytes = c.tx_bytes;
  trans_sn = c.trans_sn;
}

-- The messages `taken` of a chain were numbered and counted, and the others did not fit.
pub record Counted (t : MsgType) (ms queue : List Msg) (c : Conn) (s : Staged) : Type 0 where
  pub taken : List Msg
  pub refused : List Msg
  pub split : ms ≡ taken ++ refused
  pub fitting : Fitting c taken
  pub stopped : Stopped s.conn refused s.complete
  pub queued : s.queue ≡ queue ++ numbered t c.trans_sn taken
  pub msgs : s.conn.tx_queued_msgs ≡ u32 (c.tx_queued_msgs + length taken)
  pub tx_bytes : s.conn.tx_bytes ≡ u64 (c.tx_bytes + bytes taken)
  pub sn : s.conn.trans_sn ≡ u64 (c.trans_sn + length taken)
  pub others : with_counters c s.conn ≡ c

-- What counting one message does, under flow control.
abbrev counted : Conn → Msg → Conn
counted c m = record c {
  tx_queued_msgs = u32 (c.tx_queued_msgs + 1);
  tx_bytes = u64 (c.tx_bytes + m.tx_bytes);
  trans_sn = u64 (c.trans_sn + 1);
}

account_flow : (c : Conn) (m : Msg) → c.enable_flow_control ≡ true → account c m ≡ counted c m
unfolding account
account_flow c m f = rw f refl

cons-Counted :
    (t : MsgType) (m : Msg) (ms queue : List Msg) (c : Conn) (s : Staged)
    → c.enable_flow_control ≡ true
    → overflows c m ≡ false
    → Counted t ms (queue ++ typed t c m ∷ []) (counted c m) s
    → Counted t (m ∷ ms) queue c s
cons-Counted t m ms queue c s f h k = record {
  taken = m ∷ k.taken;
  refused = k.refused;
  split = ap (λ l. m ∷ l) k.split;
  fitting = (h, subst (λ d. Fitting d k.taken) (sym (account_flow c m f)) k.fitting);
  stopped = k.stopped;
  queued =
      k.queued ∙ append_assoc queue (typed t c m ∷ []) (numbered t (u64 (c.trans_sn + 1)) k.taken);
  msgs = omega (arith, k.msgs);
  tx_bytes = omega (arith, k.tx_bytes);
  sn = omega (arith, k.sn);
  others = ap (with_counters c) k.others;
}

append_nil : (xs : List Msg) → xs ≡ xs ++ []
append_nil [] = refl
append_nil (x ∷ xs) = ap (λ l. x ∷ l) (append_nil xs)

pub stage-Counted :
    (t : MsgType) (ms queue : List Msg) (c : Conn)
    → c.enable_flow_control ≡ true
    → InRange c
    → Counted t ms queue c (stage t ms queue c)
unfolding stage
stage-Counted t [] queue c f (a, b, d) = record {
  taken = [];
  refused = [];
  split = refl;
  fitting = tt;
  stopped = refl;
  queued = append_nil queue;
  msgs = omega arith;
  tx_bytes = omega arith;
  sn = omega arith;
  others = refl;
}
stage-Counted t (m ∷ ms) queue c f (a, b, d) = elim (Bool-cases (overflows c m)) [
  | inl h ↦ rw h (record {
    taken = [];
    refused = m ∷ ms;
    split = refl;
    fitting = tt;
    stopped = (refl, h);
    queued = append_nil queue;
    msgs = omega arith;
    tx_bytes = omega arith;
    sn = omega arith;
    others = refl;
  })
  | inr h ↦ rw h (
      cons-Counted t m ms queue c (stage t ms (queue ++ typed t c m ∷ []) (account c m)) f h (
        subst
          (λ d.
            Counted t ms (queue ++ typed t c m ∷ []) (counted c m)
              (stage t ms (queue ++ typed t c m ∷ []) d))
          (sym (account_flow c m f))
          (stage-Counted t ms (queue ++ typed t c m ∷ []) (counted c m) f
            (omega arith, omega arith, omega arith))))
]

-- Under flow control, with counters within their types, xio_send_request and its kin take the
-- longest beginning of a chain of which each message fits when its turn comes: they give those
-- messages their type and consecutive serial numbers, and count each message and its bytes once.
-- All of them join the queue if the whole chain was taken, none of them if it was not.
pub enqueue_accounts :
    (t : MsgType) (ms : List Msg) (c : Conn)
    → c.enable_flow_control ≡ true
    → InRange c
    → let (complete, c') = enqueue t ms c in
      (taken : List Msg) × (refused : List Msg) × (ms ≡ taken ++ refused)
      × Fitting c taken
      × Stopped (stage t ms [] c).conn refused complete
      × (c'.tx_queued_msgs ≡ u32 (c.tx_queued_msgs + length taken))
      × (c'.tx_bytes ≡ u64 (c.tx_bytes + bytes taken))
      × (c'.trans_sn ≡ u64 (c.trans_sn + length taken))
      × (c'.reqs_msgq
          ≡ (if complete then c.reqs_msgq ++ numbered t c.trans_sn taken else c.reqs_msgq))
unfolding enqueue
enqueue_accounts t ms c f r =
    let k = stage-Counted t ms [] c f r in
    let s = stage t ms [] c in
    (
      k.taken,
      k.refused,
      k.split,
      k.fitting,
      k.stopped,
      elim (Bool-cases s.complete) [ inl e ↦ rw e k.msgs | inr e ↦ rw e k.msgs ],
      elim (Bool-cases s.complete) [ inl e ↦ rw e k.tx_bytes | inr e ↦ rw e k.tx_bytes ],
      elim (Bool-cases s.complete) [ inl e ↦ rw e k.sn | inr e ↦ rw e k.sn ],
      elim (Bool-cases s.complete) [
        | inl e ↦ rw (e, k.queued) (ap (λ d. d.reqs_msgq ++ numbered t c.trans_sn k.taken) k.others)
        | inr e ↦ rw e (ap (λ d. d.reqs_msgq) k.others)
      ],
    )
