-- ===== src/Nexus/Reconnect/Backoff.antt =====
-- How long a client tries to reconnect, and where a lost transport leaves a nexus.
use accelio.Prelude.{
  ℕ, suc, ◌+◌, ◌≡◌, refl, ap, ◌∙◌, Bool, true, false, not, Option, none, some, List, [], ◌∷◌,
  if◌then◌else◌, ◌==◌, get_or, ltb, arith,
}
use accelio.Nexus.{
  Nexus, State, Event, Work, Answers, notify, state_set, add_delayed_work, cancel_dwork,
}
use accelio.Nexus.Queue.{flush_tx_queue, flush_tasks, put_task, put_sender}
use accelio.Nexus.Reconnect.{
  msecs, server_timeout_msecs, connect_new, reconnect, give_up, retry_later,
  client_reconnect_timeout, first_attempt, client_reconnect, disconnected, fire,
  on_transport_disconnected,
}

-- What a flush of the queue leaves alone.
pub record Kept (n m : Nexus) : Type 0 where
  pub state : m.state ≡ n.state
  pub events : m.events ≡ n.events
  pub close_time : m.close_time ≡ n.close_time
  pub new_transport : m.new_transport_hndl ≡ n.new_transport_hndl
  pub destroy : m.destroy_queued ≡ n.destroy_queued
  pub server : m.server_cid ≡ n.server_cid

Kept-refl : (n : Nexus) → Kept n n
Kept-refl n = record {
  state = refl;
  events = refl;
  close_time = refl;
  new_transport = refl;
  destroy = refl;
  server = refl;
}

pub Kept-trans : {n m k : Nexus} → Kept m k → Kept n m → Kept n k
Kept-trans a b = record {
  state = a.state ∙ b.state;
  events = a.events ∙ b.events;
  close_time = a.close_time ∙ b.close_time;
  new_transport = a.new_transport ∙ b.new_transport;
  destroy = a.destroy ∙ b.destroy;
  server = a.server ∙ b.server;
}

pub put_task-Kept : (n : Nexus) (t : ℕ) → Kept n (put_task n t)
unfolding put_task
put_task-Kept n t = record {
  state = ground arith;
  events = ground arith;
  close_time = ground arith;
  new_transport = ground arith;
  destroy = ground arith;
  server = ground arith;
}

pub put_sender-Kept : (n : Nexus) (t : ℕ) (s : Option ℕ) → Kept n (put_sender n t s)
unfolding put_sender
put_sender-Kept n t none = Kept-refl n
put_sender-Kept n t (some s) =
    let k = put_task-Kept n s in
    record {
      state = k.state;
      events = k.events;
      close_time = k.close_time;
      new_transport = k.new_transport;
      destroy = k.destroy;
      server = k.server;
    }

flush_tasks-Kept : (ts : List ℕ) (n : Nexus) → Kept n (flush_tasks ts n)
unfolding flush_tasks
flush_tasks-Kept [] n = Kept-refl n
flush_tasks-Kept (t ∷ ts) n =
    let s = (n.pool.task t).sender_task in
    Kept-trans (flush_tasks-Kept ts (put_task (put_sender n t s) t))
      (Kept-trans (put_task-Kept (put_sender n t s) t) (put_sender-Kept n t s))

pub flush-Kept : (n : Nexus) → Kept n (flush_tx_queue n)
unfolding flush_tx_queue
flush-Kept n = flush_tasks-Kept n.tx_queue n

-- An attempt to reconnect that fails.
abbrev pub fails : Answers → Bool
fails ans = if ans.handle == 0 then true else not ans.connects

-- Failing attempts while timers can be set, with the time waited for them.
pub run_timers : List Answers → Nexus → ℕ × Nexus
run_timers [] n = (0, n)
run_timers (ans ∷ rest) n =
    let (waited, m) = run_timers rest (fire n ans) in
    (elim n.close_time [ none ↦ waited | some (msec, w) ↦ msec + waited ], m)

-- A nexus that waits for its next attempt, `k` of them after that one.
record Waits (n : Nexus) (k msec : ℕ) (log : List Event) : Type 0 where
  state : n.state ≡ State.reconnect
  events : n.events ≡ log
  retries : n.reconnect_retries ≡ k
  timer : n.close_time ≡ some (msec, Work.client_timeout)

-- A failed attempt changes only the handles of the transports.
reconnect-fails :
    (n : Nexus) (ans : Answers)
    → fails ans ≡ true
    → ((reconnect n ans).0 ≡ false)
      × ((reconnect n ans).1.state ≡ n.state)
      × ((reconnect n ans).1.events ≡ n.events)
      × ((reconnect n ans).1.reconnect_retries ≡ n.reconnect_retries)
      × ((reconnect n ans).1.close_time ≡ n.close_time)
unfolding reconnect connect_new
reconnect-fails n ans f =
    (ground (arith, f), ground (arith, f), ground (arith, f), ground (arith, f), ground (arith, f))

retry_later-Waits :
    (n : Nexus) (k : ℕ) (log : List Event)
    → n.state ≡ State.reconnect
    → n.events ≡ log
    → n.reconnect_retries ≡ suc k
    → n.close_time ≡ none
    → Waits (retry_later n true) k (get_or msecs k 0) log
unfolding retry_later add_delayed_work
retry_later-Waits n k log s e r c = record {
  state = ground (arith, s, r, c);
  events = ground (arith, e, r, c);
  retries = ground (arith, r, c);
  timer = ground (arith, r, c);
}

fire_lem :
    (n : Nexus) (k msec : ℕ) (log : List Event) (ans : Answers)
    → Waits n k msec log
    → fails ans ≡ true
    → ans.timer ≡ true
    → fire n ans ≡ retry_later (reconnect (cancel_dwork n) ans).1 true
unfolding fire client_reconnect_timeout
fire_lem n k msec log ans w f t =
    let (a, b, c, d, e) = reconnect-fails (cancel_dwork n) ans f in ground (arith, a, t, w.timer)

fire-Waits :
    (n : Nexus) (k msec : ℕ) (log : List Event) (ans : Answers)
    → Waits n (suc k) msec log
    → fails ans ≡ true
    → ans.timer ≡ true
    → Waits (fire n ans) k (get_or msecs k 0) log
fire-Waits n k msec log ans w f t =
    let (a, b, c, d, e) = reconnect-fails (cancel_dwork n) ans f in
    rw (fire_lem n (suc k) msec log ans w f t) (
      retry_later-Waits (reconnect (cancel_dwork n) ans).1 k log (b ∙ w.state) (c ∙ w.events)
        (d ∙ w.retries) e)

-- A nexus that has given up.
pub record GivenUp (n : Nexus) (log : List Event) : Type 0 where
  pub state : n.state ≡ State.disconnected
  pub events : n.events ≡ Event.disconnected ∷ log
  pub timer : n.close_time ≡ none

give_up-GivenUp :
    (n : Nexus) (log : List Event) → n.events ≡ log → n.close_time ≡ none → GivenUp (give_up n) log
unfolding give_up
give_up-GivenUp n log e c =
    let k = flush-Kept (state_set State.disconnected n) in
    record {
      state = k.state;
      events = ap (λ l. Event.disconnected ∷ l) (k.events ∙ e);
      timer = k.close_time ∙ c;
    }

fire-GivenUp :
    (n : Nexus) (msec : ℕ) (log : List Event) (ans : Answers)
    → Waits n 0 msec log
    → fails ans ≡ true
    → ans.timer ≡ true
    → GivenUp (fire n ans) log
unfolding retry_later
fire-GivenUp n msec log ans w f t =
    let (a, b, c, d, e) = reconnect-fails (cancel_dwork n) ans f in
    let m = (reconnect (cancel_dwork n) ans).1 in
    let z : ltb 0 m.reconnect_retries ≡ false = ground (arith, d, w.retries) in
    rw (fire_lem n 0 msec log ans w f t, z) (give_up-GivenUp m log (c ∙ w.events) e)

-- The first attempt fails, and the next one waits.
lost-Waits :
    (n : Nexus) (ans : Answers)
    → n.state ≡ State.connected
    → n.is_client ≡ true
    → n.has_dup2 ≡ true
    → fails ans ≡ true
    → ans.timer ≡ true
    → Waits (on_transport_disconnected true n ans) 2 15000 (Event.reconnecting ∷ n.events)
unfolding on_transport_disconnected disconnected client_reconnect first_attempt add_delayed_work
lost-Waits n ans s cl d f t =
    let n1 = record (notify Event.reconnecting (state_set State.reconnect (cancel_dwork n))) {
      reconnect_retries = 3;
    } in
    let (a, b, c, r, e) = reconnect-fails n1 ans f in
    record {
      state = ground (arith, s, cl, d, a, b, e, t);
      events = ground (arith, s, cl, d, a, c, e, t);
      retries = ground (arith, s, cl, d, a, e, t);
      timer = ground (arith, s, cl, d, a, e, t);
    }

-- A connected client whose transport is lost, which can reconnect, and whose every attempt fails
-- while timers can be set, makes one attempt at once and one after each of three timers. Then it has
-- given up: it is disconnected, it has told its observers that it was reconnecting and that it is
-- disconnected, and no timer is left. It has waited for 105000 milliseconds, one second less than
-- the time for which a server waits for it.
pub client-GivenUp :
    (n : Nexus) (a0 a1 a2 a3 : Answers)
    → n.state ≡ State.connected
    → n.is_client ≡ true
    → n.has_dup2 ≡ true
    → (fails a0 ≡ true) × (a0.timer ≡ true)
    → (fails a1 ≡ true) × (a1.timer ≡ true)
    → (fails a2 ≡ true) × (a2.timer ≡ true)
    → (fails a3 ≡ true) × (a3.timer ≡ true)
    → let (waited, m) = run_timers (a1 ∷ a2 ∷ a3 ∷ []) (on_transport_disconnected true n a0) in
      GivenUp m (Event.reconnecting ∷ n.events) × (waited + 1000 ≡ server_timeout_msecs)
unfolding run_timers
client-GivenUp n a0 a1 a2 a3 s cl d f0 f1 f2 f3 =
    let log = Event.reconnecting ∷ n.events in
    let w0 = lost-Waits n a0 s cl d f0.0 f0.1 in
    let n0 = on_transport_disconnected true n a0 in
    let w1 = fire-Waits n0 1 15000 log a1 w0 f1.0 f1.1 in
    let w2 = fire-Waits (fire n0 a1) 0 30000 log a2 w1 f2.0 f2.1 in
    (
      fire-GivenUp (fire (fire n0 a1) a2) 60000 log a3 w2 f3.0 f3.1,
      ground (arith, w0.timer, w1.timer, w2.timer),
    )
