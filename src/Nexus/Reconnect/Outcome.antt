-- ===== src/Nexus/Reconnect/Outcome.antt =====
-- Where a lost transport leaves a nexus.
use accelio.Prelude.{
  ℕ, ◌≡◌, refl, Bool, true, false, not, Option, none, some, List, ◌∷◌, if◌then◌else◌, ◌==◌, ◌||◌,
  arith, Bool-cases, inl, inr,
}
use accelio.Nexus.{
  Nexus, State, Event, Work, Answers, is, state_set, add_delayed_work, cancel_dwork,
}
use accelio.Nexus.Queue.{flush_tx_queue}
use accelio.Nexus.Reconnect.{
  connect_new, reconnect, first_attempt, client_reconnect, server_reconnect, stay_disconnected,
  disconnected, on_transport_disconnected,
}
use accelio.Nexus.Reconnect.Backoff.{flush-Kept}

-- Whether something is under way that ends the wait: a timer, or an attempt with a new transport.
abbrev pub pending : Option (ℕ × Work) → Bool
pending none = false
pending (some w) = true

abbrev pub awaits : Nexus → Bool
awaits n = pending n.close_time || not (n.new_transport_hndl == 0)

-- Either the nexus reconnects, and waits for something; or it is disconnected, and its observers have
-- been told, or its own destruction is queued when it has none.
pub data Outcome (option : Bool) (n : Nexus) (observed : Bool) (m : Nexus) : Type 0 where
  retries :
      option ≡ true
      → n.state ≡ State.connected
      → m.state ≡ State.reconnect
      → m.events ≡ Event.reconnecting ∷ n.events
      → awaits m ≡ true
      → Outcome option n observed m
  told :
      (log : List Event)
      → observed ≡ true
      → m.state ≡ State.disconnected
      → m.events ≡ Event.disconnected ∷ log
      → Outcome option n observed m
  dropped :
      observed ≡ false
      → m.state ≡ State.disconnected
      → m.destroy_queued ≡ true
      → Outcome option n observed m

stay_disconnected-Outcome :
    (option : Bool) (n m : Nexus) (ans : Answers)
    → Outcome option n ans.observed (stay_disconnected m ans)
unfolding stay_disconnected
stay_disconnected-Outcome option n m ans =
    let k = flush-Kept (state_set State.disconnected m) in
    elim (Bool-cases ans.observed) [
      | inl o ↦
          rw o (told (flush_tx_queue (state_set State.disconnected m)).events refl k.state refl)
      | inr o ↦ rw o (dropped refl k.state refl)
    ]

is-connected : (s : State) → is s State.connected ≡ true → s ≡ State.connected
is-connected State.init e = absurd (cc)
is-connected State.opened e = absurd (cc)
is-connected State.listen e = absurd (cc)
is-connected State.connecting e = absurd (cc)
is-connected State.connected e = refl
is-connected State.rejected e = absurd (cc)
is-connected State.closed e = absurd (cc)
is-connected State.disconnected e = absurd (cc)
is-connected State.reconnect e = absurd (cc)
is-connected State.error e = absurd (cc)

client-Outcome :
    (n : Nexus) (ans : Answers)
    → (client_reconnect n ans).0 ≡ true
    → Outcome true n ans.observed (client_reconnect n ans).1
unfolding client_reconnect first_attempt add_delayed_work reconnect connect_new
client-Outcome n ans e =
    let c : is n.state State.connected ≡ true = ground (arith, e) in
    retries refl (is-connected n.state c) (ground (arith, c, e)) (ground (arith, c, e))
      (ground (arith, c, e))

server-Outcome :
    (n : Nexus) (ans : Answers)
    → (server_reconnect n ans).0 ≡ true
    → Outcome true n ans.observed (server_reconnect n ans).1
unfolding server_reconnect add_delayed_work
server-Outcome n ans e =
    let c : is n.state State.connected ≡ true = ground (arith, e) in
    retries refl (is-connected n.state c) (ground (arith, c, e)) (ground (arith, c, e))
      (ground (arith, c, e))

either :
    (n : Nexus) (ans : Answers) (r : Bool × Nexus)
    → (r.0 ≡ true → Outcome true n ans.observed r.1)
    → Outcome true n ans.observed (if r.0 then r.1 else stay_disconnected r.1 ans)
either n ans (true, m) f = f refl
either n ans (false, m) f = stay_disconnected-Outcome true n m ans

tried-Outcome :
    (n : Nexus) (ans : Answers) (client : Bool)
    → let r = if client then client_reconnect n ans else server_reconnect n ans in
      Outcome true n ans.observed (if r.0 then r.1 else stay_disconnected r.1 ans)
tried-Outcome n ans true = either n ans (client_reconnect n ans) (client-Outcome n ans)
tried-Outcome n ans false = either n ans (server_reconnect n ans) (server-Outcome n ans)

-- When a transport is lost, the nexus reconnects, and then has a timer or a new transport under way;
-- or it is disconnected, and has told its observers when it has some, and queued its own destruction
-- when it has none. It
-- reconnects only if that option is on and it was connected.
pub lost-Outcome :
    (option : Bool) (n : Nexus) (ans : Answers)
    → Outcome option (cancel_dwork n) ans.observed (on_transport_disconnected option n ans)
unfolding on_transport_disconnected disconnected
lost-Outcome false n ans = stay_disconnected-Outcome false (cancel_dwork n) (cancel_dwork n) ans
lost-Outcome true n ans = tried-Outcome (cancel_dwork n) ans n.is_client

-- A transport that is lost while the nexus is reconnecting ends the attempts at once: the nexus is
-- disconnected, though the new transport that it is connecting may yet come up.
pub lost_again :
    (option : Bool) (n : Nexus) (ans : Answers)
    → n.state ≡ State.reconnect
    → let m = on_transport_disconnected option n ans in
      (m.state ≡ State.disconnected) × (m.new_transport_hndl ≡ n.new_transport_hndl)
unfolding on_transport_disconnected disconnected client_reconnect server_reconnect stay_disconnected
lost_again option n ans s =
    let k = flush-Kept (state_set State.disconnected (cancel_dwork n)) in
    (ground (arith, s, k.state), ground (arith, s, k.new_transport))
