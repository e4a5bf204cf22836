-- ===== src/Nexus/Life/Closing.antt =====
-- The last user of a nexus leaves.
use accelio.Prelude.{
  ℕ, ◌≡◌, refl, Bool, true, false, none, some, ◌∷◌, ◌==◌, arith, Bool-cases, inl, inr,
}
use accelio.Nexus.{Nexus, State, Work, nexus_addref, add_delayed_work}
use accelio.Nexus.Reconnect.{release_cb}
use accelio.Nexus.Reconnect.Outcome.{awaits}
use accelio.Nexus.Life.{release, at_once, delayed_close, close}

-- What becomes of the transport of a nexus that is left.
pub data Left (n m : Nexus) (timeout : ℕ) : Type 0 where
  used :
      (n.kref == 1) ≡ false
      → m.transport_closed ≡ n.transport_closed
      → m.close_time ≡ n.close_time
      → Left n m timeout
  closed :
      n.kref ≡ 1
      → at_once n.state ≡ true
      → m.transport_closed ≡ n.transport_hndl ∷ n.transport_closed
      → m.close_time ≡ none
      → Left n m timeout
  waits :
      n.kref ≡ 1
      → at_once n.state ≡ false
      → m.transport_closed ≡ n.transport_closed
      → m.close_time ≡ some (timeout, Work.release)
      → Left n m timeout

-- When a user leaves a nexus that has no delayed work, and a timer can be set, its transport is left
-- alone while others use the nexus; with the last one it is closed at once if the nexus listens, has
-- failed or is disconnected, and otherwise after the time that the options give.
pub close-Left :
    (n : Nexus) (timeout : ℕ) → n.close_time ≡ none → Left n (close n timeout true) timeout
unfolding close delayed_close release release_cb add_delayed_work
close-Left n timeout c = elim (Bool-cases (n.kref == 1)) [
  | inr k ↦ rw k (used k refl refl)
  | inl k ↦ elim (Bool-cases (at_once n.state)) [
    | inl a ↦ closed (ground (arith, k)) a (ground (arith, k, a)) (ground (arith, k, a))
    | inr a ↦ waits (ground (arith, k)) a (ground (arith, k, a, c)) (ground (arith, k, a, c))
  ]
]

-- The last user that leaves a nexus while it waits to reconnect finds the delayed work taken: nothing
-- is set to close the transport, and the work that is due is still the attempt to reconnect.
pub close_waiting :
    (n : Nexus) (timeout msec : ℕ) (timer : Bool)
    → n.kref ≡ 1
    → n.state ≡ State.reconnect
    → n.close_time ≡ some (msec, Work.client_timeout)
    → let m = close n timeout timer in
      (m.kref ≡ 0)
      × (m.transport_closed ≡ n.transport_closed)
      × (m.close_time ≡ some (msec, Work.client_timeout))
unfolding close delayed_close add_delayed_work
close_waiting n timeout msec timer k s c =
    (ground (arith, k, s, c), ground (arith, k, s, c), ground (arith, k, s, c))

-- A new user of a nexus that waits for its next attempt to reconnect takes the pending work for that
-- of a close: the attempt is cancelled, so that the nexus goes on as reconnecting with nothing under
-- way, and the number of users is set to one, however many there were.
pub addref_stops_attempts :
    (n : Nexus) (w : ℕ × Work)
    → n.state ≡ State.reconnect
    → n.close_time ≡ some w
    → n.new_transport_hndl ≡ 0
    → let m = nexus_addref n in (m.state ≡ State.reconnect) × (awaits m ≡ false) × (m.kref ≡ 1)
unfolding nexus_addref
addref_stops_attempts n w s c h = (ground (arith, s, c), ground (arith, c, h), ground (arith, c))
