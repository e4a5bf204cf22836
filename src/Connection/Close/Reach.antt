-- ===== src/Connection/Close/Reach.antt =====
-- What one end goes through in the close protocol, and what its state and references are then.
use accelio.Prelude.{◌≤◌, Bool, true, ◌&&◌, ◌||◌, not, ◌≡◌, refl, ap, arith, if◌then◌else◌}
use accelio.Connection.State.{Conn, closed}
use accelio.Connection.Transition.{next_transit, fin, ack}
use accelio.Connection.Close.Frame.{View, view}
use accelio.Connection.Close.Endpoint.{
  Ghost, start, Inv, Step, fin_sent, expected_view, expected_state, expected_kref,
}
use accelio.Connection.Close.Accounts.{Step-view, Step-Order}

-- An end before the close: online with one reference, without flow control, able to set timers and
-- to notify, with no keepalive timeout and no flushed FIN.
abbrev pub Ready : Conn → Type 0
Ready c = view c ≡ expected_view start c.disconnecting c.in_idr

-- What one end goes through, its last step first.
pub data Reach (c0 : Conn) : Conn → Ghost → Type 0 where
  begin : Reach c0 c0 start
  then_step : {c c' : Conn} {g g' : Ghost} → Reach c0 c g → Step c g c' g' → Reach c0 c' g'

pub Reach-Inv : (c0 c : Conn) (g : Ghost) → Ready c0 → Reach c0 c g → Inv c g
Reach-Inv c0 c g r begin = record {
  view_is = r;
  order = record {
    one_close = refl;
    passive_after = λ h. ground arith;
    completed_after = λ h. ground arith;
    fin_completed_after = λ h. ground arith;
    acked_after = λ h. ground arith;
    expired_after = λ h. ground arith;
  };
}
Reach-Inv c0 c g r (then_step {c = c1} {g = g1} p s) =
    let i = Reach-Inv c0 c1 g1 r p in
    record { view_is = Step-view c1 c g1 g i s; order = Step-Order c1 c g1 g i s }

-- From an end that is online with one reference and to which nothing has happened yet, without flow
-- control, whose timers can be set, which notifies its session, has no keepalive timeout and no
-- flushed FIN, after any sequence of these events: the close by the application, the completion of
-- the FIN it sent, the peer's FIN, the completion of the acknowledgment of it, the peer's
-- acknowledgment of the FIN that was sent, and the end of TIME_WAIT, each at most once and after
-- its cause, the peer's events and the end of TIME_WAIT with no FIN left in the queues, and without
-- the timer xio_fin_req_timeout going off: the state is the one that the events give and the
-- reference count is one, plus one for each call that is still owed, plus one while an active close
-- has not left TIME_WAIT: no reference is lost and none is put twice.
pub accounts_balance :
    (c0 c : Conn) (g : Ghost)
    → Ready c0
    → Reach c0 c g
    → (c.state ≡ expected_state g) × (c.kref ≡ expected_kref g)
accounts_balance c0 c g r p =
    let i = Reach-Inv c0 c g r p in
    (ap (λ (v : View). v.state) i.view_is, ap (λ (v : View). v.kref) i.view_is)

-- Nothing is owed: the FINs of both ends are acknowledged and their sends complete, and TIME_WAIT is over.
abbrev pub settled : Ghost → Bool
settled g =
    g.fin_completed && g.acked && g.fin_received && g.ack_completed && (g.expired || g.passive)

-- From an end that is online with one reference and to which nothing has happened yet, without flow
-- control, whose timers can be set, which notifies its session, has no keepalive timeout and no
-- flushed FIN, when a sequence of these events: the close by the application, the completion of the
-- FIN it sent, the peer's FIN, the completion of the acknowledgment of it, the peer's
-- acknowledgment of the FIN that was sent, and the end of TIME_WAIT, each at most once and after
-- its cause, the peer's events and the end of TIME_WAIT with no FIN left in the queues, and without
-- the timer xio_fin_req_timeout going off, has left nothing owed, that is when both FINs are
-- acknowledged, the sends of this end are complete and TIME_WAIT, if it was entered, is over: the
-- connection is CLOSED and has one reference.
pub close_settles :
    (c0 c : Conn) (g : Ghost)
    → Ready c0
    → Reach c0 c g
    → settled g ≡ true
    → (c.state ≡ closed) × (c.kref ≡ 1)
close_settles c0 c g r p h = ground (
  arith,
  accounts_balance c0 c g r p,
  (Reach-Inv c0 c g r p).order.one_close,
  (Reach-Inv c0 c g r p).order.passive_after,
  (Reach-Inv c0 c g r p).order.expired_after,
)

-- From an end that is online with one reference and to which nothing has happened yet, without flow
-- control, whose timers can be set, which notifies its session, has no keepalive timeout and no
-- flushed FIN, after any sequence of these events: the close by the application, the completion of
-- the FIN it sent, the peer's FIN, the completion of the acknowledgment of it, the peer's
-- acknowledgment of the FIN that was sent, and the end of TIME_WAIT, each at most once and after
-- its cause, the peer's events and the end of TIME_WAIT with no FIN left in the queues, and without
-- the timer xio_fin_req_timeout going off: while an acknowledgment of the peer's FIN is under way,
-- or the peer's acknowledgment is awaited, the table has the transition of a FIN, or of an
-- acknowledgment, for the state of the connection, and the count of references is at least one.
pub close_never_stuck :
    (c0 c : Conn) (g : Ghost)
    → Ready c0
    → Reach c0 c g
    → (1 ≤ c.kref)
      × ((if g.fin_received && not g.ack_completed then (next_transit c.state fin).valid else true)
          ≡ true)
      × ((if fin_sent g && not g.acked then (next_transit c.state ack).valid else true) ≡ true)
unfolding next_transit
close_never_stuck c0 c g r p = ground (
  arith,
  accounts_balance c0 c g r p,
  (Reach-Inv c0 c g r p).order.one_close,
  (Reach-Inv c0 c g r p).order.passive_after,
  (Reach-Inv c0 c g r p).order.expired_after,
  (Reach-Inv c0 c g r p).order.completed_after,
)
