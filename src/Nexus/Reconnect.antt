-- ===== src/Nexus/Reconnect.antt =====
-- Reconnecting a nexus whose transport is lost.
pub mod Backoff
pub mod Outcome
use accelio.Prelude.{
  ℕ, zero, suc, ◌+◌, ◌-◌, Bool, true, false, not, Option, none, some, List, [], ◌∷◌, if◌then◌else◌,
  ◌==◌, get_or, ltb,
}
use accelio.Pools.Tasks.{remap}
use accelio.Nexus.{
  Nexus, State, Event, Work, Answers, is, notify, state_set, add_delayed_work, cancel_dwork,
}
use accelio.Nexus.Queue.{flush_tx_queue}

-- xio_msecs
abbrev pub msecs : List ℕ
msecs = 60000 ∷ 30000 ∷ 15000 ∷ 0 ∷ []

-- XIO_SERVER_TIMEOUT
abbrev pub server_timeout_msecs : ℕ
server_timeout_msecs = 60000 + 30000 + 15000 + 1000

-- xio_nexus_reconnect, where the new transport was opened
unfoldable pub connect_new : Nexus → ℕ → Bool → Bool × Nexus
connect_new n opened connects =
    if opened == 0
    then (false, record n { new_transport_hndl = 0 })
    else if connects
    then (true, record n { new_transport_hndl = opened })
    else (
      false,
      record n { new_transport_hndl = 0; transport_closed = opened ∷ n.transport_closed },
    )

-- xio_nexus_reconnect
unfoldable pub reconnect : Nexus → Answers → Bool × Nexus
reconnect n ans =
    if is n.state State.reconnect then connect_new n ans.handle ans.connects else (false, n)

-- xio_nexus_prep_new_transport; dup2 leaves the new transport in the place of the old one
unfoldable pub prep_new_transport : Nexus → Answers → Bool × Nexus
prep_new_transport n ans =
    let n1 = record n { pool = remap n.pool n.new_transport_hndl } in
    if ans.dup2
    then (ans.recreated, record n1 { transport_hndl = n.new_transport_hndl })
    else (false, n1)

-- The end of the attempts.
unfoldable pub give_up : Nexus → Nexus
give_up n = notify Event.disconnected (flush_tx_queue (state_set State.disconnected n))

-- The next attempt after a delay, or none.
unfoldable pub retry_later : Nexus → Bool → Nexus
retry_later n timer =
    if ltb 0 n.reconnect_retries
    then (add_delayed_work (record n { reconnect_retries = n.reconnect_retries - 1 })
        (get_or msecs (n.reconnect_retries - 1) 0) Work.client_timeout timer).1
    else give_up n

-- xio_nexus_client_reconnect_timeout
unfoldable pub client_reconnect_timeout : Nexus → Answers → Nexus
client_reconnect_timeout n ans =
    let (connected, n1) = reconnect n ans in if connected then n1 else retry_later n1 ans.timer

-- xio_nexus_client_reconnect_failed
unfoldable pub client_reconnect_failed : Nexus → Answers → Nexus
client_reconnect_failed n ans = retry_later (prep_new_transport n ans).1 ans.timer

-- The first attempt of xio_nexus_client_reconnect, made at once.
unfoldable pub first_attempt : Nexus → Answers → Bool × Nexus
first_attempt n ans =
    let n1 = record n { reconnect_retries = 3 } in
    let (connected, n2) = reconnect n1 ans in
    if connected
    then (true, n2)
    else add_delayed_work (record n2 { reconnect_retries = 2 }) (get_or msecs 2 0)
        Work.client_timeout ans.timer

-- xio_nexus_client_reconnect; its test of XIO_NEXUS_STATE_RECONNECT, after the first one, never holds
unfoldable pub client_reconnect : Nexus → Answers → Bool × Nexus
client_reconnect n ans =
    if is n.state State.connected
    then if n.has_dup2
      then first_attempt (notify Event.reconnecting (state_set State.reconnect n)) ans
      else (false, n)
    else (false, n)

-- xio_nexus_server_reconnect
unfoldable pub server_reconnect : Nexus → Answers → Bool × Nexus
server_reconnect n ans =
    if is n.state State.connected
    then add_delayed_work (notify Event.reconnecting (state_set State.reconnect n))
        server_timeout_msecs Work.server_timeout ans.timer
    else (false, n)

-- xio_nexus_server_reconnect_timeout
abbrev pub server_reconnect_timeout : Nexus → Nexus
server_reconnect_timeout n = give_up n

-- The end of xio_nexus_disconnected.
unfoldable pub stay_disconnected : Nexus → Answers → Nexus
stay_disconnected n ans =
    let n1 = flush_tx_queue (state_set State.disconnected n) in
    if ans.observed then notify Event.disconnected n1 else record n1 { destroy_queued = true }

-- xio_nexus_disconnected; `option` is g_options.reconnect
unfoldable pub disconnected : Bool → Nexus → Answers → Nexus
disconnected option n ans =
    let (tried, n1) = if n.is_client then client_reconnect n ans else server_reconnect n ans in
    if option then if tried then n1 else stay_disconnected n1 ans else stay_disconnected n ans

-- xio_nexus_on_transport_disconnected
unfoldable pub on_transport_disconnected : Bool → Nexus → Answers → Nexus
on_transport_disconnected option n ans = disconnected option (cancel_dwork n) ans

-- The event XIO_TRANSPORT_EVENT_REFUSED
unfoldable pub on_transport_refused : Nexus → Answers → Nexus
on_transport_refused n ans =
    if is n.state State.reconnect
    then client_reconnect_failed n ans
    else notify Event.refused (flush_tx_queue (state_set State.disconnected n))

-- xio_nexus_trans_error_handler, with xio_nexus_on_transport_error
unfoldable pub trans_error_handler : Nexus → Answers → Nexus
trans_error_handler n ans =
    if is n.state State.reconnect
    then client_reconnect_failed n ans
    else notify Event.error (state_set State.error n)

-- xio_nexus_release_cb, without the cache
unfoldable pub release_cb : Nexus → Nexus
release_cb n =
    let n1 = if is n.state State.disconnected then n else state_set State.closed n in
    record n1 { transport_closed = n1.transport_hndl ∷ n1.transport_closed }

-- The delayed work that is due, run by the event loop, which no longer has it pending.
unfoldable pub fire : Nexus → Answers → Nexus
fire n ans = elim n.close_time [
  | none ↦ n
  | some (msec, Work.client_timeout) ↦ client_reconnect_timeout (cancel_dwork n) ans
  | some (msec, Work.server_timeout) ↦ server_reconnect_timeout (cancel_dwork n)
  | some (msec, Work.release) ↦ release_cb (cancel_dwork n)
]
