-- ===== src/Nexus/Life.antt =====
-- How a nexus is opened, connected and closed.
pub mod Shared
pub mod Closing
use accelio.Prelude.{
  ℕ, zero, suc, ◌+◌, ◌-◌, Bool, true, false, not, Option, none, some, List, [], ◌∷◌, if◌then◌else◌,
  ◌==◌, u32, sub_wrap,
}
use accelio.Nexus.{
  Nexus, State, Event, Work, Answers, is, notify, state_set, add_delayed_work, cancel_dwork,
  nexus_addref,
}
use accelio.Nexus.Reconnect.{release_cb}

-- xio_nexus_connect, of a transport that can connect; `memory` is whether each allocation succeeds.
-- The answer, whether the observer is to be told in the context of the nexus that it is established,
-- and the nexus.
unfoldable pub connect : Nexus → Bool → Answers → Bool × Bool × Nexus
connect n memory ans = elim n.state [
  | State.opened ↦
      if memory
      then if ans.connects then (true, false, state_set State.connecting n) else (false, false, n)
      else (false, false, n)
  | State.connected ↦ if memory then (true, true, n) else (false, false, n)
  | _ ↦ (true, false, n)
]

-- xio_nexus_listen, without the cache; `listens` is whether transport->listen answers 0
unfoldable pub listen : Nexus → Bool → Bool × Nexus
listen n listens =
    if is n.state State.opened
    then if listens
      then (true, record (state_set State.listen n) { is_listener = true })
      else (false, n)
    else (true, n)

-- xio_nexus_accept and xio_nexus_reject: the answer, given that of the transport
unfoldable pub accept : Nexus → Bool → Bool
accept n answer = if is n.state State.opened then answer else true

-- xio_nexus_on_recv_session_setup_req: the first session of a nexus has its first reference
unfoldable pub on_recv_session_setup_req : Nexus → Nexus
on_recv_session_setup_req n =
    if n.is_first_req then record n { is_first_req = false } else nexus_addref n

-- xio_nexus_release
unfoldable pub release : Nexus → Nexus
release n = release_cb (cancel_dwork n)

-- The states in which a nexus that nobody uses is closed at once.
abbrev pub at_once : State → Bool
at_once State.listen = true
at_once State.error = true
at_once State.disconnected = true
at_once s = false

-- xio_nexus_delayed_close; `timeout` is g_options.transport_close_timeout
unfoldable pub delayed_close : Nexus → ℕ → Bool → Nexus
delayed_close n timeout timer =
    if at_once n.state then release n else (add_delayed_work n timeout Work.release timer).1

-- xio_nexus_close, without the observer
unfoldable pub close : Nexus → ℕ → Bool → Nexus
close n timeout timer =
    if n.kref == 1
    then delayed_close (record n { kref = 0 }) timeout timer
    else record n { kref = sub_wrap 32 n.kref 1 }

-- xio_nexus_query, where the transport can be modified: what it stores, with the answer, which is
-- -1 also after a success
unfoldable pub query : Bool → Option ℕ → Bool × Option ℕ
query wants_tos none = (false, none)
query wants_tos (some tos) = (false, if wants_tos then some tos else none)
