-- ===== src/Nexus.antt =====
-- src/common/xio_nexus.c and xio_nexus.h: a nexus joins the sessions that share one transport. It
-- notifies its observers, queues the tasks that wait for the transport, and reconnects when the
-- transport is lost.
-- Pointers are numbers and NULL is 0. What a transport, the event loop and the allocator answer are
-- arguments (Answers). A notification of all observers, or of one of them, is its event in a log,
-- newest first: whom it reaches is the matter of Observer.
pub mod Observers
pub mod Queue
pub mod Reconnect
pub mod Setup
pub mod Life
mod Tests
use accelio.Prelude.{
  u32, ◌+◌, ℕ, zero, suc, ◌+◌, ◌-◌, Bool, true, false, Option, none, some, List, [], ◌∷◌,
  if◌then◌else◌, ◌==◌,
}
use accelio.Prelude.Counts.{remove}
use accelio.Pools.Tasks.{Task, Pool, write, put, remap}

-- enum xio_nexus_state
pub data State : Type 0 where
  init opened listen connecting connected rejected closed disconnected reconnect error : State

-- enum xio_nexus_event, those that are sent here
pub data Event : Type 0 where
  established disconnected reconnecting reconnected closed refused error message_error : Event

-- The functions that close_time_hndl may be waiting for.
pub data Work : Type 0 where
  client_timeout server_timeout release : Work

-- struct xio_nexus, without what is constant for it but the features of its transport.
-- `close_time` is the pending delayed work, with its delay in milliseconds.
pub record Nexus : Type 0 where
  pub state : State
  pub is_client : Bool
  pub has_dup2 : Bool
  pub kref : ℕ
  pub is_first_req : Bool
  pub is_listener : Bool
  pub srq_enabled : Bool
  pub reconnect_retries : ℕ
  pub cid : ℕ
  pub server_cid : ℕ
  pub transport_hndl : ℕ
  pub new_transport_hndl : ℕ
  pub close_time : Option (ℕ × Work)
  pub destroy_queued : Bool  -- destroy_event is in the context's queue
  pub pool : Pool  -- primary_tasks_pool
  pub tx_queue : List ℕ
  pub events : List Event
  pub transport_closed : List ℕ

-- What the outside answers in one operation.
pub record Answers : Type 0 where
  pub handle : ℕ  -- transport->open
  pub connects : Bool  -- transport->connect answers 0
  pub dup2 : Bool  -- transport->dup2 answers 0
  pub recreated : Bool  -- the primary pool has its operations
  pub timer : Bool  -- the timer of the event loop can be armed
  pub observed : Bool  -- the observable is not empty

abbrev pub is : State → State → Bool
is init init = true
is opened opened = true
is listen listen = true
is connecting connecting = true
is State.connected State.connected = true
is rejected rejected = true
is State.closed State.closed = true
is State.disconnected State.disconnected = true
is State.reconnect State.reconnect = true
is State.error State.error = true
is s t = false

abbrev pub notify : Event → Nexus → Nexus
notify e n = record n { events = e ∷ n.events }

-- xio_nexus_state_set
abbrev pub state_set : State → Nexus → Nexus
state_set s n = record n { state = s }

-- xio_ctx_add_delayed_work on close_time_hndl, which leaves a work that is pending as it is. The new
-- work is pending, in the list of timers, also where the timer cannot be armed for it (-1).
unfoldable pub add_delayed_work : Nexus → ℕ → Work → Bool → Bool × Nexus
add_delayed_work n msec work timer = elim n.close_time [
  | some w ↦ (true, n)
  | none ↦ (timer, record n { close_time = some (msec, work) })
]

-- xio_nexus_cancel_dwork
abbrev pub cancel_dwork : Nexus → Nexus
cancel_dwork n = record n { close_time = none }

-- xio_nexus_addref
unfoldable pub nexus_addref : Nexus → Nexus
nexus_addref n = elim n.close_time [
  | some w ↦ record n { kref = 1; close_time = none }
  | none ↦ record n { kref = u32 (n.kref + 1) }
]
