-- ===== src/Workqueue.antt =====
-- src/usr/xio/xio_workqueue.c: works that a context runs from its event loop, at once (through a
-- pipe) or after a delay (through one timer for a list of delays). A work is known by its address.
-- What a work's function does to the queue is a parameter, `run`; the clock's readings, the system
-- calls' outcomes and the number of iterations that are followed are arguments.
pub mod Timers
pub mod Delayed
pub mod Works
mod Tests
use accelio.Prelude.{ℕ, Bool, List, [], ◌∷◌, if◌then◌else◌, ◌==◌}
use accelio.Workqueue.Timers.{Timer}

-- `struct xio_workqueue` with the pending flags of the works, and the calls of their functions,
-- newest first.
pub record Queue : Type 0 where
  pub timers_list : List Timer
  pub in_poll : Bool  -- XIO_WORKQUEUE_IN_POLL
  pub timer_armed : Bool  -- XIO_WORKQUEUE_TIMER_ARMED
  pub timer_ns : ℕ  -- what timer_fd was last set to, 0 when it is stopped
  pub pipe : List ℕ
  pub deleted_works : List ℕ  -- the first deleted_works_nr of them, newest first
  pub pending : ℕ → Bool  -- XIO_WORK_PENDING
  pub calls : List ℕ

abbrev pub set_pending : ℕ → Bool → Queue → Queue
set_pending w b q = record q { pending = λ x. if x == w then b else q.pending x }

abbrev pub call : ℕ → Queue → Queue
call w q = record q { calls = w ∷ q.calls }
