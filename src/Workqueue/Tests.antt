-- ===== src/Workqueue/Tests.antt =====
-- Runs of the work queue at fixed inputs.
use accelio.Prelude.{ℕ, ◌-◌, ◌^◌, true, ◌≡◌, some, List, [], ◌∷◌, arith, replicate}
use accelio.Workqueue.{Queue}
use accelio.Workqueue.Timers.{Timer, timers_list_add}
use accelio.Workqueue.Timers.Order.{InWindow, All, Sorted, Placed, add-Sorted}
use accelio.Workqueue.Delayed.{expire}
use accelio.Workqueue.Delayed.Due.{Passed, expire_runs_due}
use accelio.Workqueue.Works.{work_action_handler}
use accelio.Workqueue.Works.Drain.{Drained, drain_runs}

abbrev timer : ℕ → ℕ → Timer
timer dwork expires = record { dwork = dwork; expires = expires }

-- Three delays round the end of the clock's range.
abbrev delays : List Timer
delays = timer 1 (2 ^ 64 - 10) ∷ timer 2 5 ∷ timer 3 20 ∷ []

abbrev base : ℕ
base = 2 ^ 64 - 100

delays-InWindow : All (InWindow base) delays
delays-InWindow =
    ((omega arith, omega arith), ((omega arith, omega arith), ((omega arith, omega arith), tt)))

delays-Sorted : Sorted base delays
delays-Sorted = ((omega arith, (omega arith, tt)), ((omega arith, tt), (tt, tt)))

add-Sorted_example :
    let r = timers_list_add delays (timer 4 5) in
    Sorted base r.1 × Placed base (timer 4 5) delays r.1
add-Sorted_example =
    add-Sorted base (omega arith) (timer 4 5) (omega arith, omega arith) delays delays-InWindow
      delays-Sorted

abbrev queue : Queue
queue = record {
  timers_list = delays;
  in_poll = true;
  timer_armed = true;
  timer_ns = 1;
  pipe = 7 ∷ 8 ∷ 7 ∷ [];
  deleted_works = 8 ∷ [];
  pending = λ x. true;
  calls = [];
}

expire_runs_due_example :
    (q' : Queue) × (expire (λ w q. q) (replicate 3 5) queue ≡ some q') × Passed base 5 queue q'
expire_runs_due_example =
    expire_runs_due base 5 (omega arith) (omega arith, omega arith) queue delays-InWindow
      delays-Sorted

drain_runs_example :
    (q' : Queue) × (work_action_handler (λ w q. q) 4 queue ≡ some q') × Drained queue q'
drain_runs_example = drain_runs queue
