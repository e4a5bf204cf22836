-- ===== src/Workqueue/Delayed.antt =====
-- The delayed works: arming the timer for the first of them, and running those that are due.
pub mod Due
use accelio.Prelude.{
  ℕ, ◌+◌, ◌*◌, Bool, true, false, ◌&&◌, not, Option, none, some, List, [], ◌∷◌, if◌then◌else◌, ltb,
  ◌==◌,
}
use accelio.Workqueue.{Queue, set_pending, call}
use accelio.Workqueue.Timers.{
  Timer, time_before_eq64, timers_list_add_duration, timers_list_del, ns_duration_to_expire,
}

-- The end of xio_workqueue_rearm, where the first timer expires in `ns` ns; `settime` is whether
-- xio_timerfd_settime succeeds. `true` is 0, `false` is -1.
unfoldable pub arm : Queue → ℕ → Bool → Bool × Queue
arm q ns settime =
    if settime
    then (true, record q { timer_ns = if ltb ns 1 then 1 else ns; timer_armed = true })
    else (false, q)

unfoldable pub rearm_for : Queue → Option ℕ → Bool → Bool × Queue
rearm_for q none settime = (true, q)
rearm_for q (some ns) settime = arm q ns settime

-- xio_workqueue_rearm
unfoldable pub rearm : Queue → ℕ → Bool → Bool × Queue
rearm q now settime =
    if q.in_poll then (true, q) else rearm_for q (ns_duration_to_expire q.timers_list now) settime

-- xio_workqueue_disarm; its failure is only logged
unfoldable pub disarm : Queue → Bool → Queue
disarm q settime =
    if q.timer_armed
    then record q { timer_armed = false; timer_ns = if settime then 0 else q.timer_ns }
    else q

-- xio_workqueue_add_delayed_work: `now` and `later` are the two readings of the clock
unfoldable pub add_delayed_work : Queue → ℕ → ℕ → ℕ → ℕ → Bool → Bool × Queue
add_delayed_work q msec dwork now later settime =
    if q.pending dwork
    then (false, q)
    else rearm
        (record (set_pending dwork true q) {
          timers_list = (timers_list_add_duration q.timers_list now (msec * 1000000) dwork).1;
        })
        later settime

-- xio_workqueue_del_delayed_work
unfoldable pub del_delayed_work : Queue → ℕ → ℕ → Bool → Bool → Bool × Queue
del_delayed_work q dwork now stopped settime =
    if q.pending dwork
    then rearm
        (record (set_pending dwork false (disarm q stopped)) {
          timers_list = (timers_list_del q.timers_list dwork).1;
        })
        now settime
    else (false, q)

module _ (run : ℕ → Queue → Queue) where
  -- xio_timers_list_expire: an iteration reads the clock once; `none` when the readings run out
  unfoldable pub expire : List ℕ → Queue → Option Queue
  expire [] q = elim q.timers_list [ [] ↦ some q | _ ∷ _ ↦ none ]
  expire (now ∷ times) q = elim q.timers_list [
    | [] ↦ some q
    | t ∷ ts ↦
        let rest = expire times (
          run t.dwork (call t.dwork (set_pending t.dwork false (record q { timers_list = ts })))) in
        if time_before_eq64 t.expires now then rest else some q
  ]

  rearm_after : Option Queue → ℕ → Bool → Option Queue
  rearm_after none now settime = none
  rearm_after (some q) now settime = some (rearm (record q { in_poll = false }) now settime).1

  -- xio_delayed_action_handler: `fired` is whether the read of timer_fd gives a count
  unfoldable pub delayed_action_handler : Bool → List ℕ → ℕ → Bool → Queue → Option Queue
  unfolding rearm_after
  delayed_action_handler fired times now settime q =
      let expired = expire times (record q { in_poll = true }) in
      if fired then rearm_after expired now settime else some q
