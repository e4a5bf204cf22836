-- ===== src/Workqueue/Works.antt =====
-- The works that run at once: written to the pipe, read back by the handler.
pub mod Drain
use accelio.Prelude.{
  ℕ, zero, suc, Bool, true, false, ◌&&◌, ◌||◌, not, Option, none, some, List, [], ◌∷◌, ◌++◌,
  if◌then◌else◌, ltb, ◌==◌, length,
}
use accelio.Workqueue.{Queue, set_pending, call}

-- MAX_DELETED_WORKS
abbrev pub max_deleted_works : ℕ
max_deleted_works = 1024

-- xio_workqueue_add_work: `written` is whether the write to the pipe takes the address
unfoldable pub add_work : Queue → ℕ → Bool → Bool × Queue
add_work q w written =
    if written
    then (true, record (set_pending w true q) { pipe = q.pipe ++ w ∷ [] })
    else (false, set_pending w true q)

-- xio_workqueue_del_work
unfoldable pub del_work : Queue → ℕ → Bool × Queue
del_work q w =
    if q.pending w
    then (
      true,
      if ltb (length q.deleted_works) max_deleted_works
          then record (set_pending w false q) { deleted_works = w ∷ q.deleted_works }
          else set_pending w false q,
    )
    else (false, q)

-- The scan of deleted_works.
unfoldable pub found : List ℕ → ℕ → Bool
found [] w = false
found (d ∷ ds) w = let rest = found ds w in if d == w then true else rest

module _ (run : ℕ → Queue → Queue) where
  -- What is done with a work that was read.
  unfoldable pub take_work : Queue → ℕ → Queue
  take_work q w =
      if found q.deleted_works w
      then q
      else if q.pending w
      then run w (call w (set_pending w false q))
      else q

  -- xio_work_action_handler: an iteration reads the pipe once; `none` when the iterations run out.
  -- The pipe holds whole addresses, none of them NULL.
  unfoldable pub work_action_handler : ℕ → Queue → Option Queue
  unfolding take_work
  work_action_handler zero q = none
  work_action_handler (suc fuel) q = elim q.pipe [
    | [] ↦ some (record q { deleted_works = [] })
    | w ∷ ws ↦ work_action_handler fuel (take_work (record q { pipe = ws }) w)
  ]
