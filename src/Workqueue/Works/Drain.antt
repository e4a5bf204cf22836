-- ===== src/Workqueue/Works/Drain.antt =====
-- Which works the handler of the pipe runs.
use accelio.Prelude.{
  ℕ, ◌<◌, Bool, true, false, ◌&&◌, not, ◌≡◌, refl, ap, ◌∙◌, some, List, [], ◌∷◌, if◌then◌else◌,
  ◌==◌, length, arith, Bool-cases, inl, inr, zero, suc,
}
use accelio.Prelude.Counts.{times}
use accelio.Workqueue.{Queue}
use accelio.Workqueue.Works.{
  max_deleted_works, add_work, del_work, found, take_work, work_action_handler,
}

abbrev pub idle : ℕ → Queue → Queue
idle w q = q

abbrev pub in_pipe : List ℕ → ℕ → Bool
in_pipe [] x = false
in_pipe (w ∷ ws) x = let rest = in_pipe ws x in if w == x then true else rest

-- Whether a drain runs a work: it is in the pipe, pending, and not marked as deleted.
abbrev pub runs : Queue → ℕ → Bool
runs q x = in_pipe q.pipe x && (q.pending x && not (found q.deleted_works x))

-- The state that a drain leaves: a work that is to run has been called once more, and no longer
-- pends; any other work is as it was.
pub record Drained (q q' : Queue) : Type 0 where
  pub pipe : q'.pipe ≡ []
  pub forgotten : q'.deleted_works ≡ []
  pub delays : q'.timers_list ≡ q.timers_list
  pub ran :
      (x : ℕ) → times x q'.calls ≡ (if runs q x then suc (times x q.calls) else times x q.calls)
  pub flags : (x : ℕ) → q'.pending x ≡ q.pending x && not (runs q x)

take_work-pipe :
    (w : ℕ) (ws : List ℕ) (q : Queue)
    → take_work idle (record q { pipe = ws }) w ≡ record (take_work idle q w) { pipe = ws }
unfolding take_work
take_work-pipe w ws q = elim (Bool-cases (found q.deleted_works w)) [
  | inl f ↦ rw f refl
  | inr f ↦ elim (Bool-cases (q.pending w)) [ inl p ↦ rw (f, p) refl | inr p ↦ rw (f, p) refl ]
]

-- What one iteration means for one work.
ran_step :
    (w x : ℕ) (ws : List ℕ) (q q' : Queue)
    → times x q'.calls ≡ (
        if runs (record (take_work idle q w) { pipe = ws }) x
        then suc (times x (take_work idle q w).calls)
        else times x (take_work idle q w).calls)
    → times x q'.calls
      ≡ (if runs (record q { pipe = w ∷ ws }) x then suc (times x q.calls) else times x q.calls)
unfolding take_work
ran_step w x ws q q' h = ground arith

flags_step :
    (w x : ℕ) (ws : List ℕ) (q q' : Queue)
    → q'.pending x
      ≡ (take_work idle q w).pending x && not (runs (record (take_work idle q w) { pipe = ws }) x)
    → q'.pending x ≡ q.pending x && not (runs (record q { pipe = w ∷ ws }) x)
unfolding take_work
flags_step w x ws q q' h = ground arith

take_work_timers : (w : ℕ) (q : Queue) → (take_work idle q w).timers_list ≡ q.timers_list
unfolding take_work
take_work_timers w q = ground arith

drain_pipe :
    (fuel : ℕ) (ws : List ℕ) (q : Queue)
    → length ws < fuel
    → (q' : Queue) × (work_action_handler idle fuel (record q { pipe = ws }) ≡ some q')
      × Drained (record q { pipe = ws }) q'
unfolding work_action_handler
drain_pipe zero ws q h = absurd (omega arith)
drain_pipe (suc fuel) [] q h = (
  record q { pipe = []; deleted_works = [] },
  refl,
  record {
    pipe = refl;
    forgotten = refl;
    delays = refl;
    ran = λ x. refl;
    flags = λ x. ground arith;
  },
)
drain_pipe (suc fuel) (w ∷ ws) q h =
    let (q', r, d) = drain_pipe fuel ws (take_work idle q w) (omega arith) in
    (
      q',
      ap (work_action_handler idle fuel) (take_work-pipe w ws q) ∙ r,
      record {
        pipe = d.pipe;
        forgotten = d.forgotten;
        delays = d.delays ∙ take_work_timers w q;
        ran = λ x. ran_step w x ws q q' (d.ran x);
        flags = λ x. flags_step w x ws q q' (d.flags x);
      },
    )

-- With functions that leave the queue alone, the handler of the pipe ends after one read more than
-- the pipe holds addresses, with the pipe empty and no work marked as deleted. It has run exactly
-- the works that the pipe held, that were pending and not marked as deleted, each of them once,
-- however often its address stood in the pipe; only their flags are cleared.
pub drain_runs :
    (q : Queue)
    → (q' : Queue) × (work_action_handler idle (suc (length q.pipe)) q ≡ some q') × Drained q q'
drain_runs q = drain_pipe (suc (length q.pipe)) q.pipe q (omega arith)

readded_marked :
    (q : Queue) (w : ℕ)
    → q.pending w ≡ true
    → length q.deleted_works < max_deleted_works
    → let q1 = (add_work (del_work q w).1 w true).1 in
      (found q1.deleted_works w ≡ true) × (q1.pending w ≡ true) × (q1.calls ≡ q.calls)
unfolding add_work del_work found
readded_marked q w p h = (ground (arith, p, h), ground (arith, p, h), ground (arith, p, h))

-- A pending work that is deleted, while there is room to mark it, and then added again before the
-- handler runs, is not run by the handler: it stays pending, with nothing left in the pipe that
-- would run it.
pub readded_lost :
    (q : Queue) (w : ℕ)
    → q.pending w ≡ true
    → length q.deleted_works < max_deleted_works
    → let q1 = (add_work (del_work q w).1 w true).1 in
      (q' : Queue) × (work_action_handler idle (suc (length q1.pipe)) q1 ≡ some q')
      × (times w q'.calls ≡ times w q.calls)
      × (q'.pending w ≡ true)
      × (q'.pipe ≡ [])
readded_lost q w p h =
    let q1 = (add_work (del_work q w).1 w true).1 in
    let (q', r, d) = drain_runs q1 in
    let (f, k, c) = readded_marked q w p h in
    (q', r, ground (arith, d.ran w, f, k, c), ground (arith, d.flags w, f, k), d.pipe)
