-- ===== src/Nexus/Queue/Flush.antt =====
-- What the transport takes of the queue, and what a flush gives back to the pool.
use accelio.Prelude.{
  ℕ, suc, ◌<◌, ◌≡◌, refl, ap, ◌∙◌, subst, none, Bool, true, false, ◌&&◌, List, [], ◌∷◌, ◌++◌,
  if◌then◌else◌, ltb, length, arith, Bool-cases, inl, inr,
}
use accelio.Prelude.Counts.{times, remove, times-append}
use accelio.Pools.Tasks.{Pool, put, release}
use accelio.Pools.Tasks.Ledger.{Ledger}
use accelio.Pools.Tasks.History.{release-Ledger}
use accelio.Nexus.{Nexus, Event}
use accelio.Nexus.Queue.{
  put_task, put_sender, flush_tasks, flush_tx_queue, Sent, taken, again, failed, xmit_loop, xmit,
  Transport, missing, cannot_send, can_send, XmitResult, ok, minus_one, enomsg, send,
}

xmit_loop_order :
    (answers : List Sent) (q : List ℕ)
    → let (sent, left, f) = xmit_loop answers q in sent ++ left ≡ q
unfolding xmit_loop
xmit_loop_order answers [] = refl
xmit_loop_order [] (t ∷ ts) = refl
xmit_loop_order (taken ∷ answers) (t ∷ ts) = ap (λ l. t ∷ l) (xmit_loop_order answers ts)
xmit_loop_order (again ∷ answers) (t ∷ ts) = refl
xmit_loop_order (failed ∷ answers) (t ∷ ts) = refl

-- How many answers are `taken` before the first that is not.
abbrev pub room : List Sent → ℕ
room [] = 0
room (taken ∷ answers) = suc (room answers)
room (again ∷ answers) = 0
room (failed ∷ answers) = 0

xmit_loop-room :
    (answers : List Sent) (q : List ℕ)
    → length (xmit_loop answers q).0
      ≡ (if ltb (room answers) (length q) then room answers else length q)
unfolding xmit_loop
xmit_loop-room answers [] = ground arith
xmit_loop-room [] (t ∷ ts) = ground arith
xmit_loop-room (taken ∷ answers) (t ∷ ts) = ground (arith, xmit_loop-room answers ts)
xmit_loop-room (again ∷ answers) (t ∷ ts) = ground arith
xmit_loop-room (failed ∷ answers) (t ∷ ts) = ground arith

-- Whether the first answer that is not `taken` is a failure.
abbrev pub fails : List Sent → Bool
fails [] = false
fails (taken ∷ answers) = fails answers
fails (again ∷ answers) = false
fails (failed ∷ answers) = true

xmit_loop-fails :
    (answers : List Sent) (q : List ℕ)
    → (xmit_loop answers q).2 ≡ (ltb (room answers) (length q) && fails answers)
unfolding xmit_loop
xmit_loop-fails answers [] = ground arith
xmit_loop-fails [] (t ∷ ts) = ground arith
xmit_loop-fails (taken ∷ answers) (t ∷ ts) = ground (arith, xmit_loop-fails answers ts)
xmit_loop-fails (again ∷ answers) (t ∷ ts) = ground arith
xmit_loop-fails (failed ∷ answers) (t ∷ ts) = ground arith

-- What is sent, answered and left when the task `t` is sent.
abbrev pub Handed : Transport → List Sent → Nexus → ℕ → List ℕ → XmitResult → Nexus → Type 0
Handed missing answers n t sent r m = (sent ≡ []) × (r ≡ minus_one) × (m ≡ n)
Handed cannot_send answers n t sent r m = (sent ≡ []) × (r ≡ ok) × (m ≡ n)
Handed can_send answers n t sent r m =
    let q = remove t n.tx_queue ++ t ∷ [] in
    let error = ltb (room answers) (length q) && fails answers in
    (sent ++ m.tx_queue ≡ q)
    × (length sent ≡ (if ltb (room answers) (length q) then room answers else length q))
    × (r ≡ (if error then enomsg else ok))
    × (m.events ≡ (if error then Event.message_error ∷ n.events else n.events))

-- With a transport that can send, a task that is sent goes behind those that wait, wherever it stood
-- before. The transport takes tasks from the front, in order, as many as it has room for; the others
-- stay, in order. The answer is -ENOMSG, and an observer is told of the message, just when there is a
-- task left and the transport fails to send it; else it is 0. Without a transport the answer is -1,
-- and with one that has no `send` it is 0, and the nexus is as it was.
pub send_order :
    (transport : Transport) (answers : List Sent) (n : Nexus) (t : ℕ)
    → let (sent, r, m) = send transport answers n t in Handed transport answers n t sent r m
unfolding send xmit
send_order missing answers n t = (refl, refl, refl)
send_order cannot_send answers n t = (refl, refl, refl)
send_order can_send answers n t =
    let q = remove t n.tx_queue ++ t ∷ [] in
    let e = xmit_loop-fails answers q in
    elim (Bool-cases (ltb (room answers) (length q) && fails answers)) [
      | inl f ↦ rw (e, f) (xmit_loop_order answers q, xmit_loop-room answers q, refl, refl)
      | inr f ↦ rw (e, f) (xmit_loop_order answers q, xmit_loop-room answers q, refl, refl)
    ]

-- The tasks of a queue: each holds the last reference to itself, and none has a sender.
pub record Last (q : Pool) (ts : List ℕ) : Type 0 where
  pub kref : (x : ℕ) → 0 < times x ts → (q.task x).kref ≡ 1
  pub alone : (x : ℕ) → 0 < times x ts → (q.task x).sender_task ≡ none

put_last :
    (n : Nexus) (t : ℕ)
    → (n.pool.task t).kref ≡ 1
    → put_task n t ≡ record n { pool = release n.pool t; tx_queue = remove t n.tx_queue }
unfolding put_task put
put_last n t e = ground (arith, e)

flush_step :
    (t : ℕ) (ts : List ℕ) (n : Nexus)
    → n.tx_queue ≡ t ∷ ts
    → (n.pool.task t).kref ≡ 1
    → (n.pool.task t).sender_task ≡ none
    → flush_tasks (t ∷ ts) n ≡ flush_tasks ts (record n { pool = release n.pool t; tx_queue = ts })
unfolding flush_tasks put_sender
flush_step t ts n e o s =
    let front : remove t (t ∷ ts) ≡ ts = ground arith in
    ap (flush_tasks ts) (
      ap (λ r. put_task (put_sender n t r) t) s
      ∙ put_last n t o
      ∙ ap (λ q. record n { pool = release n.pool t; tx_queue = q }) (ap (remove t) e ∙ front))

-- The other tasks of a queue are as they were when one is released.
release-Last :
    (q : Pool) (t : ℕ) (ts : List ℕ) → times t ts ≡ 0 → Last q (t ∷ ts) → Last (release q t) ts
unfolding release
release-Last q t ts z k = record {
  kref = λ x h. ground (arith, h, z, k.kref x);
  alone = λ x h. ground (arith, h, z, k.alone x);
}

released :
    (q : Pool) (t : ℕ) (lent : List ℕ)
    → (q.task t).kref ≡ 1
    → Ledger q (t ∷ lent)
    → Ledger (release q t) lent
released q t lent o l =
    let front : remove t (t ∷ lent) ≡ lent = ground arith in
    subst (Ledger (release q t)) front (release-Ledger q (t ∷ lent) t l (ground arith))

flush_tasks-Ledger :
    (ts rest : List ℕ) (n : Nexus)
    → n.tx_queue ≡ ts
    → Ledger n.pool (ts ++ rest)
    → Last n.pool ts
    → let m = flush_tasks ts n in (m.tx_queue ≡ []) × Ledger m.pool rest
flush_tasks-Ledger [] rest n e l k = unfold flush_tasks in (e, l)
flush_tasks-Ledger (t ∷ ts) rest n e l k =
    let o : (n.pool.task t).kref ≡ 1 = k.kref t (ground arith) in
    let z : times t ts ≡ 0 = ground (arith, l.owned t, l.single t, times-append t ts rest) in
    rw (flush_step t ts n e o (k.alone t (ground arith))) (
      flush_tasks-Ledger ts rest (record n { pool = release n.pool t; tx_queue = ts }) refl
        (released n.pool t (ts ++ rest) o l) (release-Last n.pool t ts z k))

-- A flush of a queue whose tasks hold the last references to themselves, and have no senders, empties
-- the queue and gives its tasks back: the account of the pool is in order with only the other tasks
-- lent.
pub flush-Ledger :
    (n : Nexus) (rest : List ℕ)
    → Ledger n.pool (n.tx_queue ++ rest)
    → Last n.pool n.tx_queue
    → let m = flush_tx_queue n in (m.tx_queue ≡ []) × Ledger m.pool rest
unfolding flush_tx_queue
flush-Ledger n rest l k = flush_tasks-Ledger n.tx_queue rest n refl l k
