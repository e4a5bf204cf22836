-- ===== src/Nexus/Queue.antt =====
-- The tasks that wait for the transport.
pub mod Flush
use accelio.Prelude.{
  ℕ, zero, suc, ◌+◌, ◌-◌, Bool, true, false, Option, none, some, List, [], ◌∷◌, ◌++◌, if◌then◌else◌,
  ◌==◌,
}
use accelio.Prelude.Counts.{remove}
use accelio.Pools.Tasks.{Task, Pool, write, put}
use accelio.Nexus.{Nexus, Event, notify}

-- A task put back: with the last reference its entry moves from the queue it is in to the pool.
unfoldable pub put_task : Nexus → ℕ → Nexus
put_task n t =
    if (n.pool.task t).kref == 1
    then record n { pool = put n.pool t; tx_queue = remove t n.tx_queue }
    else record n { pool = put n.pool t }

abbrev pub clear_sender : Pool → ℕ → Pool
clear_sender q t = record q { task = write q.task t (record (q.task t) { sender_task = none }) }

-- The sender of a task, put back before it.
unfoldable pub put_sender : Nexus → ℕ → Option ℕ → Nexus
put_sender n t none = n
put_sender n t (some s) = let n1 = put_task n s in record n1 { pool = clear_sender n1.pool t }

unfoldable pub flush_tasks : List ℕ → Nexus → Nexus
flush_tasks [] n = n
flush_tasks (t ∷ ts) n = flush_tasks ts (put_task (put_sender n t (n.pool.task t).sender_task) t)

-- xio_nexus_flush_tx_queue; no task of the queue is the sender of another
unfoldable pub flush_tx_queue : Nexus → Nexus
flush_tx_queue n = flush_tasks n.tx_queue n

-- What transport->send answers for a task: it takes it off the queue into its own, or there is
-- no room for now (EAGAIN), or it fails.
pub data Sent : Type 0 where
  taken again failed : Sent

-- The loop of xio_nexus_xmit: the tasks that the transport takes, in order, the queue that is left,
-- and whether a send failed. An answer is used for each send; without one it is as for EAGAIN.
unfoldable pub xmit_loop : List Sent → List ℕ → List ℕ × List ℕ × Bool
xmit_loop answers [] = ([], [], false)
xmit_loop [] (t ∷ ts) = ([], t ∷ ts, false)
xmit_loop (taken ∷ answers) (t ∷ ts) =
    let (sent, left, f) = xmit_loop answers ts in (t ∷ sent, left, f)
xmit_loop (again ∷ answers) (t ∷ ts) = ([], t ∷ ts, false)
xmit_loop (failed ∷ answers) (t ∷ ts) = ([], t ∷ ts, true)

-- `nexus->transport`: NULL, or with and without a `send`.
pub data Transport : Type 0 where
  missing cannot_send can_send : Transport

-- What xio_nexus_xmit and xio_nexus_send return: 0, -1 or -ENOMSG.
pub data XmitResult : Type 0 where
  ok minus_one enomsg : XmitResult

-- xio_nexus_xmit: the tasks that the transport takes, the answer, and the nexus
unfoldable pub xmit : Transport → List Sent → Nexus → List ℕ × XmitResult × Nexus
xmit missing answers n = ([], minus_one, n)
xmit cannot_send answers n = ([], ok, n)
xmit can_send answers n =
    let (sent, left, f) = xmit_loop answers n.tx_queue in
    let n1 = record n { tx_queue = left } in
    if f then (sent, enomsg, notify Event.message_error n1) else (sent, ok, n1)

-- xio_nexus_send
unfoldable pub send : Transport → List Sent → Nexus → ℕ → List ℕ × XmitResult × Nexus
send missing answers n t = ([], minus_one, n)
send cannot_send answers n t = ([], ok, n)
send can_send answers n t =
    xmit can_send answers (record n { tx_queue = remove t n.tx_queue ++ t ∷ [] })
