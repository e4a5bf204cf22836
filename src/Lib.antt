-- ===== src/Lib.antt =====
-- Accelio: reliable messages between sessions over RDMA and TCP. This library models the
-- common part of the code, src/common, that is the same for every transport, and the work queue of
-- src/usr.
--
-- How the parts interact. A message of the application waits in a queue of its connection. The
-- transmission takes messages from the queues, checks the peer's credits, numbers each message and
-- hands a task with its message buffer to the nexus, which is the transport's side. The buffer holds
-- a TLV header, the session header and the data, in network byte order. The peer's session reads
-- them, moves its credit window and calls the connection's handlers. A closing connection follows
-- the table of a TCP-like protocol; every call that the outside owes holds a reference. Tasks
-- come from a pool and go back to it with their last reference. A nexus that loses its transport
-- reconnects, or tells its observers that it is disconnected. Observers carry the events of contexts, nexuses and servers to the parts above them.
--
-- Files:
-- Prelude, Prelude/*: Boolean tests, lists and bits over the native numbers.
-- Wire: src/common/xio_protocol.h. A buffer is a list of bytes; `write_uint32` is
--   xio_write_uint32, `put_bytes` the memcpy of xio_write_array, and so on.
-- Mbuf: src/common/xio_mbuf.h and the TLV functions of src/common/xio_utils.c. `Mbuf` is struct
--   xio_mbuf with the memory that it points to; an operation keeps its C name without xio_mbuf_.
-- Observer: src/common/xio_observer.c. Operations keep their names without xio_observable_.
-- Iov: the arrays of buffers of src/common/xio_utils.c (memcpyv, memclonev).
-- Table: the hash table of src/common/sys/hashtable.h, and the hash functions of
--   src/common/xio_hash.h.
-- Caches: src/common/xio_idr.c (Caches/Idr), xio_sessions_cache.c (Caches/Sessions) and
--   xio_nexus_cache.c (Caches/Nexus), each a table; an operation keeps its C name without xio_.
-- Workqueue: src/usr/xio/xio_workqueue.c, with src/usr/xio/xio_timers_list.h in Workqueue/Timers,
--   the delayed works in Workqueue/Delayed and the others in Workqueue/Works.
-- Message: the message types and their tests in src/common/xio_common.h and include/xio_base.h.
-- Connection: src/common/xio_connection.c and xio_connection.h, in Connection/Send
--   (xio_connection_send), Connection/Xmit (xio_connection_xmit), Connection/Queues (the flushes),
--   Connection/Receive (the credit window of src/common/xio_session.c and the release of messages),
--   Connection/Transition (the table of the close protocol), Connection/Close (its handlers),
--   Connection/Keepalive, Connection/Setup (the hello messages, and ends by the outside),
--   Connection/Submit (what the application sends), Connection/Complete (completions and the
--   reconnection), and the modules of proofs below them. A function keeps its C name, less xio_ and xio_connection_.
-- Handshake: the setup request and response of src/common/xio_session_client.c and
--   xio_session_server.c, written and read with the functions of Wire.
-- Pools: src/common/xio_task.h with src/usr/xio/xio_task.c (Pools/Tasks), less xio_tasks_pool_,
--   and src/common/xio_objpool.c (Pools/Objects), less xio_objpool_. A task is known by its address.
-- Nexus: src/common/xio_nexus.c and xio_nexus.h: the table of observers (Nexus/Observers), the queue
--   of tasks (Nexus/Queue), the loss of a transport and the reconnection (Nexus/Reconnect), the setup
--   messages (Nexus/Setup), opening and closing (Nexus/Life). Functions without xio_nexus_.
-- Options: src/common/xio_options.c, with the names of struct xio_options and enum xio_optname.
-- Uri: the parts of an address in src/common/xio_utils.c, without xio_.
--
-- Bounds and fuel. Machine integers keep their width and wrap; pointers are 64-bit numbers. The
-- transmission loop runs on fuel, two more than the answers of the nexus that are left: a round that
-- takes no answer adds two to the count that ends the loop. Where no answer is the error of a message,
-- the rounds are bounded by the messages that are queued, whatever the number of answers
-- (Connection/Xmit/Rounds). memcpyv runs on the number of entries of
-- both arrays, of which each iteration leaves one behind; the pass over the timers on the readings of
-- the clock that it is given, and the handler of the pipe on a number of reads, since what they call
-- may add works without end. The other loops recur on their list.
--
-- Not modelled. The transports, the event loop and the platform are outside: what they answer is
-- an argument or a script. Threads are left out, as each connection belongs to the one thread of
-- its context. Logging and statistics are left out. The session's state
-- machine, the handler of a nexus' setup request with the swap of two nexus, and the routing of
-- messages by the nexus are not modelled.
pub mod Prelude
pub mod Wire
pub mod Mbuf
pub mod Iov
pub mod Observer
pub mod Table
pub mod Caches
pub mod Workqueue
pub mod Message
pub mod Connection
pub mod Handshake
pub mod Pools
pub mod Nexus
pub mod Options
pub mod Uri
