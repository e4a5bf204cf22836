-- ===== src/Connection.antt =====
-- src/common/xio_connection.c and xio_connection.h: one end of a connection.
-- The pointers to session, nexus and context are replaced by what the code reads through them. The
-- outside answers by scripts: `nexus` holds what the next attempts to hand a task to the nexus
-- give, and an exhausted script means that the transport takes nothing more for now; `timer_ok` is
-- whether the context accepts delayed work. Callbacks of the application, and works that are
-- handed to the context, go to `log`, newest first. A `uint16_t` or `int` that is only a flag is a
-- `Bool`; the other counters keep their width and wrap.
pub mod State
pub mod Queues
pub mod Send
pub mod Xmit
pub mod Transition
pub mod Receive
pub mod Close
pub mod Keepalive
pub mod Setup
pub mod Submit
pub mod Complete
mod Tests
mod FlowTests
mod SetupTests
mod SubmitTests
unfoldable pub use State.*
