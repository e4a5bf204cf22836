-- ===== src/Caches.antt =====
-- The indexes of the library: src/common/xio_idr.c (the objects of the application that are alive),
-- xio_sessions_cache.c and xio_nexus_cache.c (sessions and nexus by their numbers). Each is a table
-- of src/common/sys/hashtable.h. The locks around their operations are not modelled: an operation
-- is one step.
pub mod Idr
pub mod Sessions
pub mod Nexus
mod Tests
