-- ===== src/Pools.antt =====
-- The pools: of tasks (Tasks), and of objects of one size (Objects).
pub mod Tasks
mod Tests
pub mod Objects
