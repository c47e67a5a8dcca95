-- ===== src/Pool/Tests.antt =====
-- A chain with plain ledgers, a pool on it, and the theorems of the pool at its calls.
pub mod Chain
pub mod Runs
mod Witnesses
