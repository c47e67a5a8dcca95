-- ===== src/Pool.antt =====
-- The option pools (src/contracts/pool).
pub mod State
pub mod Fees
pub mod Base
pub mod Write
pub mod Trade
pub mod Close
pub mod Roll
pub mod Batch
pub mod Payments
pub mod Deadlines
pub mod Getters
pub mod Views
pub mod Deployment
pub mod Step
pub mod Lifecycle
pub mod Tests
pub mod Amounts
pub mod Solvency
pub mod Ledgers
pub mod Effects
