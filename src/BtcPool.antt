-- ===== src/BtcPool.antt =====
-- The type 2 pool, whose calls lock Bitcoin in escrow (src/contracts/pool/btc-underlying.ts).
pub mod State
pub mod Handlers
pub mod Security
pub mod Effects
pub mod Step
pub mod Preservation
pub mod Histories
pub mod Guarantees
mod Tests
