-- ===== src/QuotePool.antt =====
-- The type 1 pool, whose premiums and strikes are paid in Bitcoin (src/contracts/pool/btc-quote.ts).
pub mod State
pub mod Handlers
pub mod Effects
pub mod Safety
pub mod Step
pub mod Preservation
pub mod Reservations
pub mod Deployment
pub mod Histories
pub mod Guarantees
pub mod Bridging
pub mod Tests
