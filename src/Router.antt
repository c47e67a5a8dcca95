-- ===== src/Router.antt =====
-- The router of spreads (src/contracts/router/contract.ts).
pub mod Contract
pub mod Legs
mod Tests
