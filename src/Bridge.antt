-- ===== src/Bridge.antt =====
-- The bridge of the pools to Bitcoin (src/contracts/bridge/contract.ts).
pub mod Bitcoin
pub mod Scripts
pub mod State
pub mod Contract
pub mod Outputs
pub mod Prices
pub mod ScriptNumbers
pub mod Tests
