-- ===== src/Factory.antt =====
-- The factory that deploys and lists the pools (src/contracts/factory/contract.ts).
pub mod Deployer
pub mod State
pub mod Handlers
pub mod Changes
pub mod Registry
pub mod Histories
pub mod Creation
mod Tests
