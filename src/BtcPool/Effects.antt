-- ===== src/BtcPool/Effects.antt =====
-- The methods of a type 2 pool (src/contracts/pool/btc-underlying.ts), run to their end.
pub mod Writing
pub mod Exercising
pub mod Ending
