-- ===== src/QuotePool/Effects.antt =====
-- What a call of a type 1 pool (src/contracts/pool/btc-quote.ts) that returned has done: the option
-- and the reservation that it found, what it checked, and the state that it left.
pub mod Reserving
pub mod Executing
pub mod Exercising
