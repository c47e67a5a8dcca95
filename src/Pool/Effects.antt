-- ===== src/Pool/Effects.antt =====
-- What a handler that returned has done: the option that it found, the conditions that it checked,
-- the token calls that went through, in order, and the state that it left.
pub mod Settling
pub mod Cancelling
pub mod Exercising
pub mod Buying
pub mod Transferring
pub mod Writing
pub mod Rolling
