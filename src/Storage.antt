-- ===== src/Storage.antt =====
-- The storage of a pool's options and reservations, down to the words of the chain.
pub mod Bytes
pub mod Host
pub mod Options
pub mod Reservations
pub mod OptionCells
pub mod ReservationCells
pub mod Tests
