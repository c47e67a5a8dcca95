-- ===== src/Indexer.antt =====
-- The indexer (indexer/src): it reads the events of the pools and keeps tables of options.
pub mod Tables
pub mod Reader
pub mod Decoder
pub mod Emission
pub mod Statements
pub mod Decoding
pub mod Mirror
pub mod Following
pub mod Batches
pub mod Replay
pub mod Histories
pub mod Poller
pub mod Agreement
pub mod Polling
pub mod Progress
mod Tests
