-- ===== src/Runtime.antt =====
-- What a contract is given by the chain: results that may revert, the caller and block of a call,
-- and the interface of the code that is not in the repository.
mod Revert
mod Chain
pub use Revert.*
pub use Chain.*
