-- ===== src/BtcPool/State.antt =====
-- The storage of a type 2 pool (src/contracts/pool/btc-underlying.ts).
use frogop_pub.Prelude.{ℕ, List}
use frogop_pub.Pool.State.{PoolState}

-- The state of the pool's own fields (`pool`), of the fields that btc-underlying.ts adds, and of the
-- bridge. `btc_collateral` and `escrow_hashes` are what `getStorageAt` gives for slots 7 and 8 of an
-- option.
pub record BtcState (L B : Type 0) : Type 0 where
  pub pool : PoolState L
  pub bridge_address : ℕ
  pub btc_collateral : ℕ → ℕ
  pub escrow_hashes : ℕ → List ℕ
  pub bridge : B
