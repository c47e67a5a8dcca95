-- ===== src/Bridge/State.antt =====
-- The storage of `NativeSwapBridge` of src/contracts/bridge/contract.ts.
use frogop_pub.Prelude.{ℕ, Bool, List}

-- The two slots of the price cache by token, where a slot that was not written reads 0; the registry
-- of consumed outputs by script hash and value; and the state of the NativeSwap contract. The keys
-- that `sha256` makes for them are taken not to collide.
pub record BridgeState (W : Type 0) : Type 0 where
  pub native_swap : ℕ
  pub cached_price : ℕ → ℕ
  pub cached_block : ℕ → ℕ
  pub consumed : List ℕ → ℕ → Bool
  pub swap : W
