-- ===== src/Factory/State.antt =====
-- The stored fields of `OptionsFactory` of src/contracts/factory/contract.ts.
use frogop_pub.Prelude.{ℕ, List}

-- an entry of the list of pools: slots 0, 1 and 2 of its index
pub record PoolEntry : Type 0 where
  pub pool : ℕ
  pub underlying : ℕ
  pub premium_token : ℕ

-- The storage that the keys of `_getPoolListKey` reach is `pool_list`, by index; `chain` is the
-- state of the chain that a deployment changes, and `created` the `PoolCreated` events, the latest
-- first.
pub record FactoryState (P C : Type 0) : Type 0 where
  pub owner : ℕ
  pub pool_template : ℕ
  pub pools : P
  pub treasury : ℕ
  pub pool_count : ℕ
  pub pool_list : ℕ → PoolEntry
  pub chain : C
  pub created : List PoolEntry
