-- ===== src/Router/Contract.antt =====
-- The methods of `SpreadRouter` of src/contracts/router/contract.ts.
use frogop_pub.Prelude.{ℕ, Bool, Option, none, some, ◌==◌}
use frogop_pub.Runtime.{
  Reason, Env, Action, ok, revert, pure, revert_if, ◌>>=◌, ◌>>◌, zero_address, invalid_pool_address,
  invalid_buy_option_id, write_leg_failed, buy_leg_failed, write_leg_1_failed, write_leg_2_failed,
}

-- `Blockchain.call` of `writeOption` and `buyOption` of the contract at an address, on the state of
-- the chain, from a contract that runs in an `Env`: its own caller, the block and its address. `none`
-- is a call without success. Whom the called contract sees as `Blockchain.tx.sender` is for the chain
-- to say.
pub record PoolCalls : Type 1 where
  pub World : Type 0
  pub call_write :
      Env
      → (pool option_type strike_price expiry_block underlying_amount premium : ℕ) → World
      → Option (ℕ × World)
  pub call_buy : Env → (pool option_id : ℕ) → World → Option (Bool × World)

-- What a leg needs: its calldata.
pub record Leg : Type 0 where
  pub option_type : ℕ
  pub strike_price : ℕ
  pub expiry_block : ℕ
  pub underlying_amount : ℕ
  pub premium : ℕ

module _ (pools : PoolCalls) where
  open pools use {World, call_write, call_buy}

  -- a call of `writeOption`, and the revert if it has no success
  unfoldable pub write_leg : Env → Reason → ℕ → Leg → Action World ℕ
  write_leg env reason pool leg w =
      elim (call_write env pool leg.option_type leg.strike_price leg.expiry_block
        leg.underlying_amount leg.premium w) [ none ↦ revert reason | some (id, w') ↦ ok (id, w') ]

  -- a call of `buyOption`, and the revert if it has no success
  unfoldable pub buy_leg : Env → ℕ → ℕ → Action World Bool
  buy_leg env pool option_id w = elim (call_buy env pool option_id w) [
    | none ↦ revert buy_leg_failed
    | some (done, w') ↦ ok (done, w')
  ]

  unfoldable pub execute_spread : Env → ℕ → Leg → ℕ → Action World ℕ
  unfolding write_leg buy_leg
  execute_spread env pool leg buy_option_id = do
    revert_if (pool == zero_address) invalid_pool_address
    revert_if (buy_option_id == 0) invalid_buy_option_id
    new_option_id ← write_leg env write_leg_failed pool leg
    bought ← buy_leg env pool buy_option_id
    pure new_option_id

  unfoldable pub execute_dual_write : Env → ℕ → Leg → Leg → Action World ℕ
  unfolding write_leg
  execute_dual_write env pool leg1 leg2 = do
    revert_if (pool == zero_address) invalid_pool_address
    option_id1 ← write_leg env write_leg_1_failed pool leg1
    option_id2 ← write_leg env write_leg_2_failed pool leg2
    pure option_id1
