-- ===== src/Pool/Write.antt =====
-- src/contracts/pool/contract.ts: writeOption.
use frogop_pub.Prelude.{ℕ, ◌+◌, ◌%◌, ◌||◌, ltb, leb, ◌==◌}
use frogop_pub.Runtime.{
  Runtime, Env, Action, pure, gets, modify, revert_if, ◌>>=◌, ◌>>◌, zero_address, u64_mod,
  invalid_option_type, values_must_be_positive, expiry_in_past, expiry_too_far,
}
use frogop_pub.Pool.State.{PoolState, option_written, status_open, max_expiry_blocks}
use frogop_pub.Pool.Fees.{add, collateral_amount, collateral_token}
use frogop_pub.Pool.Base.{emit, set_option, pull}

module _ (rt : Runtime) where
  open rt use {Ledger}

  -- `this._nextId.value`, which is then set to `SafeMath.add(optionId, u256.One)`
  unfoldable pub fresh_id : Action (PoolState Ledger) ℕ
  unfolding add
  fresh_id = do
    id ← gets λ s. s.next_id
    next ← add rt id 1
    modify λ s. record s { next_id = next }
    pure id

  unfoldable pub write_option :
      Env
      → (option_type strike_price expiry_block underlying_amount premium : ℕ)
      → Action (PoolState Ledger) ℕ
  unfolding fresh_id emit set_option pull collateral_token
  write_option env option_type strike_price expiry_block underlying_amount premium = do
    revert_if (ltb 1 option_type) invalid_option_type
    revert_if (strike_price == 0 || underlying_amount == 0 || premium == 0) values_must_be_positive
    revert_if (leb expiry_block env.block) expiry_in_past
    revert_if (ltb ((env.block + max_expiry_blocks) % u64_mod) expiry_block) expiry_too_far
    token ← gets λ s. collateral_token s option_type
    amount ← collateral_amount rt option_type strike_price underlying_amount
    option_id ← fresh_id
    set_option option_id (record {
      id = option_id;
      writer = env.sender;
      buyer = zero_address;
      strike_price = strike_price;
      underlying_amount = underlying_amount;
      premium = premium;
      expiry_block = expiry_block;
      created_block = env.block;
      option_type = option_type;
      status = status_open;
    })
    pull rt env token env.sender env.self amount
    emit (
        option_written option_id env.sender option_type strike_price underlying_amount premium
          expiry_block)
    pure option_id
