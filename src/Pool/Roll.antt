-- ===== src/Pool/Roll.antt =====
-- src/contracts/pool/contract.ts: rollOption, which ends an open option and writes a new one.
use frogop_pub.Prelude.{ℕ, ◌+◌, ◌%◌, ◌||◌, not, ltb, leb, ◌==◌, if◌then◌else◌}
use frogop_pub.Runtime.{
  Runtime, Env, Action, pure, gets, revert_if, ◌>>=◌, ◌>>◌, zero_address, u64_mod, not_writer,
  not_open, values_must_be_positive, expiry_in_past, expiry_too_far,
}
use frogop_pub.Pool.State.{
  PoolState, option_cancelled, option_written, option_rolled, status_open, status_cancelled,
  max_expiry_blocks,
}
use frogop_pub.Pool.Fees.{sub, collateral_amount, cancel_fee, collateral_token}
use frogop_pub.Pool.Base.{emit, find_option, set_option, set_status, pull, pay}
use frogop_pub.Pool.Write.{fresh_id}

module _ (rt : Runtime) where
  open rt use {Ledger}

  -- The caller makes up the difference to the new collateral, or is paid it.
  unfoldable pub adjust :
      Env → (token new_collateral refund : ℕ) → Action (PoolState Ledger) (Unit {0})
  unfolding pull pay sub
  adjust env token new_collateral refund =
      if ltb refund new_collateral
      then (do top_up ← sub rt new_collateral refund; pull rt env token env.sender env.self top_up)
      else (if ltb new_collateral refund
          then (do surplus ← sub rt refund new_collateral; pay rt env token env.sender surplus)
          else pure tt)

  unfoldable pub roll_option :
      Env
      → (option_id new_strike_price new_expiry_block new_premium : ℕ) → Action (PoolState Ledger) ℕ
  unfolding emit find_option set_option set_status pay collateral_token sub fresh_id
  roll_option env option_id new_strike_price new_expiry_block new_premium = do
    option ← find_option option_id
    revert_if (not (env.sender == option.writer)) not_writer
    revert_if (not (option.status == status_open)) not_open
    revert_if (new_strike_price == 0 || new_premium == 0) values_must_be_positive
    revert_if (leb new_expiry_block env.block) expiry_in_past
    revert_if (ltb ((env.block + max_expiry_blocks) % u64_mod) new_expiry_block) expiry_too_far
    token ← gets λ s. collateral_token s option.option_type
    old_collateral ←
        collateral_amount rt option.option_type option.strike_price option.underlying_amount
    new_collateral ←
        collateral_amount rt option.option_type new_strike_price option.underlying_amount
    fee ← cancel_fee rt env option old_collateral
    set_status option_id status_cancelled
    fee_recipient ← gets λ s. s.fee_recipient
    if ltb 0 fee then pay rt env token fee_recipient fee else pure tt
    refund_after_fee ← sub rt old_collateral fee
    adjust env token new_collateral refund_after_fee
    new_option_id ← fresh_id rt
    set_option new_option_id (record {
      id = new_option_id;
      writer = env.sender;
      buyer = zero_address;
      strike_price = new_strike_price;
      underlying_amount = option.underlying_amount;
      premium = new_premium;
      expiry_block = new_expiry_block;
      created_block = env.block;
      option_type = option.option_type;
      status = status_open;
    })
    emit (option_cancelled option_id env.sender refund_after_fee fee)
    emit (
        option_written new_option_id env.sender option.option_type new_strike_price
          option.underlying_amount new_premium new_expiry_block)
    emit (
        option_rolled option_id new_option_id env.sender new_strike_price new_expiry_block
          new_premium)
    pure new_option_id
