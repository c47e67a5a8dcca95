-- ===== src/Pool/Close.antt =====
-- src/contracts/pool/contract.ts: cancelOption, exercise and settle, which end an option.
use frogop_pub.Prelude.{ℕ, Bool, true, not, ltb, leb, ◌==◌, if◌then◌else◌}
use frogop_pub.Runtime.{
  Runtime, Env, Action, pure, gets, revert_if, ◌>>=◌, ◌>>◌, not_writer, not_open, not_purchased,
  not_buyer, not_yet_expired, grace_period_ended, grace_period_not_ended,
}
use frogop_pub.Pool.State.{
  PoolState, OptionRecord, option_cancelled, option_exercised, option_expired, call, status_open,
  status_purchased, status_exercised, status_expired, status_cancelled, exercise_fee_bps,
}
use frogop_pub.Pool.Fees.{
  sub, strike_value, ceil_fee, collateral_amount, cancel_fee, collateral_token,
}
use frogop_pub.Pool.Base.{emit, find_option, set_status, grace_end, pull, pay}

module _ (rt : Runtime) where
  open rt use {Ledger}

  -- what `cancelOption`, and a round of `batchCancel`, does behind its checks
  unfoldable pub refund_option : Env → ℕ → OptionRecord → Action (PoolState Ledger) (Unit {0})
  unfolding emit set_status pay collateral_token sub
  refund_option env option_id option = do
    token ← gets λ s. collateral_token s option.option_type
    amount ← collateral_amount rt option.option_type option.strike_price option.underlying_amount
    fee ← cancel_fee rt env option amount
    return_amount ← sub rt amount fee
    set_status option_id status_cancelled
    pay rt env token option.writer return_amount
    fee_recipient ← gets λ s. s.fee_recipient
    if ltb 0 fee then pay rt env token fee_recipient fee else pure tt
    emit (option_cancelled option_id option.writer return_amount fee)

  unfoldable pub cancel_option : Env → ℕ → Action (PoolState Ledger) Bool
  cancel_option env option_id = do
    option ← find_option option_id
    revert_if (not (env.sender == option.writer)) not_writer
    revert_if (not (option.status == status_open)) not_open
    refund_option env option_id option
    pure true

  unfoldable pub exercise : Env → ℕ → Action (PoolState Ledger) Bool
  unfolding emit find_option set_status pay pull grace_end sub
  exercise env option_id = do
    option ← find_option option_id
    revert_if (not (option.status == status_purchased)) not_purchased
    revert_if (not (env.sender == option.buyer)) not_buyer
    revert_if (ltb env.block option.expiry_block) not_yet_expired
    end ← grace_end option
    revert_if (leb end env.block) grace_period_ended
    value ← strike_value rt option.strike_price option.underlying_amount
    set_status option_id status_exercised
    underlying ← gets λ s. s.underlying
    premium_token ← gets λ s. s.premium_token
    fee_recipient ← gets λ s. s.fee_recipient
    exercise_fee ←
        if option.option_type == call
        then (do
          fee ← ceil_fee rt option.underlying_amount exercise_fee_bps
          buyer_receives ← sub rt option.underlying_amount fee
          pull rt env premium_token env.sender option.writer value
          pay rt env underlying env.sender buyer_receives
          pay rt env underlying fee_recipient fee
          pure fee)
        else (do
          fee ← ceil_fee rt value exercise_fee_bps
          buyer_receives ← sub rt value fee
          pull rt env underlying env.sender option.writer option.underlying_amount
          pay rt env premium_token env.sender buyer_receives
          pay rt env premium_token fee_recipient fee
          pure fee)
    emit (
        option_exercised option_id option.buyer option.writer option.option_type
          option.underlying_amount value exercise_fee)
    pure true

  unfoldable pub settle : Env → ℕ → Action (PoolState Ledger) Bool
  unfolding emit find_option set_status pay grace_end collateral_token
  settle env option_id = do
    option ← find_option option_id
    revert_if (not (option.status == status_purchased)) not_purchased
    end ← grace_end option
    revert_if (ltb env.block end) grace_period_not_ended
    token ← gets λ s. collateral_token s option.option_type
    amount ← collateral_amount rt option.option_type option.strike_price option.underlying_amount
    set_status option_id status_expired
    pay rt env token option.writer amount
    emit (option_expired option_id option.writer amount)
    pure true
