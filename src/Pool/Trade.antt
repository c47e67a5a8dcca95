-- ===== src/Pool/Trade.antt =====
-- src/contracts/pool/contract.ts: buyOption and transferOption, which give an option a buyer.
use frogop_pub.Prelude.{ℕ, Bool, true, not, leb, ◌==◌}
use frogop_pub.Runtime.{
  Runtime, Env, Action, pure, gets, revert_if, ◌>>=◌, ◌>>◌, zero_address, not_open, already_expired,
  writer_cannot_buy, not_purchased, not_buyer, invalid_recipient, already_owner, grace_period_ended,
}
use frogop_pub.Pool.State.{
  PoolState, option_purchased, option_transferred, status_open, status_purchased, buy_fee_bps,
}
use frogop_pub.Pool.Fees.{sub, ceil_fee}
use frogop_pub.Pool.Base.{emit, find_option, set_status, set_buyer, grace_end, pull}

module _ (rt : Runtime) where
  open rt use {Ledger}

  unfoldable pub buy_option : Env → ℕ → Action (PoolState Ledger) Bool
  unfolding emit find_option set_status set_buyer pull sub
  buy_option env option_id = do
    option ← find_option option_id
    revert_if (not (option.status == status_open)) not_open
    revert_if (leb option.expiry_block env.block) already_expired
    revert_if (env.sender == option.writer) writer_cannot_buy
    buy_fee ← ceil_fee rt option.premium buy_fee_bps
    writer_amount ← sub rt option.premium buy_fee
    set_buyer option_id env.sender
    set_status option_id status_purchased
    premium_token ← gets λ s. s.premium_token
    fee_recipient ← gets λ s. s.fee_recipient
    pull rt env premium_token env.sender option.writer writer_amount
    pull rt env premium_token env.sender fee_recipient buy_fee
    emit
        (option_purchased option_id env.sender option.writer option.premium writer_amount env.block)
    pure true

  unfoldable pub transfer_option : Env → (option_id new_buyer : ℕ) → Action (PoolState Ledger) Bool
  unfolding emit find_option set_buyer grace_end
  transfer_option env option_id new_buyer = do
    option ← find_option option_id
    revert_if (not (option.status == status_purchased)) not_purchased
    revert_if (not (env.sender == option.buyer)) not_buyer
    revert_if (new_buyer == zero_address) invalid_recipient
    revert_if (new_buyer == option.buyer) already_owner
    end ← grace_end option
    revert_if (leb end env.block) grace_period_ended
    set_buyer option_id new_buyer
    emit (option_transferred option_id option.buyer new_buyer)
    pure true
