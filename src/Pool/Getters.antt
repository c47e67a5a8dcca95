-- ===== src/Pool/Getters.antt =====
-- The views of src/contracts/pool/base.ts that read one field or a constant, and calculateCollateral.
use frogop_pub.Prelude.{ℕ, ◌≡◌, ◌==◌, if◌then◌else◌, some, arith}
use frogop_pub.Runtime.{Runtime, Env, Action, ok, pure, gets}
use frogop_pub.Pool.State.{
  PoolState, call, max_expiry_blocks, buy_fee_bps, exercise_fee_bps, cancel_fee_bps,
}
use frogop_pub.Pool.Fees.{strike_value}
use frogop_pub.Pool.Write.{write_option}
use frogop_pub.Pool.Amounts.{collateral_of, strike_value_lem}
use frogop_pub.Pool.Effects.Writing.{write_option-Written}

module _ {L : Type 0} where
  unfoldable pub get_underlying : Action (PoolState L) ℕ
  get_underlying = gets λ s. s.underlying

  unfoldable pub get_premium_token : Action (PoolState L) ℕ
  get_premium_token = gets λ s. s.premium_token

  unfoldable pub option_count : Action (PoolState L) ℕ
  option_count = gets λ s. s.next_id

  unfoldable pub get_fee_recipient : Action (PoolState L) ℕ
  get_fee_recipient = gets λ s. s.fee_recipient

  unfoldable pub get_buy_fee_bps : Action (PoolState L) ℕ
  get_buy_fee_bps = pure buy_fee_bps

  unfoldable pub get_exercise_fee_bps : Action (PoolState L) ℕ
  get_exercise_fee_bps = pure exercise_fee_bps

  unfoldable pub grace_period_blocks : Action (PoolState L) ℕ
  grace_period_blocks = gets λ s. s.grace_period

  unfoldable pub get_max_expiry_blocks : Action (PoolState L) ℕ
  get_max_expiry_blocks = pure max_expiry_blocks

  unfoldable pub get_cancel_fee_bps : Action (PoolState L) ℕ
  get_cancel_fee_bps = pure cancel_fee_bps

module _ (rt : Runtime) where
  open rt use {Ledger}

  unfoldable pub calculate_collateral :
      (option_type strike_price underlying_amount : ℕ) → Action (PoolState Ledger) ℕ
  calculate_collateral option_type strike_price underlying_amount =
      if option_type == call
      then pure underlying_amount
      else strike_value rt strike_price underlying_amount

  -- Where `writeOption` returns, it has brought in exactly the amount that `calculateCollateral`
  -- gives for the option, in one token call.
  pub write_option-calculate_collateral :
      (env : Env) (ty strike expiry amount premium : ℕ) (s s' : PoolState Ledger) (id : ℕ)
      → write_option rt env ty strike expiry amount premium s ≡ ok (id, s')
      → (collateral : ℕ) × (calculate_collateral ty strike amount s ≡ ok (collateral, s))
        × (rt.transfer_from env.self
              (if ty == call then s.underlying else s.premium_token)
              env.sender
              env.self
              collateral
              s.ledger
            ≡ some s'.ledger)
  unfolding calculate_collateral
  write_option-calculate_collateral env ty strike expiry amount premium s s' id e =
      let c = (write_option-Written rt env ty strike expiry amount premium s s' id e).1 in
      (
        collateral_of ty strike amount,
        ground (arith, c.fits, strike_value_lem rt strike amount s),
        ground (arith, c.paid, c.left),
      )
