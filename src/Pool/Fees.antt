-- ===== src/Pool/Fees.antt =====
-- Amounts that several handlers of src/contracts/pool/contract.ts compute: the collateral of an
-- option and a fee in basis points, rounded up. SafeMath may revert in each step.
use frogop_pub.Prelude.{ℕ, leb, ◌==◌, if◌then◌else◌}
use frogop_pub.Runtime.{Runtime, Env, Action, arithmetic, pure, or_revert, ◌>>=◌}
use frogop_pub.Pool.State.{OptionRecord, PoolState, call, precision, cancel_fee_bps}

module _ (rt : Runtime) where
  open rt use {safe_add, safe_sub, safe_mul, safe_div}

  module _ {S : Type 0} where
    unfoldable pub add : ℕ → ℕ → Action S ℕ
    add a b = or_revert (safe_add a b) arithmetic

    unfoldable pub sub : ℕ → ℕ → Action S ℕ
    sub a b = or_revert (safe_sub a b) arithmetic

    unfoldable pub mul : ℕ → ℕ → Action S ℕ
    mul a b = or_revert (safe_mul a b) arithmetic

    unfoldable pub div : ℕ → ℕ → Action S ℕ
    div a b = or_revert (safe_div a b) arithmetic

    -- `SafeMath.div(SafeMath.mul(strikePrice, underlyingAmount), PRECISION)`
    unfoldable pub strike_value : ℕ → ℕ → Action S ℕ
    unfolding mul div
    strike_value strike_price underlying_amount = do
      product ← mul strike_price underlying_amount
      div product precision

    -- `SafeMath.div(SafeMath.add(SafeMath.mul(amount, bps), 9999), 10000)`
    unfoldable pub ceil_fee : ℕ → ℕ → Action S ℕ
    unfolding add mul div
    ceil_fee amount bps = do product ← mul amount bps; padded ← add product 9999; div padded 10000

    -- `collateralAmount`: the underlying of a call, the strike value of a put
    unfoldable pub collateral_amount : (option_type strike_price underlying_amount : ℕ) → Action S ℕ
    unfolding strike_value
    collateral_amount option_type strike_price underlying_amount =
        if option_type == call
        then pure underlying_amount
        else strike_value strike_price underlying_amount

    -- The fee for cancelling: none once the option has expired.
    unfoldable pub cancel_fee : Env → OptionRecord → ℕ → Action S ℕ
    unfolding ceil_fee
    cancel_fee env option amount =
        if leb option.expiry_block env.block then pure 0 else ceil_fee amount cancel_fee_bps

-- `collateralToken`
unfoldable pub collateral_token : {L : Type 0} → PoolState L → ℕ → ℕ
collateral_token s option_type = if option_type == call then s.underlying else s.premium_token
