-- ===== src/Pool/Amounts.antt =====
-- The amounts of Fees.antt in closed form: what they are where SafeMath does not revert, and when it
-- does.
use frogop_pub.Prelude.{
  ℕ, ◌+◌, ◌-◌, ◌*◌, ◌/◌, ◌≤◌, ◌<◌, ◌≡◌, Bool, true, ◌&&◌, ltb, leb, ◌==◌, if◌then◌else◌, arith,
}
use frogop_pub.Runtime.{Runtime, Env, ok, revert, arithmetic, u256_mod}
use frogop_pub.Pool.State.{OptionRecord, PoolState, call, precision, cancel_fee_bps}
use frogop_pub.Pool.Fees.{add, sub, strike_value, ceil_fee, collateral_amount, cancel_fee}

-- amount · bps / 10000, rounded up
abbrev pub ceil_of : ℕ → ℕ → ℕ
ceil_of amount bps = (amount * bps + 9999) / 10000

abbrev pub ceil_fits : ℕ → ℕ → Bool
ceil_fits amount bps = ltb (amount * bps) u256_mod && ltb (amount * bps + 9999) u256_mod

abbrev pub strike_value_of : ℕ → ℕ → ℕ
strike_value_of strike_price amount = strike_price * amount / precision

abbrev pub strike_fits : ℕ → ℕ → Bool
strike_fits strike_price amount = ltb (strike_price * amount) u256_mod

-- The amount that an option locks.
abbrev pub collateral_of : (option_type strike_price amount : ℕ) → ℕ
collateral_of option_type strike_price amount =
    if option_type == call then amount else strike_value_of strike_price amount

abbrev pub owed : OptionRecord → ℕ
owed o = collateral_of o.option_type o.strike_price o.underlying_amount

abbrev pub collateral_fits : (option_type strike_price amount : ℕ) → Bool
collateral_fits option_type strike_price amount =
    if option_type == call then true else strike_fits strike_price amount

-- The token in which an option's collateral is held.
abbrev pub token_of : (underlying premium_token option_type : ℕ) → ℕ
token_of underlying premium_token option_type =
    if option_type == call then underlying else premium_token

abbrev pub token_for : {L : Type 0} → PoolState L → OptionRecord → ℕ
token_for s o = token_of s.underlying s.premium_token o.option_type

-- The fee for cancelling an option whose collateral is `amount`.
abbrev pub cancel_fee_of : ℕ → ℕ → ℕ → ℕ
cancel_fee_of block expiry amount = if leb expiry block then 0 else ceil_of amount cancel_fee_bps

abbrev pub cancel_fee_fits : ℕ → ℕ → ℕ → Bool
cancel_fee_fits block expiry amount =
    if leb expiry block then true else ceil_fits amount cancel_fee_bps

module _ (rt : Runtime) {S : Type 0} where
  pub add_lem :
      (a b : ℕ) (s : S)
      → add rt a b s ≡ (if ltb (a + b) u256_mod then ok (a + b, s) else revert arithmetic)
  unfolding add
  add_lem a b s = rw (rt.safe_add_exact a b) (ground arith)

  pub sub_lem :
      (a b : ℕ) (s : S) → sub rt a b s ≡ (if ltb a b then revert arithmetic else ok (a - b, s))
  unfolding sub
  sub_lem a b s = rw (rt.safe_sub_exact a b) (ground arith)

  pub strike_value_lem :
      (strike_price amount : ℕ) (s : S)
      → strike_value rt strike_price amount s ≡ (
          if strike_fits strike_price amount
          then ok (strike_value_of strike_price amount, s)
          else revert arithmetic)
  unfolding strike_value
  strike_value_lem p a s =
      ground (arith, rt.safe_mul_exact p a, rt.safe_div_exact (p * a) precision)

  pub ceil_fee_lem :
      (amount bps : ℕ) (s : S)
      → ceil_fee rt amount bps s
        ≡ (if ceil_fits amount bps then ok (ceil_of amount bps, s) else revert arithmetic)
  unfolding ceil_fee
  ceil_fee_lem a bps s = ground (
    arith,
    rt.safe_mul_exact a bps,
    rt.safe_add_exact (a * bps) 9999,
    rt.safe_div_exact (a * bps + 9999) 10000,
  )

  pub collateral_amount_lem :
      (option_type strike_price amount : ℕ) (s : S)
      → collateral_amount rt option_type strike_price amount s ≡ (
          if collateral_fits option_type strike_price amount
          then ok (collateral_of option_type strike_price amount, s)
          else revert arithmetic)
  unfolding collateral_amount
  collateral_amount_lem ty p a s = ground (arith, strike_value_lem p a s)

  pub cancel_fee_lem :
      (env : Env) (o : OptionRecord) (amount : ℕ) (s : S)
      → cancel_fee rt env o amount s ≡ (
          if cancel_fee_fits env.block o.expiry_block amount
          then ok (cancel_fee_of env.block o.expiry_block amount, s)
          else revert arithmetic)
  unfolding cancel_fee
  cancel_fee_lem env o a s = ground (arith, ceil_fee_lem a cancel_fee_bps s)

module _ (rt : Runtime) {S : Type 0} where
  -- A fee that is computed is amount · bps / 10000, rounded up; at 100 % or less it is no more than
  -- the amount; and computing it leaves the state alone.
  pub ceil_fee_exact :
      (amount bps fee : ℕ) (s s' : S)
      → bps ≤ 10000
      → ceil_fee rt amount bps s ≡ ok (fee, s')
      → (amount * bps ≤ fee * 10000)
        × (fee * 10000 < amount * bps + 10000)
        × (fee ≤ amount)
        × (s' ≡ s)
  ceil_fee_exact amount bps fee s s' h e =
      let value : fee ≡ ceil_of amount bps = ground (arith, ceil_fee_lem rt amount bps s) in
      (
        rw value (omega arith),
        rw value (omega arith),
        rw value (grind arith),
        ground (arith, ceil_fee_lem rt amount bps s),
      )
