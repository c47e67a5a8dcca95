-- ===== src/Pool/Effects/Exercising.antt =====
-- exercise of src/contracts/pool/contract.ts, run to its end.
use frogop_pub.Prelude.{
  ℕ, ◌+◌, ◌-◌, ◌%◌, ◌≤◌, ◌<◌, ◌≡◌, Bool, Option, some, ◌∷◌, inl, inr, Option-cases, update, ◌==◌,
  if◌then◌else◌, arith,
}
use frogop_pub.Runtime.{Runtime, Env, ok, u64_mod}
use frogop_pub.Pool.State.{
  PoolState, OptionRecord, call, exercise_fee_bps, status_purchased, status_exercised,
  option_exercised,
}
use frogop_pub.Pool.Close.{exercise}
use frogop_pub.Pool.Amounts.{
  owed, token_for, strike_value_of, ceil_of, strike_value_lem, ceil_fee_lem, sub_lem,
}

-- What the buyer pays to exercise, and in which token: the strike value of a call in the premium
-- token, the underlying of a put.
abbrev pub price_of : OptionRecord → ℕ
price_of o =
    if o.option_type == call
    then strike_value_of o.strike_price o.underlying_amount
    else o.underlying_amount

abbrev pub price_token : {L : Type 0} → PoolState L → OptionRecord → ℕ
price_token s o = if o.option_type == call then s.premium_token else s.underlying

-- The fee on what the buyer receives.
abbrev pub exercise_fee_for : OptionRecord → ℕ
exercise_fee_for o = ceil_of (owed o) exercise_fee_bps

module _ (rt : Runtime) where
  open rt use {Ledger, transfer_from}

  abbrev pub price_paid : Env → PoolState Ledger → OptionRecord → Option Ledger
  price_paid env s o =
      transfer_from env.self (price_token s o) env.sender o.writer (price_of o) s.ledger

  abbrev pub proceeds_paid : Env → PoolState Ledger → OptionRecord → Ledger → Option Ledger
  proceeds_paid env s o l =
      transfer_from env.self (token_for s o) env.self env.sender (owed o - exercise_fee_for o) l

  abbrev pub exercise_fee_paid : Env → PoolState Ledger → OptionRecord → Ledger → Option Ledger
  exercise_fee_paid env s o l =
      transfer_from env.self (token_for s o) env.self s.fee_recipient (exercise_fee_for o) l

  pub record Exercised (env : Env) (id : ℕ) (s s' : PoolState Ledger) : Type 0 where
    pub option : OptionRecord
    pub bought : Ledger
    pub received : Ledger
    pub ledger : Ledger
    pub found : s.options id ≡ some option
    pub purchased : option.status ≡ status_purchased
    pub by_buyer : env.sender ≡ option.buyer
    pub expired : option.expiry_block ≤ env.block
    pub in_grace : env.block < (option.expiry_block + s.grace_period) % u64_mod
    pub fee_fits : exercise_fee_for option ≤ owed option
    pub price : price_paid env s option ≡ some bought
    pub proceeds : proceeds_paid env s option bought ≡ some received
    pub fee : exercise_fee_paid env s option received ≡ some ledger
    pub left : s' ≡ record s {
      options = update s.options id (some (record option { status = status_exercised }));
      ledger = ledger;
      events =
          option_exercised id option.buyer option.writer option.option_type option.underlying_amount
            (strike_value_of option.strike_price option.underlying_amount)
            (exercise_fee_for option)
          ∷ s.events;
    }

  -- The case in which the option is there and the buyer has paid and received.
  exercise_received :
      (env : Env) (id : ℕ) (s s' : PoolState Ledger) (u : Bool) (o : OptionRecord) (l m : Ledger)
      → exercise rt env id s ≡ ok (u, s')
      → s.options id ≡ some o
      → price_paid env s o ≡ some l
      → proceeds_paid env s o l ≡ some m
      → Exercised env id s s'
  unfolding exercise
  exercise_received env id s s' u o l m e found price proceeds =
      let value =
        λ (r : PoolState Ledger). strike_value_lem rt o.strike_price o.underlying_amount r in
      let fee = λ (r : PoolState Ledger). ceil_fee_lem rt (owed o) exercise_fee_bps r in
      let net = λ (r : PoolState Ledger). sub_lem rt (owed o) (exercise_fee_for o) r in
      let r : PoolState Ledger = record s {
        options = update s.options id (some (record o { status = status_exercised }));
      } in
      elim (Option-cases (exercise_fee_paid env s o m)) [
        | inl fails ↦ absurd (ground (arith, value s, fee r, net r))
        | inr (n, paid) ↦ record {
          option = o;
          bought = l;
          received = m;
          ledger = n;
          found = found;
          purchased = ground (arith, value s, fee r, net r);
          by_buyer = ground (arith, value s, fee r, net r);
          expired = ground (arith, value s, fee r, net r);
          in_grace = ground (arith, value s, fee r, net r);
          fee_fits = ground (arith, value s, fee r, net r);
          price = price;
          proceeds = proceeds;
          fee = paid;
          left = ground (arith, value s, fee r, net r);
        }
      ]

  pub exercise-Exercised :
      (env : Env) (id : ℕ) (s s' : PoolState Ledger) (u : Bool)
      → exercise rt env id s ≡ ok (u, s')
      → Exercised env id s s'
  unfolding exercise
  exercise-Exercised env id s s' u e = elim (Option-cases (s.options id)) [
    | inl missing ↦ absurd (ground (arith, missing))
    | inr (o, found) ↦
        let r : PoolState Ledger = record s {
          options = update s.options id (some (record o { status = status_exercised }));
        } in
        let value = strike_value_lem rt o.strike_price o.underlying_amount s in
        let fee = ceil_fee_lem rt (owed o) exercise_fee_bps r in
        let net = sub_lem rt (owed o) (exercise_fee_for o) r in
        elim (Option-cases (price_paid env s o)) [
          | inl fails ↦ absurd (ground (arith, value, fee, net))
          | inr (l, price) ↦ elim (Option-cases (proceeds_paid env s o l)) [
            | inl fails ↦ absurd (ground (arith, value, fee, net))
            | inr (m, proceeds) ↦ exercise_received env id s s' u o l m e found price proceeds
          ]
        ]
  ]
