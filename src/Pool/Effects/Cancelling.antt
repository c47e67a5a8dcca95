-- ===== src/Pool/Effects/Cancelling.antt =====
-- cancelOption of src/contracts/pool/contract.ts, run to its end.
use frogop_pub.Prelude.{
  ℕ, ◌-◌, ◌≤◌, ◌≡◌, Bool, Option, some, ◌∷◌, inl, inr, Option-cases, update, ltb, if◌then◌else◌,
  arith,
}
use frogop_pub.Runtime.{Runtime, Env, ok}
use frogop_pub.Pool.State.{PoolState, OptionRecord, status_open, status_cancelled, option_cancelled}
use frogop_pub.Pool.Base.{find_option}
use frogop_pub.Pool.Close.{cancel_option, refund_option}
use frogop_pub.Pool.Amounts.{
  owed, token_for, cancel_fee_of, collateral_amount_lem, cancel_fee_lem, sub_lem,
}

-- The fee that is taken from an option's collateral.
abbrev pub fee_for : Env → OptionRecord → ℕ
fee_for env o = cancel_fee_of env.block o.expiry_block (owed o)

module _ (rt : Runtime) where
  open rt use {Ledger, transfer_from}

  -- The token calls: the collateral less the fee to the writer, then the fee, if there is one.
  abbrev pub refund_paid : Env → PoolState Ledger → OptionRecord → Option Ledger
  refund_paid env s o =
      transfer_from env.self (token_for s o) env.self o.writer (owed o - fee_for env o) s.ledger

  abbrev pub fee_paid : Env → PoolState Ledger → OptionRecord → Ledger → Option Ledger
  fee_paid env s o l =
      if ltb 0 (fee_for env o)
      then transfer_from env.self (token_for s o) env.self s.fee_recipient (fee_for env o) l
      else some l

  pub record Cancelled (env : Env) (id : ℕ) (s s' : PoolState Ledger) : Type 0 where
    pub option : OptionRecord
    pub refunded : Ledger
    pub ledger : Ledger
    pub found : s.options id ≡ some option
    pub by_writer : env.sender ≡ option.writer
    pub was_open : option.status ≡ status_open
    pub fee_fits : fee_for env option ≤ owed option
    pub refund : refund_paid env s option ≡ some refunded
    pub fee : fee_paid env s option refunded ≡ some ledger
    pub left : s' ≡ record s {
      options = update s.options id (some (record option { status = status_cancelled }));
      ledger = ledger;
      events =
          option_cancelled id option.writer (owed option - fee_for env option) (fee_for env option)
          ∷ s.events;
    }

  -- The case in which the option is there and the first token call went through.
  cancel_refunded :
      (env : Env) (id : ℕ) (s s' : PoolState Ledger) (u : Bool) (o : OptionRecord) (l : Ledger)
      → cancel_option rt env id s ≡ ok (u, s')
      → s.options id ≡ some o
      → refund_paid env s o ≡ some l
      → Cancelled env id s s'
  unfolding cancel_option find_option refund_option
  cancel_refunded env id s s' u o l e found done =
      let amount = collateral_amount_lem rt o.option_type o.strike_price o.underlying_amount s in
      let fee = cancel_fee_lem rt env o (owed o) s in
      let refund = sub_lem rt (owed o) (fee_for env o) s in
      elim (Option-cases (fee_paid env s o l)) [
        | inl fails ↦ absurd (ground (arith, amount, fee, refund))
        | inr (l', paid) ↦ record {
          option = o;
          refunded = l;
          ledger = l';
          found = found;
          by_writer = ground (arith, amount, fee, refund);
          was_open = ground (arith, amount, fee, refund);
          fee_fits = ground (arith, amount, fee, refund);
          refund = done;
          fee = paid;
          left = ground (arith, amount, fee, refund);
        }
      ]

  pub cancel_option-Cancelled :
      (env : Env) (id : ℕ) (s s' : PoolState Ledger) (u : Bool)
      → cancel_option rt env id s ≡ ok (u, s')
      → Cancelled env id s s'
  unfolding cancel_option find_option refund_option
  cancel_option-Cancelled env id s s' u e = elim (Option-cases (s.options id)) [
    | inl missing ↦ absurd (ground (arith, missing))
    | inr (o, found) ↦
        let amount = collateral_amount_lem rt o.option_type o.strike_price o.underlying_amount s in
        let fee = cancel_fee_lem rt env o (owed o) s in
        let refund = sub_lem rt (owed o) (fee_for env o) s in
        elim (Option-cases (refund_paid env s o)) [
          | inl fails ↦ absurd (ground (arith, amount, fee, refund))
          | inr (l, done) ↦ cancel_refunded env id s s' u o l e found done
        ]
  ]
