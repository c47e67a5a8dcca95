-- ===== src/Pool/Effects/Settling.antt =====
-- settle of src/contracts/pool/contract.ts, run to its end.
use frogop_pub.Prelude.{
  ℕ, ◌+◌, ◌%◌, ◌≤◌, ◌≡◌, Bool, Option, some, ◌∷◌, inl, inr, Option-cases, update, arith,
}
use frogop_pub.Runtime.{Runtime, Env, ok, u64_mod}
use frogop_pub.Pool.State.{
  PoolState, OptionRecord, status_purchased, status_expired, option_expired,
}
use frogop_pub.Pool.Close.{settle}
use frogop_pub.Pool.Amounts.{owed, token_for, collateral_amount_lem}

module _ (rt : Runtime) where
  open rt use {Ledger, transfer_from}

  -- The token call: the whole collateral, to the writer.
  abbrev pub settle_paid : Env → PoolState Ledger → OptionRecord → Option Ledger
  settle_paid env s o = transfer_from env.self (token_for s o) env.self o.writer (owed o) s.ledger

  pub record Settled (env : Env) (id : ℕ) (s s' : PoolState Ledger) : Type 0 where
    pub option : OptionRecord
    pub ledger : Ledger
    pub found : s.options id ≡ some option
    pub purchased : option.status ≡ status_purchased
    pub over : (option.expiry_block + s.grace_period) % u64_mod ≤ env.block
    pub paid : settle_paid env s option ≡ some ledger
    pub left : s' ≡ record s {
      options = update s.options id (some (record option { status = status_expired }));
      ledger = ledger;
      events = option_expired id option.writer (owed option) ∷ s.events;
    }

  pub settle-Settled :
      (env : Env) (id : ℕ) (s s' : PoolState Ledger) (u : Bool)
      → settle rt env id s ≡ ok (u, s')
      → Settled env id s s'
  unfolding settle
  settle-Settled env id s s' u e = elim (Option-cases (s.options id)) [
    | inl missing ↦ absurd (ground (arith, missing))
    | inr (o, found) ↦
        let amount = collateral_amount_lem rt o.option_type o.strike_price o.underlying_amount s in
        elim (Option-cases (settle_paid env s o)) [
          | inl fails ↦ absurd (ground (arith, amount))
          | inr (l, done) ↦ record {
            option = o;
            ledger = l;
            found = found;
            purchased = ground (arith, amount);
            over = ground (arith, amount);
            paid = done;
            left = ground (arith, amount);
          }
        ]
  ]
