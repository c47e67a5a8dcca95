-- ===== src/Pool/Effects/Writing.antt =====
-- writeOption of src/contracts/pool/contract.ts, run to its end.
use frogop_pub.Prelude.{
  ℕ, ◌+◌, ◌%◌, ◌≤◌, ◌<◌, ◌≡◌, true, Option, some, ◌∷◌, inl, inr, Option-cases, update, arith,
}
use frogop_pub.Runtime.{Runtime, Env, ok, u64_mod, u256_mod, zero_address}
use frogop_pub.Pool.State.{PoolState, OptionRecord, status_open, option_written, max_expiry_blocks}
use frogop_pub.Pool.Write.{write_option}
use frogop_pub.Pool.Amounts.{owed, token_for, collateral_fits, collateral_amount_lem, add_lem}

-- What `writeOption` stores.
abbrev pub new_option :
    Env → (id option_type strike_price expiry_block underlying_amount premium : ℕ) → OptionRecord
new_option env id option_type strike_price expiry_block underlying_amount premium = record {
  id = id;
  writer = env.sender;
  buyer = zero_address;
  strike_price = strike_price;
  underlying_amount = underlying_amount;
  premium = premium;
  expiry_block = expiry_block;
  created_block = env.block;
  option_type = option_type;
  status = status_open;
}

module _ (rt : Runtime) where
  open rt use {Ledger, transfer_from}

  -- The token call that brings in the collateral.
  abbrev pub collateral_paid : Env → PoolState Ledger → OptionRecord → Option Ledger
  collateral_paid env s o =
      transfer_from env.self (token_for s o) env.sender env.self (owed o) s.ledger

  pub record Written (env : Env) (option : OptionRecord) (s s' : PoolState Ledger) : Type 0 where
    pub ledger : Ledger
    pub kind : option.option_type ≤ 1
    pub strike : 0 < option.strike_price
    pub amount : 0 < option.underlying_amount
    pub premium : 0 < option.premium
    pub later : env.block < option.expiry_block
    pub near : option.expiry_block ≤ (env.block + max_expiry_blocks) % u64_mod
    pub fits :
        collateral_fits option.option_type option.strike_price option.underlying_amount ≡ true
    pub room : s.next_id + 1 < u256_mod
    pub paid : collateral_paid env s option ≡ some ledger
    pub left : s' ≡ record s {
      next_id = s.next_id + 1;
      options = update s.options s.next_id (some option);
      ledger = ledger;
      events =
          option_written s.next_id env.sender option.option_type option.strike_price
            option.underlying_amount option.premium option.expiry_block
          ∷ s.events;
    }

  pub write_option-Written :
      (env : Env) (option_type strike_price expiry_block underlying_amount premium : ℕ)
      → (s s' : PoolState Ledger) (id : ℕ)
      → write_option rt env option_type strike_price expiry_block underlying_amount premium s
        ≡ ok (id, s')
      → (id ≡ s.next_id)
        × Written env
            (new_option env s.next_id option_type strike_price expiry_block underlying_amount
              premium)
            s
            s'
  unfolding write_option
  write_option-Written env ty strike expiry amount premium s s' id e =
      let o = new_option env s.next_id ty strike expiry amount premium in
      let fits = collateral_amount_lem rt ty strike amount s in
      let next = add_lem rt s.next_id 1 s in
      elim (Option-cases (collateral_paid env s o)) [
        | inl fails ↦ absurd (ground (arith, fits, next))
        | inr (l, paid) ↦ (
          ground (arith, fits, next),
          record {
            ledger = l;
            kind = ground (arith, fits, next);
            strike = ground (arith, fits, next);
            amount = ground (arith, fits, next);
            premium = ground (arith, fits, next);
            later = ground (arith, fits, next);
            near = ground (arith, fits, next);
            fits = ground (arith, fits, next);
            room = ground (arith, fits, next);
            paid = paid;
            left = ground (arith, fits, next);
          },
        )
      ]
