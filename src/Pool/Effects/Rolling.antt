-- ===== src/Pool/Effects/Rolling.antt =====
-- rollOption of src/contracts/pool/contract.ts, run to its end.
use frogop_pub.Prelude.{
  ℕ, ◌+◌, ◌-◌, ◌%◌, ◌≤◌, ◌<◌, ◌≡◌, true, Option, none, some, ◌∷◌, inl, inr, Option-cases, update,
  ltb, if◌then◌else◌, arith,
}
use frogop_pub.Runtime.{
  Runtime, Env, ok, revert, u64_mod, u256_mod, token_transfer_from_failed, transfer_out_failed,
}
use frogop_pub.Pool.State.{
  PoolState, OptionRecord, status_open, status_cancelled, option_cancelled, option_written,
  option_rolled, max_expiry_blocks,
}
use frogop_pub.Pool.Roll.{adjust, roll_option}
use frogop_pub.Pool.Amounts.{
  owed, token_for, collateral_of, collateral_fits, cancel_fee_fits, collateral_amount_lem,
  cancel_fee_lem, sub_lem, add_lem,
}
use frogop_pub.Pool.Effects.Cancelling.{fee_for, fee_paid}
use frogop_pub.Pool.Effects.Writing.{new_option}

-- What `rollOption` stores: the old option with new terms.
abbrev pub rolled_option :
    Env → OptionRecord → (id strike_price expiry_block premium : ℕ) → OptionRecord
rolled_option env o id strike_price expiry_block premium =
    new_option env id o.option_type strike_price expiry_block o.underlying_amount premium

module _ (rt : Runtime) where
  open rt use {Ledger, transfer_from}

  -- The token call that brings the collateral from what is left of the old to the new one.
  abbrev pub adjusted : Env → (token new refund : ℕ) → Ledger → Option Ledger
  adjusted env token new refund l =
      if ltb refund new
      then transfer_from env.self token env.sender env.self (new - refund) l
      else (if ltb new refund
          then transfer_from env.self token env.self env.sender (refund - new) l
          else some l)

  adjust_lem :
      (env : Env) (token new refund : ℕ) (s : PoolState Ledger) (l : Ledger)
      → adjusted env token new refund s.ledger ≡ some l
      → adjust rt env token new refund s ≡ ok (tt, record s { ledger = l })
  unfolding adjust
  adjust_lem env token new refund s l e =
      ground (arith, sub_lem rt new refund s, sub_lem rt refund new s)

  adjust_fails :
      (env : Env) (token new refund : ℕ) (s : PoolState Ledger)
      → adjusted env token new refund s.ledger ≡ none
      → adjust rt env token new refund s
        ≡ revert (if ltb refund new then token_transfer_from_failed else transfer_out_failed)
  unfolding adjust
  adjust_fails env token new refund s e =
      ground (arith, sub_lem rt new refund s, sub_lem rt refund new s)

  -- The state that a roll leaves.
  abbrev pub rolled_state :
      Env
      → (id strike expiry premium : ℕ) → PoolState Ledger
      → OptionRecord
      → Ledger
      → PoolState Ledger
  rolled_state env id strike expiry premium s o l = record s {
    next_id = s.next_id + 1;
    options =
        update (update s.options id (some (record o { status = status_cancelled }))) s.next_id
          (some (rolled_option env o s.next_id strike expiry premium));
    ledger = l;
    events =
        option_rolled id s.next_id env.sender strike expiry premium
        ∷ option_written s.next_id env.sender o.option_type strike o.underlying_amount premium
            expiry
        ∷ option_cancelled id env.sender (owed o - fee_for env o) (fee_for env o)
        ∷ s.events;
  }

  -- The conditions of a roll up to the counter of the options, with the ledgers after its token
  -- calls.
  pub record RollChecks (env : Env) (id strike expiry premium : ℕ) (s : PoolState Ledger)
      : Type 0 where
    pub option : OptionRecord
    pub charged : Ledger
    pub ledger : Ledger
    pub found : s.options id ≡ some option
    pub by_writer : env.sender ≡ option.writer
    pub was_open : option.status ≡ status_open
    pub strike_pos : 0 < strike
    pub premium_pos : 0 < premium
    pub later : env.block < expiry
    pub near : expiry ≤ (env.block + max_expiry_blocks) % u64_mod
    pub old_fits :
        collateral_fits option.option_type option.strike_price option.underlying_amount ≡ true
    pub new_fits : collateral_fits option.option_type strike option.underlying_amount ≡ true
    pub charge_fits : cancel_fee_fits env.block option.expiry_block (owed option) ≡ true
    pub fee_fits : fee_for env option ≤ owed option
    pub fee : fee_paid rt env s option s.ledger ≡ some charged
    pub balanced :
        adjusted env
          (token_for s option)
          (owed (rolled_option env option s.next_id strike expiry premium))
          (owed option - fee_for env option)
          charged
        ≡ some ledger

  -- The conditions of a roll that goes through.
  pub record Rollable (env : Env) (id strike expiry premium : ℕ) (s : PoolState Ledger)
      : Type 0 where
    pub checks : RollChecks env id strike expiry premium s
    pub open checks use *
    pub room : s.next_id + 1 < u256_mod

  -- A roll whose conditions hold returns the new identifier.
  pub roll_option_lem :
      (env : Env) (id strike expiry premium : ℕ) (s : PoolState Ledger)
      → (c : Rollable env id strike expiry premium s)
      → roll_option rt env id strike expiry premium s
        ≡ ok (s.next_id, rolled_state env id strike expiry premium s c.option c.ledger)
  unfolding roll_option
  roll_option_lem env id strike expiry premium s c =
      let o = c.option in
      let new = collateral_of o.option_type strike o.underlying_amount in
      let refund = owed o - fee_for env o in
      let r : PoolState Ledger = record s {
        options = update s.options id (some (record o { status = status_cancelled }));
      } in
      let r' : PoolState Ledger = record r { ledger = c.charged } in
      ground (
        arith,
        collateral_amount_lem rt o.option_type o.strike_price o.underlying_amount s,
        collateral_amount_lem rt o.option_type strike o.underlying_amount s,
        cancel_fee_lem rt env o (owed o) s,
        sub_lem rt (owed o) (fee_for env o) r',
        adjust_lem env (token_for s o) new refund r' c.ledger c.balanced,
        add_lem rt s.next_id 1 (record r { ledger = c.ledger }),
      )

  roll_room :
      (env : Env) (id strike expiry premium : ℕ) (s s' : PoolState Ledger) (new_id : ℕ)
      → (c : RollChecks env id strike expiry premium s)
      → roll_option rt env id strike expiry premium s ≡ ok (new_id, s')
      → s.next_id + 1 < u256_mod
  unfolding roll_option
  roll_room env id strike expiry premium s s' new_id c e =
      let o = c.option in
      let new = collateral_of o.option_type strike o.underlying_amount in
      let refund = owed o - fee_for env o in
      let r : PoolState Ledger = record s {
        options = update s.options id (some (record o { status = status_cancelled }));
      } in
      let r' : PoolState Ledger = record r { ledger = c.charged } in
      ground (
        arith,
        collateral_amount_lem rt o.option_type o.strike_price o.underlying_amount s,
        collateral_amount_lem rt o.option_type strike o.underlying_amount s,
        cancel_fee_lem rt env o (owed o) s,
        sub_lem rt (owed o) (fee_for env o) r',
        adjust_lem env (token_for s o) new refund r' c.ledger c.balanced,
        add_lem rt s.next_id 1 (record r { ledger = c.ledger }),
      )

  -- The case in which the option is there and both token calls went through.
  roll_balanced :
      (env : Env) (id strike expiry premium : ℕ) (s s' : PoolState Ledger) (new_id : ℕ)
      → (o : OptionRecord) (l m : Ledger)
      → roll_option rt env id strike expiry premium s ≡ ok (new_id, s')
      → s.options id ≡ some o
      → fee_paid rt env s o s.ledger ≡ some l
      → adjusted env
          (token_for s o)
          (owed (rolled_option env o s.next_id strike expiry premium))
          (owed o - fee_for env o)
          l
        ≡ some m
      → RollChecks env id strike expiry premium s
  unfolding roll_option
  roll_balanced env id strike expiry premium s s' new_id o l m e found charged balanced =
      let new = collateral_of o.option_type strike o.underlying_amount in
      let r : PoolState Ledger = record s {
        options = update s.options id (some (record o { status = status_cancelled }));
      } in
      let r' : PoolState Ledger = record r { ledger = l } in
      let old_fits = collateral_amount_lem rt o.option_type o.strike_price o.underlying_amount s in
      let new_fits = collateral_amount_lem rt o.option_type strike o.underlying_amount s in
      let fee = cancel_fee_lem rt env o (owed o) s in
      let net = sub_lem rt (owed o) (fee_for env o) r' in
      record {
        option = o;
        charged = l;
        ledger = m;
        found = found;
        by_writer = ground (arith, old_fits, new_fits, fee);
        was_open = ground (arith, old_fits, new_fits, fee);
        strike_pos = ground (arith, old_fits, new_fits, fee);
        premium_pos = ground (arith, old_fits, new_fits, fee);
        later = ground (arith, old_fits, new_fits, fee);
        near = ground (arith, old_fits, new_fits, fee);
        old_fits = ground (arith, old_fits, new_fits, fee);
        new_fits = ground (arith, old_fits, new_fits, fee);
        charge_fits = ground (arith, old_fits, new_fits, fee);
        fee_fits = ground (arith, old_fits, new_fits, fee, net);
        fee = charged;
        balanced = balanced;
      }

  roll_unbalanced :
      (env : Env) (id strike expiry premium : ℕ) (s s' : PoolState Ledger) (new_id : ℕ)
      → (o : OptionRecord) (l : Ledger)
      → roll_option rt env id strike expiry premium s ≡ ok (new_id, s')
      → s.options id ≡ some o
      → fee_paid rt env s o s.ledger ≡ some l
      → adjusted env
          (token_for s o)
          (owed (rolled_option env o s.next_id strike expiry premium))
          (owed o - fee_for env o)
          l
        ≡ none
      → ⊥
  unfolding roll_option
  roll_unbalanced env id strike expiry premium s s' new_id o l e found charged fails =
      let new = collateral_of o.option_type strike o.underlying_amount in
      let r' : PoolState Ledger = record s {
        options = update s.options id (some (record o { status = status_cancelled }));
        ledger = l;
      } in
      ground (
        arith,
        collateral_amount_lem rt o.option_type o.strike_price o.underlying_amount s,
        collateral_amount_lem rt o.option_type strike o.underlying_amount s,
        cancel_fee_lem rt env o (owed o) s,
        sub_lem rt (owed o) (fee_for env o) r',
        adjust_fails env (token_for s o) new (owed o - fee_for env o) r' fails,
      )

  pub roll_option-Rollable :
      (env : Env) (id strike expiry premium : ℕ) (s s' : PoolState Ledger) (new_id : ℕ)
      → roll_option rt env id strike expiry premium s ≡ ok (new_id, s')
      → Rollable env id strike expiry premium s
  unfolding roll_option
  roll_option-Rollable env id strike expiry premium s s' new_id e =
      elim (Option-cases (s.options id)) [
        | inl missing ↦ absurd (ground (arith, missing))
        | inr (o, found) ↦
            let new = owed (rolled_option env o s.next_id strike expiry premium) in
            let refund = owed o - fee_for env o in
            let old_fits =
              collateral_amount_lem rt o.option_type o.strike_price o.underlying_amount s in
            let new_fits = collateral_amount_lem rt o.option_type strike o.underlying_amount s in
            let fee = cancel_fee_lem rt env o (owed o) s in
            elim (Option-cases (fee_paid rt env s o s.ledger)) [
              | inl fails ↦ absurd (ground (arith, old_fits, new_fits, fee))
              | inr (l, charged) ↦ elim (Option-cases (adjusted env (token_for s o) new refund l)) [
                | inl fails ↦ absurd (
                    roll_unbalanced env id strike expiry premium s s' new_id o l e found charged
                      fails)
                | inr (m, balanced) ↦
                    let c =
                      roll_balanced env id strike expiry premium s s' new_id o l m e found charged
                        balanced in
                    record {
                      checks = c;
                      room = roll_room env id strike expiry premium s s' new_id c e;
                    }
              ]
            ]
      ]
