-- ===== src/Pool/Effects/Buying.antt =====
-- buyOption of src/contracts/pool/contract.ts, run to its end.
use frogop_pub.Prelude.{
  ℕ, ◌-◌, ◌≤◌, ◌<◌, ◌≡◌, ◌≢◌, Bool, Option, some, ◌∷◌, inl, inr, Option-cases, update, fun_ext,
  arith,
}
use frogop_pub.Runtime.{Runtime, Env, ok}
use frogop_pub.Pool.State.{
  PoolState, OptionRecord, buy_fee_bps, status_open, status_purchased, option_purchased,
}
use frogop_pub.Pool.Trade.{buy_option}
use frogop_pub.Pool.Amounts.{ceil_of, ceil_fee_lem, sub_lem}

abbrev pub buy_fee_for : OptionRecord → ℕ
buy_fee_for o = ceil_of o.premium buy_fee_bps

module _ (rt : Runtime) where
  open rt use {Ledger, transfer_from}

  abbrev pub premium_paid : Env → PoolState Ledger → OptionRecord → Option Ledger
  premium_paid env s o =
      transfer_from env.self s.premium_token env.sender o.writer (o.premium - buy_fee_for o)
        s.ledger

  abbrev pub buy_fee_paid : Env → PoolState Ledger → OptionRecord → Ledger → Option Ledger
  buy_fee_paid env s o l =
      transfer_from env.self s.premium_token env.sender s.fee_recipient (buy_fee_for o) l

  pub record Bought (env : Env) (id : ℕ) (s s' : PoolState Ledger) : Type 0 where
    pub option : OptionRecord
    pub writer_paid : Ledger
    pub ledger : Ledger
    pub found : s.options id ≡ some option
    pub was_open : option.status ≡ status_open
    pub not_expired : env.block < option.expiry_block
    pub not_writer : env.sender ≢ option.writer
    pub fee_fits : buy_fee_for option ≤ option.premium
    pub premium : premium_paid env s option ≡ some writer_paid
    pub fee : buy_fee_paid env s option writer_paid ≡ some ledger
    pub left : s' ≡ record s {
      options =
          update s.options id
            (some (record option { buyer = env.sender; status = status_purchased }));
      ledger = ledger;
      events =
          option_purchased id env.sender option.writer option.premium
            (option.premium - buy_fee_for option)
            env.block
          ∷ s.events;
    }

  -- The two writes of the handler leave one option changed.
  two_updates :
      (id : ℕ) (f : ℕ → Option OptionRecord) (a b : Option OptionRecord)
      → update (update f id a) id b ≡ update f id b
  two_updates id f a b = fun_ext λ j. ground arith

  buy_paid :
      (env : Env) (id : ℕ) (s s' : PoolState Ledger) (u : Bool) (o : OptionRecord) (l m : Ledger)
      → buy_option rt env id s ≡ ok (u, s')
      → s.options id ≡ some o
      → premium_paid env s o ≡ some l
      → buy_fee_paid env s o l ≡ some m
      → Bought env id s s'
  unfolding buy_option
  buy_paid env id s s' u o l m e found premium paid =
      let fee = ceil_fee_lem rt o.premium buy_fee_bps s in
      let net = sub_lem rt o.premium (buy_fee_for o) s in
      let options =
        two_updates id s.options (some (record o { buyer = env.sender }))
          (some (record o { buyer = env.sender; status = status_purchased })) in
      record {
        option = o;
        writer_paid = l;
        ledger = m;
        found = found;
        was_open = ground (arith, fee, net);
        not_expired = ground (arith, fee, net);
        not_writer = ground (arith, fee, net);
        fee_fits = ground (arith, fee, net);
        premium = premium;
        fee = paid;
        left = ground (arith, fee, net, options);
      }

  pub buy_option-Bought :
      (env : Env) (id : ℕ) (s s' : PoolState Ledger) (u : Bool)
      → buy_option rt env id s ≡ ok (u, s')
      → Bought env id s s'
  unfolding buy_option
  buy_option-Bought env id s s' u e = elim (Option-cases (s.options id)) [
    | inl missing ↦ absurd (ground (arith, missing))
    | inr (o, found) ↦
        let fee = ceil_fee_lem rt o.premium buy_fee_bps s in
        let net = sub_lem rt o.premium (buy_fee_for o) s in
        elim (Option-cases (premium_paid env s o)) [
          | inl fails ↦ absurd (ground (arith, fee, net))
          | inr (l, premium) ↦ elim (Option-cases (buy_fee_paid env s o l)) [
            | inl fails ↦ absurd (ground (arith, fee, net))
            | inr (m, paid) ↦ buy_paid env id s s' u o l m e found premium paid
          ]
        ]
  ]
