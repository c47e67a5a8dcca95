-- ===== src/BtcPool/Effects/Exercising.antt =====
-- exercise of src/contracts/pool/btc-underlying.ts, run to its end.
use frogop_pub.Prelude.{
  ℕ, ◌+◌, ◌-◌, ◌≤◌, ◌<◌, ◌≡◌, ◌≢◌, Bool, true, some, List, inl, inr, ◌⊎◌, ◌==◌, if◌then◌else◌,
  arith, length, Option-cases, Bool-cases, ◌%◌,
}
use frogop_pub.Runtime.{Runtime, Env, Result, Result-cases, ok, u64_mod}
use frogop_pub.Pool.Base.{registered_key}
use frogop_pub.Pool.State.{OptionRecord, call, status_purchased, status_exercised, exercise_fee_bps}
use frogop_pub.Pool.Amounts.{ceil_of, strike_value_lem, ceil_fee_lem, sub_lem}
use frogop_pub.Bridge.Bitcoin.{Output}
use frogop_pub.QuotePool.State.{BridgeCalls}
use frogop_pub.BtcPool.Handlers.{exercise, exercise_btc_call, exercise_btc_put}
use frogop_pub.BtcPool.Security.{Pool}
use frogop_pub.BtcPool.Effects.Ending.{value_of, marked}

module _ (rt : Runtime) (br : BridgeCalls) where
  open rt use {Ledger, balance, transfer_from}
  open br use {Bridge, verify, csv_hash}

  abbrev fee_of : ℕ → ℕ
  fee_of value = ceil_of value exercise_fee_bps

  -- The buyer of a call pays the strike, to the writer and as a fee.
  pub record CallTaken (env : Env) (id value : ℕ) (o : OptionRecord) (s s' : Pool rt br)
      : Type 0 where
    pub writer_paid : Ledger
    pub ledger : Ledger
    pub fee_fits : fee_of value ≤ value
    pub price :
        transfer_from env.self s.pool.premium_token env.sender o.writer
          (value - fee_of value)
          s.pool.ledger
        ≡ some writer_paid
    pub fee_paid :
        transfer_from env.self s.pool.premium_token env.sender s.pool.fee_recipient
          (fee_of value)
          writer_paid
        ≡ some ledger
    pub left : s' ≡ record s { pool = record s.pool { ledger = ledger; events = s'.pool.events } }

  exercise_btc_call-CallTaken :
      (env : Env) (id value fee : ℕ) (o : OptionRecord) (s s' : Pool rt br)
      → exercise_btc_call rt br env o id value s ≡ ok (fee, s')
      → CallTaken env id value o s s'
  unfolding exercise_btc_call
  exercise_btc_call-CallTaken env id value fee o s s' e =
      let p = s.pool.premium_token in
      let fee_lem = ceil_fee_lem rt value exercise_fee_bps s in
      let net_lem = sub_lem rt value (fee_of value) s in
      elim (Option-cases
        (transfer_from env.self p env.sender o.writer (value - fee_of value) s.pool.ledger)) [
          | inl fails ↦ absurd (ground (arith, fails, fee_lem, net_lem))
          | inr (l, first) ↦
              elim (Option-cases
                (transfer_from env.self p env.sender s.pool.fee_recipient (fee_of value) l)) [
                  | inl fails ↦ absurd (ground (arith, first, fails, fee_lem, net_lem))
                  | inr (m, second) ↦ record {
                    writer_paid = l;
                    ledger = m;
                    fee_fits = ground (arith, first, second, fee_lem, net_lem);
                    price = first;
                    fee_paid = second;
                    left = ground (arith, first, second, fee_lem, net_lem);
                  }
                ]
        ]

  -- The buyer of a put pays its amount in BTC to the writer's key, and gets the strike value.
  pub record PutTaken (env : Env) (outputs : List Output) (value : ℕ) (o : OptionRecord)
      (s s' : Pool rt br) : Type 0 where
    pub pubkey : List ℕ
    pub csv : List ℕ
    pub bridge : Bridge
    pub received : Ledger
    pub ledger : Ledger
    pub registered : registered_key s.pool o.writer ≡ some pubkey
    pub pubkey_length : length pubkey ≡ 33
    pub small : o.underlying_amount < u64_mod
    pub script : csv_hash pubkey 6 s.bridge ≡ some csv
    pub verified : verify outputs csv o.underlying_amount s.bridge ≡ some (true, bridge)
    pub fee_fits : fee_of value ≤ value
    pub proceeds :
        transfer_from env.self s.pool.premium_token env.self env.sender
          (value - fee_of value)
          s.pool.ledger
        ≡ some received
    pub fee_paid :
        transfer_from env.self s.pool.premium_token env.self s.pool.fee_recipient
          (fee_of value)
          received
        ≡ some ledger
    pub left : s' ≡ record s { pool = record s.pool { ledger = ledger }; bridge = bridge }

  exercise_btc_put-PutTaken :
      (env : Env) (outputs : List Output) (value fee : ℕ) (o : OptionRecord) (s s' : Pool rt br)
      → exercise_btc_put rt br env outputs o value s ≡ ok (fee, s')
      → PutTaken env outputs value o s s'
  unfolding exercise_btc_put
  exercise_btc_put-PutTaken env outputs value fee o s s' e =
      let p = s.pool.premium_token in
      elim (Option-cases (registered_key s.pool o.writer)) [
        | inl unknown ↦ absurd (ground (arith, unknown))
        | inr (key, known) ↦ elim (Option-cases (csv_hash key 6 s.bridge)) [
          | inl fails ↦ absurd (ground (arith, known, fails))
          | inr (csv, script) ↦
              elim (Option-cases (verify outputs csv o.underlying_amount s.bridge)) [
                | inl fails ↦ absurd (ground (arith, known, script, fails))
                | inr ((v, b), checked) ↦
                    let t : Pool rt br = record s { bridge = b } in
                    let fee_lem = ceil_fee_lem rt value exercise_fee_bps t in
                    let net_lem = sub_lem rt value (fee_of value) t in
                    let yes_it : v ≡ true = ground (arith, known, script, checked) in
                    elim (Option-cases (
                      transfer_from env.self p env.self env.sender (value - fee_of value)
                        s.pool.ledger)) [
                          | inl fails ↦
                              absurd
                                (ground (arith, known, script, checked, fails, fee_lem, net_lem))
                          | inr (l, first) ↦
                              elim (Option-cases (
                                transfer_from env.self p env.self s.pool.fee_recipient
                                  (fee_of value) l)) [
                                    | inl fails ↦ absurd (
                                        ground (
                                          arith, known, script, checked, first, fails, fee_lem,
                                          net_lem,
                                        ))
                                    | inr (m, second) ↦ record {
                                      pubkey = key;
                                      csv = csv;
                                      bridge = b;
                                      received = l;
                                      ledger = m;
                                      registered = known;
                                      pubkey_length = ground (arith, known, script);
                                      small = ground (arith, known, script);
                                      script = script;
                                      verified = rw (← yes_it) checked;
                                      fee_fits = ground (
                                        arith, known, script, checked, first, second, fee_lem,
                                        net_lem,
                                      );
                                      proceeds = first;
                                      fee_paid = second;
                                      left = ground (
                                        arith, known, script, checked, first, second, fee_lem,
                                        net_lem,
                                      );
                                    }
                                  ]
                        ]
              ]
        ]
      ]

  pub record Taken (env : Env) (outputs : List Output) (id : ℕ) (s s' : Pool rt br) : Type 0 where
    pub option : OptionRecord
    pub paid : Pool rt br
    pub found : s.pool.options id ≡ some option
    pub purchased : option.status ≡ status_purchased
    pub by_buyer : env.sender ≡ option.buyer
    pub expired : option.expiry_block ≤ env.block
    pub in_grace : env.block < (option.expiry_block + s.pool.grace_period) % u64_mod
    pub how :
        ((option.option_type ≡ call)
          × CallTaken env id
              (value_of option)
              option
              (marked rt br id option status_exercised s)
              paid)
        ⊎ ((option.option_type ≢ call)
            × PutTaken env outputs
                (value_of option)
                option
                (marked rt br id option status_exercised s)
                paid)
    pub left : s' ≡ record paid { pool = record paid.pool { events = s'.pool.events } }

  abbrev payments : Env → List Output → ℕ → OptionRecord → Pool rt br → Result (ℕ × Pool rt br)
  payments env outputs id o s =
      if o.option_type == call
      then exercise_btc_call rt br env o id (value_of o) s
      else exercise_btc_put rt br env outputs o (value_of o) s

  how_lem :
      (env : Env) (outputs : List Output) (id fee : ℕ) (o : OptionRecord) (s s' : Pool rt br)
      → payments env outputs id o s ≡ ok (fee, s')
      → ((o.option_type ≡ call) × CallTaken env id (value_of o) o s s')
        ⊎ ((o.option_type ≢ call) × PutTaken env outputs (value_of o) o s s')
  how_lem env outputs id fee o s s' e = elim (Bool-cases (o.option_type == call)) [
    | inl is_call ↦ inl (
      ground (arith, is_call),
      exercise_btc_call-CallTaken env id (value_of o) fee o s s' (rw is_call at e),
    )
    | inr is_put ↦ inr (
      ground (arith, is_put),
      exercise_btc_put-PutTaken env outputs (value_of o) fee o s s' (rw is_put at e),
    )
  ]

  pub exercise-Taken :
      (env : Env) (outputs : List Output) (id : ℕ) (s s' : Pool rt br) (u : Bool)
      → exercise rt br env outputs id s ≡ ok (u, s')
      → Taken env outputs id s s'
  unfolding exercise
  exercise-Taken env outputs id s s' u e = elim (Option-cases (s.pool.options id)) [
    | inl missing ↦ absurd (ground (arith, missing))
    | inr (o, found) ↦
        let t = marked rt br id o status_exercised s in
        let value = strike_value_lem rt o.strike_price o.underlying_amount s in
        elim (Result-cases (payments env outputs id o t)) [
          | inl ((fee, r), paid) ↦ record {
            option = o;
            paid = r;
            found = found;
            purchased = ground (arith, found, value, paid);
            by_buyer = ground (arith, found, value, paid);
            expired = ground (arith, found, value, paid);
            in_grace = ground (arith, found, value, paid);
            how = how_lem env outputs id fee o t r paid;
            left = ground (arith, found, value, paid);
          }
          | inr (x, fails) ↦ absurd (ground (arith, found, value, fails))
        ]
  ]
