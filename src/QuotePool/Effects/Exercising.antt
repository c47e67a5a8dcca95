-- ===== src/QuotePool/Effects/Exercising.antt =====
-- exercise of src/contracts/pool/btc-quote.ts, run to its end.
use frogop_pub.Prelude.{
  ℕ, ◌+◌, ◌-◌, ◌%◌, ◌≤◌, ◌<◌, ◌≡◌, ◌≢◌, Bool, true, some, List, ◌∷◌, inl, inr, ◌⊎◌, Option-cases,
  Bool-cases, update, ◌==◌, if◌then◌else◌, length, arith,
}
use frogop_pub.Runtime.{Runtime, Env, Result, Result-cases, ok, u64_mod}
use frogop_pub.Pool.State.{
  OptionRecord, call, exercise_fee_bps, status_purchased, status_exercised, option_exercised,
}
use frogop_pub.Pool.Amounts.{strike_value_of, ceil_of, strike_value_lem, ceil_fee_lem, sub_lem}
use frogop_pub.Bridge.Bitcoin.{Output}
use frogop_pub.QuotePool.State.{BridgeCalls}
use frogop_pub.QuotePool.Handlers.{State, exercise, exercise_call, exercise_put}

module _ (rt : Runtime) (br : BridgeCalls) (zero_present : Bool) where
  open rt use {Ledger, transfer_from}
  open br use {Bridge, verify}

  abbrev pub fee_of : ℕ → ℕ
  fee_of amount = ceil_of amount exercise_fee_bps

  -- The buyer pays the strike in BTC and gets the underlying.
  pub record CallPaid (env : Env) (outputs : List Output) (id amount value fee : ℕ)
      (s s' : State rt br zero_present) : Type 0 where
    pub bridge : Bridge
    pub received : Ledger
    pub ledger : Ledger
    pub stored : length (s.csv_hashes id) ≢ 0
    pub small : value < u64_mod
    pub verified : verify outputs (s.csv_hashes id) value s.bridge ≡ some (true, bridge)
    pub fee_is : fee ≡ fee_of amount
    pub fee_fits : fee_of amount ≤ amount
    pub proceeds :
        transfer_from env.self s.pool.underlying env.self env.sender
          (amount - fee_of amount)
          s.pool.ledger
        ≡ some received
    pub fee_paid :
        transfer_from env.self s.pool.underlying env.self s.pool.fee_recipient
          (fee_of amount)
          received
        ≡ some ledger
    pub left : s' ≡ record s { pool = record s.pool { ledger = ledger }; bridge = bridge }

  exercise_call-CallPaid :
      (env : Env) (outputs : List Output) (id amount value fee : ℕ)
      (s s' : State rt br zero_present)
      → exercise_call rt br zero_present env outputs id amount value s ≡ ok (fee, s')
      → CallPaid env outputs id amount value fee s s'
  unfolding exercise_call
  exercise_call-CallPaid env outputs id amount value fee s s' e =
      let u = s.pool.underlying in
      elim (Option-cases (verify outputs (s.csv_hashes id) value s.bridge)) [
        | inl fails ↦ absurd (ground (arith, fails))
        | inr ((v, b), checked) ↦
            let t : State rt br zero_present = record s { bridge = b } in
            let fee_lem = ceil_fee_lem rt amount exercise_fee_bps t in
            let net_lem = sub_lem rt amount (fee_of amount) t in
            let yes_it : v ≡ true = ground (arith, checked) in
            elim (Option-cases (
              transfer_from env.self u env.self env.sender (amount - fee_of amount)
                s.pool.ledger)) [
                  | inl fails ↦ absurd (ground (arith, checked, fails, fee_lem, net_lem))
                  | inr (l, first) ↦
                      elim (Option-cases (
                        transfer_from env.self u env.self s.pool.fee_recipient (fee_of amount) l)) [
                          | inl fails ↦
                              absurd (ground (arith, checked, first, fails, fee_lem, net_lem))
                          | inr (m, second) ↦ record {
                            bridge = b;
                            received = l;
                            ledger = m;
                            stored = ground (arith, checked);
                            small = ground (arith, checked);
                            verified = rw (← yes_it) checked;
                            fee_is = ground (arith, checked, first, second, fee_lem, net_lem);
                            fee_fits = ground (arith, checked, first, second, fee_lem, net_lem);
                            proceeds = first;
                            fee_paid = second;
                            left = ground (arith, checked, first, second, fee_lem, net_lem);
                          }
                        ]
                ]
      ]

  -- The buyer pays the underlying and gets the strike value in the premium token.
  pub record PutPaid (env : Env) (writer amount value fee : ℕ) (s s' : State rt br zero_present)
      : Type 0 where
    pub bought : Ledger
    pub received : Ledger
    pub ledger : Ledger
    pub fee_is : fee ≡ fee_of value
    pub fee_fits : fee_of value ≤ value
    pub price :
        transfer_from env.self s.pool.underlying env.sender writer amount s.pool.ledger
        ≡ some bought
    pub proceeds :
        transfer_from env.self s.pool.premium_token env.self env.sender
          (value - fee_of value)
          bought
        ≡ some received
    pub fee_paid :
        transfer_from env.self s.pool.premium_token env.self s.pool.fee_recipient
          (fee_of value)
          received
        ≡ some ledger
    pub left : s' ≡ record s { pool = record s.pool { ledger = ledger } }

  exercise_put-PutPaid :
      (env : Env) (writer amount value fee : ℕ) (s s' : State rt br zero_present)
      → exercise_put rt br zero_present env writer amount value s ≡ ok (fee, s')
      → PutPaid env writer amount value fee s s'
  unfolding exercise_put
  exercise_put-PutPaid env writer amount value fee s s' e =
      let p = s.pool.premium_token in
      let fee_lem = ceil_fee_lem rt value exercise_fee_bps s in
      let net_lem = sub_lem rt value (fee_of value) s in
      elim (Option-cases
        (transfer_from env.self s.pool.underlying env.sender writer amount s.pool.ledger)) [
          | inl fails ↦ absurd (ground (arith, fails, fee_lem, net_lem))
          | inr (k, zeroth) ↦
              elim (Option-cases
                (transfer_from env.self p env.self env.sender (value - fee_of value) k)) [
                  | inl fails ↦ absurd (ground (arith, zeroth, fails, fee_lem, net_lem))
                  | inr (l, first) ↦
                      elim (Option-cases
                        (transfer_from env.self p env.self s.pool.fee_recipient (fee_of value) l)) [
                          | inl fails ↦
                              absurd (ground (arith, zeroth, first, fails, fee_lem, net_lem))
                          | inr (m, second) ↦ record {
                            bought = k;
                            received = l;
                            ledger = m;
                            fee_is = ground (arith, zeroth, first, second, fee_lem, net_lem);
                            fee_fits = ground (arith, zeroth, first, second, fee_lem, net_lem);
                            price = zeroth;
                            proceeds = first;
                            fee_paid = second;
                            left = ground (arith, zeroth, first, second, fee_lem, net_lem);
                          }
                        ]
                ]
        ]

  abbrev pub value_of : OptionRecord → ℕ
  value_of o = strike_value_of o.strike_price o.underlying_amount

  -- the state in which `exercise` makes the payments
  abbrev pub marked : State rt br zero_present → ℕ → OptionRecord → State rt br zero_present
  marked s id o = record s {
    pool = record s.pool {
      options = update s.pool.options id (some (record o { status = status_exercised }));
    };
  }

  abbrev pub payments :
      Env
      → List Output
      → ℕ
      → OptionRecord
      → State rt br zero_present
      → Result (ℕ × State rt br zero_present)
  payments env outputs id o s =
      if o.option_type == call
      then exercise_call rt br zero_present env outputs id o.underlying_amount (value_of o) s
      else exercise_put rt br zero_present env o.writer o.underlying_amount (value_of o) s

  pub record Exercised (env : Env) (outputs : List Output) (id : ℕ)
      (s s' : State rt br zero_present) : Type 0 where
    pub option : OptionRecord
    pub fee : ℕ
    pub paid : State rt br zero_present
    pub found : s.pool.options id ≡ some option
    pub purchased : option.status ≡ status_purchased
    pub by_buyer : env.sender ≡ option.buyer
    pub expired : option.expiry_block ≤ env.block
    pub in_grace : env.block < (option.expiry_block + s.pool.grace_period) % u64_mod
    pub how :
        ((option.option_type ≡ call)
          × CallPaid env outputs id option.underlying_amount
              (value_of option)
              fee
              (marked s id option)
              paid)
        ⊎ ((option.option_type ≢ call)
            × PutPaid env option.writer option.underlying_amount
                (value_of option)
                fee
                (marked s id option)
                paid)
    pub left : s' ≡ record paid {
      pool = record paid.pool {
        events =
            option_exercised id option.buyer option.writer option.option_type
              option.underlying_amount
              (value_of option)
              fee
            ∷ paid.pool.events;
      };
    }

  how_lem :
      (env : Env) (outputs : List Output) (id fee : ℕ) (o : OptionRecord)
      (s s' : State rt br zero_present)
      → payments env outputs id o s ≡ ok (fee, s')
      → ((o.option_type ≡ call) × CallPaid env outputs id o.underlying_amount (value_of o) fee s s')
        ⊎ ((o.option_type ≢ call) × PutPaid env o.writer o.underlying_amount (value_of o) fee s s')
  how_lem env outputs id fee o s s' e = elim (Bool-cases (o.option_type == call)) [
    | inl is_call ↦ inl (
      ground (arith, is_call),
      exercise_call-CallPaid env outputs id o.underlying_amount (value_of o) fee s s'
          (rw is_call at e),
    )
    | inr is_put ↦ inr (
      ground (arith, is_put),
      exercise_put-PutPaid env o.writer o.underlying_amount (value_of o) fee s s' (rw is_put at e),
    )
  ]

  pub exercise-Exercised :
      (env : Env) (outputs : List Output) (id : ℕ) (s s' : State rt br zero_present) (u : Bool)
      → exercise rt br zero_present env outputs id s ≡ ok (u, s')
      → Exercised env outputs id s s'
  unfolding exercise
  exercise-Exercised env outputs id s s' u e = elim (Option-cases (s.pool.options id)) [
    | inl missing ↦ absurd (ground (arith, missing))
    | inr (o, found) ↦
        let value = strike_value_lem rt o.strike_price o.underlying_amount (marked s id o) in
        elim (Result-cases (payments env outputs id o (marked s id o))) [
          | inl ((fee, t), paid) ↦ record {
            option = o;
            fee = fee;
            paid = t;
            found = found;
            purchased = ground (arith, found, value, paid);
            by_buyer = ground (arith, found, value, paid);
            expired = ground (arith, found, value, paid);
            in_grace = ground (arith, found, value, paid);
            how = how_lem env outputs id fee o (marked s id o) t paid;
            left = ground (arith, found, value, paid);
          }
          | inr (x, fails) ↦ absurd (ground (arith, found, value, fails))
        ]
  ]
