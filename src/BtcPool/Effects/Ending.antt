-- ===== src/BtcPool/Effects/Ending.antt =====
-- cancelOption and settle of src/contracts/pool/btc-underlying.ts, run to their end.
use frogop_pub.Prelude.{
  ℕ, ◌+◌, ◌-◌, ◌≤◌, ◌≡◌, refl, Bool, true, false, some, List, inl, inr, ◌==◌, if◌then◌else◌, ltb,
  update, arith, Option-cases, Bool-cases,
}
use frogop_pub.Runtime.{Runtime, Env, Result-cases, ok}
use frogop_pub.Pool.State.{OptionRecord, Event, call, status_cancelled, status_expired}
use frogop_pub.Pool.Amounts.{
  strike_value_of, cancel_fee_of, strike_value_lem, cancel_fee_lem, sub_lem,
}
use frogop_pub.Pool.Ledgers.{pay_takes}
use frogop_pub.Pool.Solvency.{is_live}
use frogop_pub.QuotePool.State.{BridgeCalls}
use frogop_pub.BtcPool.Handlers.{cancel_option, refund_btc_put, settle, settle_btc_put}
use frogop_pub.BtcPool.Security.{Pool, Changes, held}

-- The collateral of a put.
abbrev pub value_of : OptionRecord → ℕ
value_of o = strike_value_of o.strike_price o.underlying_amount

module _ (rt : Runtime) (br : BridgeCalls) where
  open rt use {Ledger, balance, transfer_from}

  -- The token calls of a step: only the ledger and the events change, and at most `amount` of the
  -- premium token leaves the pool.
  pub record Pays (self amount : ℕ) (s s' : Pool rt br) : Type 0 where
    pub options : s'.pool.options ≡ s.pool.options
    pub next_id : s'.pool.next_id ≡ s.pool.next_id
    pub premium_token : s'.pool.premium_token ≡ s.pool.premium_token
    pub btc_collateral : s'.btc_collateral ≡ s.btc_collateral
    pub escrow_hashes : s'.escrow_hashes ≡ s.escrow_hashes
    pub bridge : s'.bridge ≡ s.bridge
    pub takes : held rt br self s ≤ held rt br self s' + amount

  -- What a step has done that left another ledger and other events.
  Pays-ledger :
      (self amount : ℕ) (s s' : Pool rt br) (l : Ledger) (es : List Event)
      → s' ≡ record s { pool = record s.pool { ledger = l; events = es } }
      → held rt br self s ≤ balance l s.pool.premium_token self + amount
      → Pays self amount s s'
  Pays-ledger self amount s s' l es left takes = record {
    options = ground (arith, left);
    next_id = ground (arith, left);
    premium_token = ground (arith, left);
    btc_collateral = ground (arith, left);
    escrow_hashes = ground (arith, left);
    bridge = ground (arith, left);
    takes = ground (arith, left, takes);
  }

  refund_btc_put-Pays :
      (env : Env) (id : ℕ) (o : OptionRecord) (s s' : Pool rt br) (u : Unit {0})
      → refund_btc_put rt br env id o s ≡ ok (u, s')
      → Pays env.self (value_of o) s s'
  unfolding refund_btc_put
  refund_btc_put-Pays env id o s s' u e =
      let p = s.pool.premium_token in
      let fee = cancel_fee_of env.block o.expiry_block (value_of o) in
      let value_lem = strike_value_lem rt o.strike_price o.underlying_amount s in
      let fee_lem = cancel_fee_lem rt env o (value_of o) s in
      let net_lem = sub_lem rt (value_of o) fee s in
      elim (Option-cases
        (transfer_from env.self p env.self o.writer (value_of o - fee) s.pool.ledger)) [
          | inl fails ↦ absurd (ground (arith, value_lem, fee_lem, net_lem, fails))
          | inr (l, first) ↦
              let one =
                pay_takes rt env.self p o.writer (value_of o - fee) p s.pool.ledger l first in
              elim (Bool-cases (ltb 0 fee)) [
                | inl some_fee ↦
                    elim (Option-cases
                      (transfer_from env.self p env.self s.pool.fee_recipient fee l)) [
                        | inl fails ↦
                            absurd
                              (ground (arith, value_lem, fee_lem, net_lem, first, some_fee, fails))
                        | inr (m, second) ↦
                            let two =
                              pay_takes rt env.self p s.pool.fee_recipient fee p l m second in
                            let fits : fee ≤ value_of o =
                              ground
                                (arith, value_lem, fee_lem, net_lem, first, second, some_fee) in
                            Pays-ledger env.self (value_of o) s s' m s'.pool.events
                              (ground (arith, value_lem, fee_lem, net_lem, first, second, some_fee))
                              (ground (arith, one, two, fits))
                      ]
                | inr no_fee ↦
                    Pays-ledger env.self (value_of o) s s' l s'.pool.events
                      (ground (arith, value_lem, fee_lem, net_lem, first, no_fee))
                      (ground (arith, one))
              ]
        ]

  settle_btc_put-Pays :
      (env : Env) (id : ℕ) (o : OptionRecord) (s s' : Pool rt br) (u : Unit {0})
      → settle_btc_put rt br env id o s ≡ ok (u, s')
      → Pays env.self (value_of o) s s'
  unfolding settle_btc_put
  settle_btc_put-Pays env id o s s' u e =
      let p = s.pool.premium_token in
      let value_lem = strike_value_lem rt o.strike_price o.underlying_amount s in
      elim (Option-cases (transfer_from env.self p env.self o.writer (value_of o) s.pool.ledger)) [
        | inl fails ↦ absurd (ground (arith, value_lem, fails))
        | inr (l, paid) ↦
            Pays-ledger env.self (value_of o) s s' l s'.pool.events
              (ground (arith, value_lem, paid))
              (ground (arith, pay_takes rt env.self p o.writer (value_of o) p s.pool.ledger l paid))
      ]

  -- the state in which the branches run
  abbrev pub marked : ℕ → OptionRecord → ℕ → Pool rt br → Pool rt br
  marked id o status s = record s {
    pool = record s.pool {
      options = update s.pool.options id (some (record o { status = status }));
    };
  }

  -- A live option ends, and a call of type `call` pays nothing, a put its collateral.
  pub Changes-ending :
      (self id status : ℕ) (s t s' : Pool rt br) (o : OptionRecord)
      → s.pool.options id ≡ some o
      → is_live o.status ≡ true
      → is_live status ≡ false
      → t ≡ marked id o status s
      → Pays self (if o.option_type == call then 0 else value_of o) t s'
      → Changes rt br self id s s'
  Changes-ending self id status s t s' o found live ended at p = record {
    option = o;
    new_option = record o { status = status };
    found = found;
    same_type = refl;
    same_amount = refl;
    options = ground (arith, at, p.options);
    next_id = ground (arith, at, p.next_id);
    premium_token = ground (arith, at, p.premium_token);
    btc_collateral = ground (arith, at, p.btc_collateral);
    escrow_hashes = ground (arith, at, p.escrow_hashes);
    keeps_used = λ h v before. rw p.bridge (rw at before);
    pays = ground (arith, at, live, ended, p.takes, p.premium_token);
  }

  pub cancel_option-Changes :
      (env : Env) (id : ℕ) (s s' : Pool rt br) (u : Bool)
      → cancel_option rt br env id s ≡ ok (u, s')
      → Changes rt br env.self id s s'
  unfolding cancel_option
  cancel_option-Changes env id s s' u e = elim (Option-cases (s.pool.options id)) [
    | inl missing ↦ absurd (ground (arith, missing))
    | inr (o, found) ↦
        let t = marked id o status_cancelled s in
        let live : is_live o.status ≡ true = ground (arith, found) in
        elim (Bool-cases (o.option_type == call)) [
          | inl is_call ↦
              Changes-ending env.self id status_cancelled s t s' o found live refl refl (
                rw is_call (
                  Pays-ledger env.self 0 t s' s.pool.ledger s'.pool.events
                    (ground (arith, found, is_call)) (omega arith)))
          | inr is_put ↦ elim (Result-cases (refund_btc_put rt br env id o t)) [
            | inl ((v, r), done) ↦
                let same : s' ≡ r = ground (arith, found, is_put, done) in
                Changes-ending env.self id status_cancelled s t s' o found live refl refl
                  (rw (is_put, same) (refund_btc_put-Pays env id o t r v done))
            | inr (x, fails) ↦ absurd (ground (arith, found, is_put, fails))
          ]
        ]
  ]

  pub settle-Changes :
      (env : Env) (id : ℕ) (s s' : Pool rt br) (u : Bool)
      → settle rt br env id s ≡ ok (u, s')
      → Changes rt br env.self id s s'
  unfolding settle
  settle-Changes env id s s' u e = elim (Option-cases (s.pool.options id)) [
    | inl missing ↦ absurd (ground (arith, missing))
    | inr (o, found) ↦
        let t = marked id o status_expired s in
        let live : is_live o.status ≡ true = ground (arith, found) in
        elim (Bool-cases (o.option_type == call)) [
          | inl is_call ↦ Changes-ending env.self id status_expired s t s' o found live refl refl (
              rw is_call (
                Pays-ledger env.self 0 t s' s.pool.ledger s'.pool.events
                  (ground (arith, found, is_call)) (omega arith)))
          | inr is_put ↦ elim (Result-cases (settle_btc_put rt br env id o t)) [
            | inl ((v, r), done) ↦
                let same : s' ≡ r = ground (arith, found, is_put, done) in
                Changes-ending env.self id status_expired s t s' o found live refl refl
                  (rw (is_put, same) (settle_btc_put-Pays env id o t r v done))
            | inr (x, fails) ↦ absurd (ground (arith, found, is_put, fails))
          ]
        ]
  ]
