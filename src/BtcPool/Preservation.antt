-- ===== src/BtcPool/Preservation.antt =====
-- Each method of a type 2 pool (src/contracts/pool/btc-underlying.ts) keeps the pool secured.
use frogop_pub.Prelude.{
  ℕ, ◌+◌, ◌-◌, ◌≤◌, ◌≡◌, ◌≢◌, refl, Bool, true, List, inl, inr, ◌==◌, if◌then◌else◌, arith,
}
use frogop_pub.Runtime.{Runtime, Env, Action, Result-cases, ok}
use frogop_pub.Pool.State.{PoolState, call, status_purchased, status_exercised}
use frogop_pub.Pool.Base as Base
use frogop_pub.Pool.Trade as Trade
use frogop_pub.Pool.Ledgers.{pay_takes, pull_brings}
use frogop_pub.Pool.Effects.Buying.{buy_option-Bought, buy_fee_for}
use frogop_pub.Bridge.Bitcoin.{Output}
use frogop_pub.QuotePool.State.{BridgeCalls}
use frogop_pub.BtcPool.Handlers.{
  shared, write_option_btc, buy_option, exercise, cancel_option, settle, register_btc_pubkey,
  update_fee_recipient, btc_option,
}
use frogop_pub.BtcPool.Security.{
  Pool, IsSecured, Changes-IsSecured, Adds-IsSecured, held, puts_locked,
}
use frogop_pub.BtcPool.Effects.Ending.{value_of, marked, cancel_option-Changes, settle-Changes}
use frogop_pub.BtcPool.Effects.Exercising.{exercise-Taken, Taken}
use frogop_pub.BtcPool.Effects.Writing.{write_option_btc-Written}

module _ (rt : Runtime) (br : BridgeCalls) where
  open rt use {Ledger, balance}
  open br use {verified, keeps_used}

  -- What runs on the shared fields and returns has run on them, and leaves the others.
  shared-eq-ok :
      {A : Type 0} (m : Action (PoolState Ledger) A) (s s' : Pool rt br) (a : A)
      → shared m s ≡ ok (a, s')
      → (m s.pool ≡ ok (a, s'.pool)) × (s' ≡ record s { pool = s'.pool })
  shared-eq-ok m s s' a e = elim (Result-cases (m s.pool)) [
    | inl ((b, p), done) ↦ (ground (arith, done), ground (arith, done))
    | inr (x, fails) ↦ absurd (ground (arith, fails))
  ]

  pub cancel_option-IsSecured :
      (env : Env) (id : ℕ) (s s' : Pool rt br) (u : Bool)
      → IsSecured rt br env.self s
      → cancel_option rt br env id s ≡ ok (u, s')
      → IsSecured rt br env.self s'
  cancel_option-IsSecured env id s s' u h e =
      Changes-IsSecured rt br env.self id s s' (cancel_option-Changes rt br env id s s' u e) h

  pub settle-IsSecured :
      (env : Env) (id : ℕ) (s s' : Pool rt br) (u : Bool)
      → IsSecured rt br env.self s
      → settle rt br env id s ≡ ok (u, s')
      → IsSecured rt br env.self s'
  settle-IsSecured env id s s' u h e =
      Changes-IsSecured rt br env.self id s s' (settle-Changes rt br env id s s' u e) h

  pub buy_option-IsSecured :
      (env : Env) (id : ℕ) (s s' : Pool rt br) (u : Bool)
      → env.sender ≢ env.self
      → IsSecured rt br env.self s
      → buy_option rt br env id s ≡ ok (u, s')
      → IsSecured rt br env.self s'
  unfolding buy_option
  buy_option-IsSecured env id s s' u other h e =
      let (done, left) = shared-eq-ok (Trade.buy_option rt env id) s s' u e in
      let c = buy_option-Bought rt env id s.pool s'.pool u done in
      let o = c.option in
      let p = s.pool.premium_token in
      let one =
        pull_brings rt env.self p env.sender o.writer (o.premium - buy_fee_for o) p s.pool.ledger
          c.writer_paid other c.premium in
      let two =
        pull_brings rt env.self p env.sender s.pool.fee_recipient (buy_fee_for o) p c.writer_paid
          c.ledger other c.fee in
      Changes-IsSecured rt br env.self id s s'
        (record {
          option = o;
          new_option = record o { buyer = env.sender; status = status_purchased };
          found = c.found;
          same_type = refl;
          same_amount = refl;
          options = ground (arith, c.left);
          next_id = ground (arith, c.left);
          premium_token = ground (arith, c.left);
          btc_collateral = ground (arith, left);
          escrow_hashes = ground (arith, left);
          keeps_used = λ k v before. ground (arith, left, before);
          pays = ground (arith, c.left, c.was_open, one, two);
        })
        h

  -- The payments of an exercise take from the pool what a put locked, and nothing for a call.
  exercise-Pays :
      (env : Env) (outputs : List Output) (id : ℕ) (s s' : Pool rt br)
      (c : Taken rt br env outputs id s s')
      → env.sender ≢ env.self
      → held rt br env.self s
        ≤ held rt br env.self s' + (if c.option.option_type == call then 0 else value_of c.option)
  exercise-Pays env outputs id s s' c other = elim c.how [
    | inl (is_call, p) ↦
        let o = c.option in
        let t = s.pool.premium_token in
        let one =
          pull_brings rt env.self t env.sender o.writer _ t s.pool.ledger p.writer_paid other
            p.price in
        let two =
          pull_brings rt env.self t env.sender s.pool.fee_recipient _ t p.writer_paid p.ledger other
            p.fee_paid in
        ground (arith, is_call, c.left, p.left, one, two)
    | inr (is_put, p) ↦
        let t = s.pool.premium_token in
        let one = pay_takes rt env.self t env.sender _ t s.pool.ledger p.received p.proceeds in
        let two = pay_takes rt env.self t s.pool.fee_recipient _ t p.received p.ledger p.fee_paid in
        ground (arith, is_put, c.left, p.left, one, two, p.fee_fits)
  ]

  -- What an exercise leaves of the state that it marked.
  abbrev Leaves :
      (env : Env) (outputs : List Output) (id : ℕ) (s s' : Pool rt br)
      → Taken rt br env outputs id s s'
      → Type 0
  Leaves env outputs id s s' c =
      (s'.pool.options ≡ (marked rt br id c.option status_exercised s).pool.options)
      × (s'.pool.next_id ≡ s.pool.next_id)
      × (s'.pool.premium_token ≡ s.pool.premium_token)
      × (s'.btc_collateral ≡ s.btc_collateral)
      × (s'.escrow_hashes ≡ s.escrow_hashes)
      × ((k : List ℕ) (v : ℕ) → br.used s.bridge k v ≡ true → br.used s'.bridge k v ≡ true)

  Taken-Leaves :
      (env : Env) (outputs : List Output) (id : ℕ) (s s' : Pool rt br)
      (c : Taken rt br env outputs id s s')
      → Leaves env outputs id s s' c
  Taken-Leaves env outputs id s s' c = elim c.how [
    | inl (is_call, p) ↦ (
      ground (arith, c.left, p.left),
      ground (arith, c.left, p.left),
      ground (arith, c.left, p.left),
      ground (arith, c.left, p.left),
      ground (arith, c.left, p.left),
      λ k v before. ground (arith, c.left, p.left, before),
    )
    | inr (is_put, p) ↦ (
      ground (arith, c.left, p.left),
      ground (arith, c.left, p.left),
      ground (arith, c.left, p.left),
      ground (arith, c.left, p.left),
      ground (arith, c.left, p.left),
      λ k v before. ground (
        arith,
        c.left,
        p.left,
        keeps_used outputs p.csv c.option.underlying_amount true s.bridge p.bridge p.verified k v
            before,
      ),
    )
  ]

  pub exercise-IsSecured :
      (env : Env) (outputs : List Output) (id : ℕ) (s s' : Pool rt br) (u : Bool)
      → env.sender ≢ env.self
      → IsSecured rt br env.self s
      → exercise rt br env outputs id s ≡ ok (u, s')
      → IsSecured rt br env.self s'
  exercise-IsSecured env outputs id s s' u other h e =
      let c = exercise-Taken rt br env outputs id s s' u e in
      let (options, next, premium, collateral, hashes, used) = Taken-Leaves env outputs id s s' c in
      let pays = exercise-Pays env outputs id s s' c other in
      Changes-IsSecured rt br env.self id s s'
        (record {
          option = c.option;
          new_option = record c.option { status = status_exercised };
          found = c.found;
          same_type = refl;
          same_amount = refl;
          options = options;
          next_id = next;
          premium_token = premium;
          btc_collateral = collateral;
          escrow_hashes = hashes;
          keeps_used = used;
          pays = ground (arith, c.purchased, pays);
        })
        h

  pub write_option_btc-IsSecured :
      (env : Env) (outputs : List Output) (ty strike expiry amount premium id : ℕ)
      (s s' : Pool rt br)
      → env.sender ≢ env.self
      → IsSecured rt br env.self s
      → write_option_btc rt br env outputs ty strike expiry amount premium s ≡ ok (id, s')
      → IsSecured rt br env.self s'
  write_option_btc-IsSecured env outputs ty strike expiry amount premium id s s' other h e =
      let (_, _, how) =
        write_option_btc-Written rt br env outputs ty strike expiry amount premium id s s' e in
      let n = s.pool.next_id in
      elim how [
        | inl (is_call, c) ↦
            let (value, _, enough, unused, now) =
              verified outputs c.escrow amount s.bridge c.bridge c.verified in
            Adds-IsSecured rt br env.self s s'
              (record {
                option = btc_option env n call strike expiry amount premium;
                options = ground (arith, c.left);
                next_id = ground (arith, c.left);
                premium_token = ground (arith, c.left);
                keeps_used = λ k v before. ground (
                  arith,
                  c.left,
                  keeps_used outputs c.escrow amount true s.bridge c.bridge c.verified k v before,
                );
                brings = ground (arith, c.left);
                value = value;
                btc_collateral = λ i lt. ground (arith, c.left, lt);
                escrow_hashes = λ i lt. ground (arith, c.left, lt);
                escrowed = λ _. (
                  ground (arith, c.left),
                  enough,
                  ground (arith, c.left, unused),
                  ground (arith, c.left, now),
                );
              })
              h
        | inr (is_put, c) ↦
            let p = s.pool.premium_token in
            let came =
              pull_brings rt env.self p env.sender env.self _ p s.pool.ledger c.ledger other
                c.paid in
            Adds-IsSecured rt br env.self s s'
              (record {
                option = btc_option env n ty strike expiry amount premium;
                options = ground (arith, c.left);
                next_id = ground (arith, c.left);
                premium_token = ground (arith, c.left);
                keeps_used = λ k v before. ground (arith, c.left, before);
                brings = ground (arith, c.left, is_put, came);
                value = 0;
                btc_collateral = λ i lt. ground (arith, c.left);
                escrow_hashes = λ i lt. ground (arith, c.left);
                escrowed = λ is_call. absurd (is_put is_call);
              })
              h
      ]

  -- A call that leaves options, ledger and the Bitcoin fields.
  same-IsSecured :
      (self : ℕ) (s s' : Pool rt br)
      → s' ≡ record s {
        pool = record s.pool {
          pubkeys = s'.pool.pubkeys;
          fee_recipient = s'.pool.fee_recipient;
          events = s'.pool.events;
        };
      }
      → IsSecured rt br self s
      → IsSecured rt br self s'
  unfolding puts_locked
  same-IsSecured self s s' left h = rw left (record {
    fresh = h.fresh;
    solvent = h.solvent;
    backing = record {
      value = h.backing.value;
      enough = h.backing.enough;
      spent = h.backing.spent;
      own = h.backing.own;
    };
  })

  pub register_btc_pubkey-IsSecured :
      (env : Env) (key : List ℕ) (s s' : Pool rt br) (u : Bool)
      → IsSecured rt br env.self s
      → register_btc_pubkey rt br env key s ≡ ok (u, s')
      → IsSecured rt br env.self s'
  unfolding register_btc_pubkey
  register_btc_pubkey-IsSecured env key s s' u h e =
      let (done, left) = shared-eq-ok (Base.register_btc_pubkey rt env key) s s' u e in
      same-IsSecured env.self s s' (unfold Base.register_btc_pubkey in ground (arith, done, left)) h

  pub update_fee_recipient-IsSecured :
      (env : Env) (to : ℕ) (s s' : Pool rt br) (u : Bool)
      → IsSecured rt br env.self s
      → update_fee_recipient rt br env to s ≡ ok (u, s')
      → IsSecured rt br env.self s'
  unfolding update_fee_recipient
  update_fee_recipient-IsSecured env to s s' u h e =
      let (done, left) = shared-eq-ok (Base.update_fee_recipient rt env to) s s' u e in
      same-IsSecured env.self s s' (unfold Base.update_fee_recipient in ground (arith, done, left))
        h
