-- ===== src/BtcPool/Effects/Writing.antt =====
-- writeOptionBtc of src/contracts/pool/btc-underlying.ts, run to its end.
use frogop_pub.Prelude.{
  ℕ, ◌+◌, ◌%◌, ◌≤◌, ◌<◌, ◌≡◌, ◌≢◌, true, some, List, ◌∷◌, inl, inr, ◌⊎◌, ◌==◌, update, arith,
  length, Option-cases, Bool-cases,
}
use frogop_pub.Runtime.{Runtime, Env, ok, u64_mod}
use frogop_pub.Pool.Base.{registered_key}
use frogop_pub.Pool.State.{call, option_written, option_written_btc}
use frogop_pub.Pool.Amounts.{strike_value_of, strike_value_lem, add_lem}
use frogop_pub.Bridge.Bitcoin.{Output}
use frogop_pub.QuotePool.State.{BridgeCalls}
use frogop_pub.BtcPool.Handlers.{
  write_option_btc, write_btc_call, write_btc_put, btc_option, placeholder_buyer,
}
use frogop_pub.BtcPool.Security.{Pool}

module _ (rt : Runtime) (br : BridgeCalls) where
  open rt use {Ledger, balance, transfer_from}
  open br use {Bridge, verify, escrow_hash}

  -- A call is written: its escrow is made of the writer's key and the end of the grace period, and
  -- an output that pays it at least the amount was verified.
  pub record CallWritten (env : Env) (outputs : List Output)
      (strike_price expiry_block underlying_amount premium id : ℕ) (s s' : Pool rt br)
      : Type 0 where
    pub pubkey : List ℕ
    pub escrow : List ℕ
    pub bridge : Bridge
    pub registered : registered_key s.pool env.sender ≡ some pubkey
    pub pubkey_length : length pubkey ≡ 33
    pub small : underlying_amount < u64_mod
    pub script :
        escrow_hash placeholder_buyer pubkey
          ((expiry_block + s.pool.grace_period) % u64_mod)
          s.bridge
        ≡ some escrow
    pub verified : verify outputs escrow underlying_amount s.bridge ≡ some (true, bridge)
    pub new_id : id ≡ s.pool.next_id
    pub left : s' ≡ record s {
      pool = record s.pool {
        next_id = s.pool.next_id + 1;
        options = update s.pool.options s.pool.next_id (
            some (
              btc_option env s.pool.next_id call strike_price expiry_block underlying_amount
                premium));
        events =
            option_written_btc s.pool.next_id env.sender call strike_price underlying_amount premium
              expiry_block escrow
            ∷ s.pool.events;
      };
      btc_collateral = update s.btc_collateral s.pool.next_id underlying_amount;
      escrow_hashes = update s.escrow_hashes s.pool.next_id escrow;
      bridge = bridge;
    }

  write_btc_call-CallWritten :
      (env : Env) (outputs : List Output) (strike expiry amount premium id : ℕ) (s s' : Pool rt br)
      → write_btc_call rt br env outputs strike expiry amount premium s ≡ ok (id, s')
      → CallWritten env outputs strike expiry amount premium id s s'
  unfolding write_btc_call
  write_btc_call-CallWritten env outputs strike expiry amount premium id s s' e =
      let end = (expiry + s.pool.grace_period) % u64_mod in
      elim (Option-cases (registered_key s.pool env.sender)) [
        | inl unknown ↦ absurd (ground (arith, unknown))
        | inr (key, known) ↦ elim (Option-cases (escrow_hash placeholder_buyer key end s.bridge)) [
          | inl fails ↦ absurd (ground (arith, known, fails))
          | inr (escrow, script) ↦ elim (Option-cases (verify outputs escrow amount s.bridge)) [
            | inl fails ↦ absurd (ground (arith, known, script, fails))
            | inr ((v, b), checked) ↦
                let next = add_lem rt s.pool.next_id 1 s.pool in
                let yes_it : v ≡ true = ground (arith, known, script, checked) in
                record {
                  pubkey = key;
                  escrow = escrow;
                  bridge = b;
                  registered = known;
                  pubkey_length = ground (arith, known, script);
                  small = ground (arith, known, script);
                  script = script;
                  verified = rw (← yes_it) checked;
                  new_id = ground (arith, known, script, checked, next);
                  left = ground (arith, known, script, checked, next);
                }
          ]
        ]
      ]

  -- A put is written: its strike value came in.
  pub record PutWritten (env : Env)
      (option_type strike_price expiry_block underlying_amount premium id : ℕ) (s s' : Pool rt br)
      : Type 0 where
    pub ledger : Ledger
    pub paid :
        transfer_from env.self s.pool.premium_token env.sender env.self
          (strike_value_of strike_price underlying_amount)
          s.pool.ledger
        ≡ some ledger
    pub new_id : id ≡ s.pool.next_id
    pub left : s' ≡ record s {
      pool = record s.pool {
        next_id = s.pool.next_id + 1;
        options = update s.pool.options s.pool.next_id (
            some (
              btc_option env s.pool.next_id option_type strike_price expiry_block underlying_amount
                premium));
        ledger = ledger;
        events =
            option_written s.pool.next_id env.sender option_type strike_price underlying_amount
              premium expiry_block
            ∷ s.pool.events;
      };
    }

  write_btc_put-PutWritten :
      (env : Env) (ty strike expiry amount premium id : ℕ) (s s' : Pool rt br)
      → write_btc_put rt br env ty strike expiry amount premium s ≡ ok (id, s')
      → PutWritten env ty strike expiry amount premium id s s'
  unfolding write_btc_put
  write_btc_put-PutWritten env ty strike expiry amount premium id s s' e =
      let next = add_lem rt s.pool.next_id 1 s.pool in
      let t : Pool rt br = record s { pool = record s.pool { next_id = s.pool.next_id + 1 } } in
      let value = strike_value_lem rt strike amount t in
      elim (Option-cases (
        transfer_from env.self s.pool.premium_token env.sender env.self
          (strike_value_of strike amount) s.pool.ledger)) [
            | inl fails ↦ absurd (ground (arith, next, value, fails))
            | inr (l, done) ↦ record {
              ledger = l;
              paid = done;
              new_id = ground (arith, next, value, done);
              left = ground (arith, next, value, done);
            }
          ]

  pub write_option_btc-Written :
      (env : Env) (outputs : List Output) (ty strike expiry amount premium id : ℕ)
      (s s' : Pool rt br)
      → write_option_btc rt br env outputs ty strike expiry amount premium s ≡ ok (id, s')
      → (env.block < expiry)
        × (ty ≤ 1)
        × (((ty ≡ call) × CallWritten env outputs strike expiry amount premium id s s')
            ⊎ ((ty ≢ call) × PutWritten env ty strike expiry amount premium id s s'))
  unfolding write_option_btc
  write_option_btc-Written env outputs ty strike expiry amount premium id s s' e =
      elim (Bool-cases (ty == call)) [
        | inl is_call ↦ (
          ground (arith, is_call),
          ground (arith, is_call),
          inl (
            ground (arith, is_call),
            write_btc_call-CallWritten env outputs strike expiry amount premium id s s'
                (ground (arith, is_call)),
          ),
        )
        | inr is_put ↦ (
          ground (arith, is_put),
          ground (arith, is_put),
          inr (
            ground (arith, is_put),
            write_btc_put-PutWritten env ty strike expiry amount premium id s s'
                (ground (arith, is_put)),
          ),
        )
      ]
