-- ===== src/BtcPool/Guarantees.antt =====
-- What the Bitcoin payments of src/contracts/pool/btc-underlying.ts promise.
use frogop_pub.Prelude.{
  ℕ, ◌+◌, ◌%◌, ◌≤◌, ◌≡◌, ◌≢◌, refl, Bool, true, false, some, List, inl, inr, arith, length,
}
use frogop_pub.Runtime.{Runtime, Env, ok, u64_mod}
use frogop_pub.Pool.Base.{registered_key}
use frogop_pub.Pool.State.{OptionRecord, call}
use frogop_pub.Bridge.Bitcoin.{Output}
use frogop_pub.QuotePool.State.{BridgeCalls}
use frogop_pub.BtcPool.Handlers.{write_option_btc, exercise, btc_option, placeholder_buyer}
use frogop_pub.BtcPool.Security.{Pool}
use frogop_pub.BtcPool.Effects.Writing.{write_option_btc-Written}
use frogop_pub.BtcPool.Effects.Exercising.{exercise-Taken}

module _ (rt : Runtime) (br : BridgeCalls) where
  open br use {paid, used, verified, csv_hash, escrow_hash}

  -- A call that is written was collateralised in Bitcoin: the writer has registered a key, the
  -- escrow is the script of the placeholder and that key with the end of the grace period, and the
  -- transaction has an output to it of at least the amount, which was not used up before and is now.
  -- The option is open under the next identifier, with the amount and the escrow stored beside it,
  -- and no token moved.
  pub write_option_btc_paid :
      (env : Env) (outputs : List Output) (strike expiry amount premium id : ℕ) (s s' : Pool rt br)
      → write_option_btc rt br env outputs call strike expiry amount premium s ≡ ok (id, s')
      → (key : List ℕ) × (escrow : List ℕ) × (value : ℕ) × (registered_key s.pool env.sender
          ≡ some key)
        × (escrow_hash placeholder_buyer key ((expiry + s.pool.grace_period) % u64_mod) s.bridge
            ≡ some escrow)
        × paid outputs escrow value
        × (amount ≤ value)
        × (used s.bridge escrow value ≡ false)
        × (used s'.bridge escrow value ≡ true)
        × (s'.pool.options id ≡ some (btc_option env id call strike expiry amount premium))
        × (s'.btc_collateral id ≡ amount)
        × (s'.escrow_hashes id ≡ escrow)
        × (s'.pool.ledger ≡ s.pool.ledger)
  write_option_btc_paid env outputs strike expiry amount premium id s s' e =
      let (_, _, how) =
        write_option_btc-Written rt br env outputs call strike expiry amount premium id s s' e in
      elim how [
        | inl (is_call, c) ↦
            let (value, pays, enough, unused, now) =
              verified outputs c.escrow amount s.bridge c.bridge c.verified in
            (
              c.pubkey,
              c.escrow,
              value,
              c.registered,
              c.script,
              pays,
              enough,
              unused,
              ground (arith, c.left, now),
              ground (arith, c.left, c.new_id),
              ground (arith, c.left, c.new_id),
              ground (arith, c.left, c.new_id),
              ground (arith, c.left),
            )
        | inr (is_put, c) ↦ absurd (is_put refl)
      ]

  -- A put that is exercised was paid for in Bitcoin: the writer has registered a key of 33 bytes, and
  -- the transaction has an output to the script of that key of at least the put's amount, which was
  -- not used up before and is now.
  pub exercise_paid_btc :
      (env : Env) (outputs : List Output) (id : ℕ) (s s' : Pool rt br) (u : Bool) (o : OptionRecord)
      → s.pool.options id ≡ some o
      → o.option_type ≢ call
      → exercise rt br env outputs id s ≡ ok (u, s')
      → (key : List ℕ) × (csv : List ℕ) × (value : ℕ) × (registered_key s.pool o.writer ≡ some key)
        × (length key ≡ 33)
        × (csv_hash key 6 s.bridge ≡ some csv)
        × paid outputs csv value
        × (o.underlying_amount ≤ value)
        × (used s.bridge csv value ≡ false)
        × (used s'.bridge csv value ≡ true)
  exercise_paid_btc env outputs id s s' u o found is_put e =
      let c = exercise-Taken rt br env outputs id s s' u e in
      let it : c.option ≡ o = ground (arith, c.found, found) in
      elim c.how [
        | inl (is_call, p) ↦ absurd (is_put (rw it at is_call))
        | inr (_, p) ↦
            let checked : br.verify outputs p.csv o.underlying_amount s.bridge
                ≡ some (true, p.bridge) =
              rw it at p.verified in
            let (value, pays, enough, unused, now) =
              verified outputs p.csv o.underlying_amount s.bridge p.bridge checked in
            (
              p.pubkey,
              p.csv,
              value,
              rw it at p.registered,
              p.pubkey_length,
              p.script,
              pays,
              enough,
              unused,
              ground (arith, c.left, p.left, now),
            )
      ]
