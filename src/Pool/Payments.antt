-- ===== src/Pool/Payments.antt =====
-- Who pays what to whom: the handlers of src/contracts/pool/contract.ts on the ledgers of the
-- tokens.
use frogop_pub.Prelude.{
  ℕ, ◌+◌, ◌-◌, ◌≡◌, ◌≢◌, Bool, some, inl, inr, Bool-cases, sym, ◌∙◌, ltb, ◌≤◌, arith,
}
use frogop_pub.Runtime.{Runtime, Env, ok, part_of}
use frogop_pub.Pool.State.{PoolState, OptionRecord}
use frogop_pub.Pool.Trade.{buy_option}
use frogop_pub.Pool.Close.{cancel_option, exercise, settle}
use frogop_pub.Pool.Roll.{roll_option}
use frogop_pub.Pool.Amounts.{owed, token_for}
use frogop_pub.Pool.Effects.Settling.{settle-Settled, settle_paid}
use frogop_pub.Pool.Effects.Cancelling.{cancel_option-Cancelled, fee_for, fee_paid, refund_paid}
use frogop_pub.Pool.Effects.Exercising.{
  exercise-Exercised, exercise_fee_for, price_of, price_token, price_paid, proceeds_paid,
  exercise_fee_paid,
}
use frogop_pub.Pool.Effects.Buying.{buy_option-Bought, buy_fee_for}
use frogop_pub.Pool.Effects.Rolling.{
  roll_option-Rollable, roll_option_lem, rolled_state, rolled_option, adjusted,
}

module _ (rt : Runtime) where
  open rt use {Ledger, balance, moves}

  -- In a purchase that returns, the buyer pays the premium of the option, the writer receives it
  -- less the fee, and the fee recipient receives the fee, which is 1 % rounded up. The fee
  -- recipient is neither the buyer nor the writer.
  pub buy_option_pays :
      (env : Env) (id : ℕ) (s s' : PoolState Ledger) (u : Bool) (o : OptionRecord)
      → s.options id ≡ some o
      → env.sender ≢ s.fee_recipient
      → o.writer ≢ s.fee_recipient
      → buy_option rt env id s ≡ ok (u, s')
      → (balance s'.ledger s.premium_token env.sender + o.premium
          ≡ balance s.ledger s.premium_token env.sender)
        × (balance s'.ledger s.premium_token o.writer
            ≡ balance s.ledger s.premium_token o.writer + (o.premium - buy_fee_for o))
        × (balance s'.ledger s.premium_token s.fee_recipient
            ≡ balance s.ledger s.premium_token s.fee_recipient + buy_fee_for o)
  buy_option_pays env id s s' u o found br wr e =
      let c = buy_option-Bought rt env id s s' u e in
      let it : c.option ≡ o = ground (arith, c.found, found) in
      let net = c.option.premium - buy_fee_for c.option in
      let first =
        moves env.self s.premium_token env.sender c.option.writer net s.ledger c.writer_paid
          c.premium s.premium_token in
      let second =
        moves env.self s.premium_token env.sender s.fee_recipient (buy_fee_for c.option)
          c.writer_paid c.ledger c.fee s.premium_token in
      (
        ground (arith, it, c.left, c.fee_fits, c.not_writer, first env.sender, second env.sender),
        ground (arith, it, c.left, c.fee_fits, c.not_writer, first o.writer, second o.writer),
        ground (arith, it, c.left, c.fee_fits, first s.fee_recipient, second s.fee_recipient),
      )

  -- The second payment of a cancellation, on the ledger of anyone.
  fee_paid_moves :
      (env : Env) (t h : ℕ) (s : PoolState Ledger) (o : OptionRecord) (l l' : Ledger)
      → fee_paid rt env s o l ≡ some l'
      → balance l' t h + part_of (token_for s o) env.self (fee_for env o) t h
        ≡ balance l t h + part_of (token_for s o) s.fee_recipient (fee_for env o) t h
  fee_paid_moves env t h s o l l' e = elim (Bool-cases (ltb 0 (fee_for env o))) [
    | inl some_fee ↦
        moves env.self (token_for s o) env.self s.fee_recipient (fee_for env o) l l'
          (rw some_fee at e) t h
    | inr no_fee ↦ let same : some l ≡ some l' = rw no_fee at e in ground (arith, same)
  ]

  -- In a cancellation that returns, the pool gives out exactly the collateral: the writer receives
  -- it less the fee, and the fee recipient the fee. The pool, the writer and the fee recipient are
  -- different parties.
  pub cancel_option_pays :
      (env : Env) (id : ℕ) (s s' : PoolState Ledger) (u : Bool) (o : OptionRecord)
      → s.options id ≡ some o
      → o.writer ≢ env.self
      → s.fee_recipient ≢ env.self
      → o.writer ≢ s.fee_recipient
      → cancel_option rt env id s ≡ ok (u, s')
      → (balance s'.ledger (token_for s o) env.self + owed o
          ≡ balance s.ledger (token_for s o) env.self)
        × (balance s'.ledger (token_for s o) o.writer + fee_for env o
            ≡ balance s.ledger (token_for s o) o.writer + owed o)
        × (balance s'.ledger (token_for s o) s.fee_recipient
            ≡ balance s.ledger (token_for s o) s.fee_recipient + fee_for env o)
  cancel_option_pays env id s s' u o found ws rs wr e =
      let c = cancel_option-Cancelled rt env id s s' u e in
      let it : c.option ≡ o = ground (arith, c.found, found) in
      let refund : refund_paid rt env s o ≡ some c.refunded = rw it at c.refund in
      let fee : fee_paid rt env s o c.refunded ≡ some c.ledger = rw it at c.fee in
      let fits : fee_for env o ≤ owed o = rw it at c.fee_fits in
      let token = token_for s o in
      let first =
        moves env.self token env.self o.writer (owed o - fee_for env o) s.ledger c.refunded refund
          token in
      let second = λ (h : ℕ). fee_paid_moves env token h s o c.refunded c.ledger fee in
      (
        ground (arith, c.left, fits, first env.self, second env.self),
        ground (arith, c.left, fits, first o.writer, second o.writer),
        ground (arith, c.left, fits, first s.fee_recipient, second s.fee_recipient),
      )

  -- In a settlement that returns, the pool gives the whole collateral to the writer, who is
  -- another party.
  pub settle_pays :
      (env : Env) (id : ℕ) (s s' : PoolState Ledger) (u : Bool) (o : OptionRecord)
      → s.options id ≡ some o
      → o.writer ≢ env.self
      → settle rt env id s ≡ ok (u, s')
      → (balance s'.ledger (token_for s o) env.self + owed o
          ≡ balance s.ledger (token_for s o) env.self)
        × (balance s'.ledger (token_for s o) o.writer
            ≡ balance s.ledger (token_for s o) o.writer + owed o)
  settle_pays env id s s' u o found ws e =
      let c = settle-Settled rt env id s s' u e in
      let it : c.option ≡ o = ground (arith, c.found, found) in
      let paid : settle_paid rt env s o ≡ some c.ledger = rw it at c.paid in
      let token = token_for s o in
      let first = moves env.self token env.self o.writer (owed o) s.ledger c.ledger paid token in
      (ground (arith, c.left, first env.self), ground (arith, c.left, first o.writer))

  -- In an exercise that returns, the buyer pays the price of the option to the writer and receives
  -- the collateral less the fee, the fee recipient receives the fee, which is 0.1 % rounded up, and
  -- the pool gives out exactly the collateral. The two tokens are different, the pool is none of the
  -- parties, and the buyer is neither the writer nor the fee recipient.
  pub exercise_pays :
      (env : Env) (id : ℕ) (s s' : PoolState Ledger) (u : Bool) (o : OptionRecord)
      → s.options id ≡ some o
      → s.underlying ≢ s.premium_token
      → env.sender ≢ env.self
      → o.writer ≢ env.self
      → s.fee_recipient ≢ env.self
      → env.sender ≢ o.writer
      → env.sender ≢ s.fee_recipient
      → exercise rt env id s ≡ ok (u, s')
      → (balance s'.ledger (price_token s o) env.sender + price_of o
          ≡ balance s.ledger (price_token s o) env.sender)
        × (balance s'.ledger (price_token s o) o.writer
            ≡ balance s.ledger (price_token s o) o.writer + price_of o)
        × (balance s'.ledger (token_for s o) env.sender
            ≡ balance s.ledger (token_for s o) env.sender + (owed o - exercise_fee_for o))
        × (balance s'.ledger (token_for s o) s.fee_recipient
            ≡ balance s.ledger (token_for s o) s.fee_recipient + exercise_fee_for o)
        × (balance s'.ledger (token_for s o) env.self + owed o
            ≡ balance s.ledger (token_for s o) env.self)
  exercise_pays env id s s' u o found tokens bs ws rs bw br e =
      let c = exercise-Exercised rt env id s s' u e in
      let it : c.option ≡ o = ground (arith, c.found, found) in
      let price : price_paid rt env s o ≡ some c.bought = rw it at c.price in
      let proceeds : proceeds_paid rt env s o c.bought ≡ some c.received = rw it at c.proceeds in
      let fee : exercise_fee_paid rt env s o c.received ≡ some c.ledger = rw it at c.fee in
      let fits : exercise_fee_for o ≤ owed o = rw it at c.fee_fits in
      let differ : price_token s o ≢ token_for s o = ground arith in
      let first =
        moves env.self (price_token s o) env.sender o.writer (price_of o) s.ledger c.bought price in
      let second =
        moves env.self (token_for s o) env.self env.sender (owed o - exercise_fee_for o) c.bought
          c.received proceeds in
      let third =
        moves env.self (token_for s o) env.self s.fee_recipient (exercise_fee_for o) c.received
          c.ledger fee in
      (
        ground (
          arith,
          c.left,
          fits,
          differ,
          first (price_token s o) env.sender,
          second (price_token s o) env.sender,
          third (price_token s o) env.sender,
        ),
        ground (
          arith,
          c.left,
          fits,
          differ,
          first (price_token s o) o.writer,
          second (price_token s o) o.writer,
          third (price_token s o) o.writer,
        ),
        ground (
          arith,
          c.left,
          fits,
          differ,
          first (token_for s o) env.sender,
          second (token_for s o) env.sender,
          third (token_for s o) env.sender,
        ),
        ground (
          arith,
          c.left,
          fits,
          differ,
          first (token_for s o) s.fee_recipient,
          second (token_for s o) s.fee_recipient,
          third (token_for s o) s.fee_recipient,
        ),
        ground (
          arith,
          c.left,
          fits,
          differ,
          first (token_for s o) env.self,
          second (token_for s o) env.self,
          third (token_for s o) env.self,
        ),
      )

  -- The pool's holdings over the last token call of a roll.
  adjusted_moves :
      (env : Env) (token new refund : ℕ) (l l' : Ledger)
      → env.sender ≢ env.self
      → adjusted rt env token new refund l ≡ some l'
      → balance l' token env.self + refund ≡ balance l token env.self + new
  adjusted_moves env token new refund l l' other e = elim (Bool-cases (ltb refund new)) [
    | inl more ↦ ground (
      arith,
      moves env.self token env.sender env.self (new - refund) l l' (rw more at e) token env.self,
    )
    | inr enough ↦ elim (Bool-cases (ltb new refund)) [
      | inl less ↦ ground (
        arith,
        moves env.self token env.self env.sender (refund - new) l l' (rw (enough, less) at e) token
            env.self,
      )
      | inr same ↦
          let unchanged : some l ≡ some l' = rw (enough, same) at e in ground (arith, unchanged)
    ]
  ]

  -- A roll that returns brings the pool from the collateral of the old option to exactly that of
  -- the new one, and returns the identifier of the new one. Neither the caller nor the fee recipient
  -- is the pool.
  pub roll_option_pays :
      (env : Env) (id strike expiry premium : ℕ) (s s' : PoolState Ledger) (new_id : ℕ)
      → (o : OptionRecord) → s.options id ≡ some o
      → env.sender ≢ env.self
      → s.fee_recipient ≢ env.self
      → roll_option rt env id strike expiry premium s ≡ ok (new_id, s')
      → (new_id ≡ s.next_id)
        × (balance s'.ledger (token_for s o) env.self + owed o
            ≡ balance s.ledger (token_for s o) env.self
              + owed (rolled_option env o s.next_id strike expiry premium))
  roll_option_pays env id strike expiry premium s s' new_id o found other rs e =
      let c = roll_option-Rollable rt env id strike expiry premium s s' new_id e in
      let it : c.option ≡ o = ground (arith, c.found, found) in
      let done = sym e ∙ roll_option_lem rt env id strike expiry premium s c in
      let new_id_eq : new_id ≡ s.next_id = cc done in
      let state : s' ≡ rolled_state rt env id strike expiry premium s c.option c.ledger = cc done in
      let token = token_for s o in
      let new = owed (rolled_option env o s.next_id strike expiry premium) in
      let fee : fee_paid rt env s o s.ledger ≡ some c.charged = rw it at c.fee in
      let fits : fee_for env o ≤ owed o = rw it at c.fee_fits in
      let balanced : adjusted rt env token new (owed o - fee_for env o) c.charged ≡ some c.ledger =
        rw it at c.balanced in
      (
        new_id_eq,
        ground (
          arith,
          state,
          fits,
          fee_paid_moves env token env.self s o s.ledger c.charged fee,
          adjusted_moves env token new (owed o - fee_for env o) c.charged c.ledger other balanced,
        ),
      )
