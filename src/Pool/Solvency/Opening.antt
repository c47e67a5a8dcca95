-- ===== src/Pool/Solvency/Opening.antt =====
-- The surplus of the pool under writeOption, buyOption, transferOption and rollOption of
-- src/contracts/pool/contract.ts.
use frogop_pub.Prelude.{
  ℕ, ◌+◌, ◌-◌, ◌≤◌, ◌≡◌, ◌≢◌, Bool, Option, inl, inr, some, update, ◌==◌, ltb, if◌then◌else◌, ap,
  arith, refl, sym, ◌∙◌, Bool-cases,
}
use frogop_pub.Runtime.{Runtime, Env, ok}
use frogop_pub.Pool.State.{PoolState, OptionRecord, status_purchased, status_cancelled}
use frogop_pub.Pool.Trade.{buy_option, transfer_option}
use frogop_pub.Pool.Write.{write_option}
use frogop_pub.Pool.Roll.{roll_option}
use frogop_pub.Pool.Amounts.{owed, token_for}
use frogop_pub.Pool.Ledgers.{pay_takes, pull_brings}
use frogop_pub.Pool.Solvency.{
  IsFresh, Keeps, locked, locked-append, locked-change, find-lt, lock_of,
}
use frogop_pub.Pool.Solvency.Closing.{change-Keeps, fee_paid_takes}
use frogop_pub.Pool.Effects.Buying.{buy_option-Bought, buy_fee_for}
use frogop_pub.Pool.Effects.Transferring.{transfer_option-Transferred}
use frogop_pub.Pool.Effects.Writing.{write_option-Written, new_option}
use frogop_pub.Pool.Effects.Cancelling.{fee_for}
use frogop_pub.Pool.Effects.Rolling.{
  Rollable, roll_option-Rollable, roll_option_lem, rolled_option, rolled_state, adjusted,
}

module _ (rt : Runtime) where
  open rt use {Ledger, balance}

  pub buy_option-Keeps :
      (env : Env) (id : ℕ) (s s' : PoolState Ledger) (u : Bool)
      → env.sender ≢ env.self
      → IsFresh s
      → buy_option rt env id s ≡ ok (u, s')
      → Keeps rt env.self s s'
  buy_option-Keeps env id s s' u other fresh e =
      let c = buy_option-Bought rt env id s s' u e in
      let o = c.option in
      change-Keeps rt env.self id s s' o
        (record o { buyer = env.sender; status = status_purchased }) fresh c.found
        (ground (arith, c.left)) (ground (arith, c.left)) (ground (arith, c.left))
        (ground (arith, c.left))
        λ t. ground (
          arith,
          c.left,
          pull_brings rt env.self s.premium_token env.sender o.writer (o.premium - buy_fee_for o) t
              s.ledger c.writer_paid other c.premium,
          pull_brings rt env.self s.premium_token env.sender s.fee_recipient (buy_fee_for o) t
              c.writer_paid c.ledger other c.fee,
        )

  pub transfer_option-Keeps :
      (env : Env) (id new_buyer : ℕ) (s s' : PoolState Ledger) (u : Bool)
      → IsFresh s
      → transfer_option rt env id new_buyer s ≡ ok (u, s')
      → Keeps rt env.self s s'
  transfer_option-Keeps env id new_buyer s s' u fresh e =
      let c = transfer_option-Transferred rt env id new_buyer s s' u e in
      let o = c.option in
      change-Keeps rt env.self id s s' o (record o { buyer = new_buyer }) fresh c.found
        (ground (arith, c.left)) (ground (arith, c.left)) (ground (arith, c.left))
        (ground (arith, c.left)) λ t. ground (arith, c.left)

  -- An option is added under the next identifier, and at least its collateral comes in.
  append-Keeps :
      (self : ℕ) (s s' : PoolState Ledger) (o : OptionRecord)
      → IsFresh s
      → s'.underlying ≡ s.underlying
      → s'.premium_token ≡ s.premium_token
      → s'.next_id ≡ s.next_id + 1
      → s'.options ≡ update s.options s.next_id (some o)
      → ((t : ℕ)
          → lock_of s.underlying s.premium_token t o + balance s.ledger t self
            ≤ balance s'.ledger t self)
      → Keeps rt self s s'
  append-Keeps self s s' o fresh eu ep en eo h = record {
    fresh =
        λ i le. ground (arith, fresh i (omega arith), ap (λ (f : ℕ → Option OptionRecord). f i) eo);
    covers = λ t. omega (arith, h t, locked-append t s s' o eu ep en eo);
    same_underlying = eu;
    same_premium_token = ep;
  }

  pub write_option-Keeps :
      (env : Env) (option_type strike_price expiry_block underlying_amount premium : ℕ)
      → (s s' : PoolState Ledger) (id : ℕ) → env.sender ≢ env.self
      → IsFresh s
      → write_option rt env option_type strike_price expiry_block underlying_amount premium s
        ≡ ok (id, s')
      → Keeps rt env.self s s'
  write_option-Keeps env ty strike expiry amount premium s s' id other fresh e =
      let o = new_option env s.next_id ty strike expiry amount premium in
      let c = (write_option-Written rt env ty strike expiry amount premium s s' id e).1 in
      append-Keeps env.self s s' o fresh (ground (arith, c.left)) (ground (arith, c.left))
        (ground (arith, c.left)) (ground (arith, c.left))
        λ t. ground (
          arith,
          c.left,
          pull_brings rt env.self (token_for s o) env.sender env.self (owed o) t s.ledger c.ledger
              other c.paid,
        )

  -- The last token call of a roll brings what is missing for the new collateral, and takes no more
  -- than what is left of the old one.
  adjusted_takes :
      (env : Env) (token new refund t : ℕ) (l l' : Ledger)
      → env.sender ≢ env.self
      → adjusted rt env token new refund l ≡ some l'
      → balance l t env.self + (if token == t then new else 0)
        ≤ balance l' t env.self + (if token == t then refund else 0)
  adjusted_takes env token new refund t l l' other e = elim (Bool-cases (ltb refund new)) [
    | inl more ↦ ground (
      arith,
      pull_brings rt env.self token env.sender env.self (new - refund) t l l' other (rw more at e),
    )
    | inr enough ↦ elim (Bool-cases (ltb new refund)) [
      | inl less ↦ ground (
        arith,
        pay_takes rt env.self token env.sender (refund - new) t l l' (rw (enough, less) at e),
      )
      | inr same ↦
          let unchanged : some l ≡ some l' = rw (enough, same) at e in ground (arith, unchanged)
    ]
  ]

  -- A roll is read as two steps: the old option is cancelled, then the new one is added.
  roll_covers :
      (env : Env) (id strike expiry premium t : ℕ) (s : PoolState Ledger)
      → (c : Rollable rt env id strike expiry premium s) → env.sender ≢ env.self
      → IsFresh s
      → locked (rolled_state rt env id strike expiry premium s c.option c.ledger) t
          + balance s.ledger t env.self
        ≤ locked s t + balance c.ledger t env.self
  roll_covers env id strike expiry premium t s c other fresh =
      let o = c.option in
      let o' : OptionRecord = record o { status = status_cancelled } in
      let new = rolled_option env o s.next_id strike expiry premium in
      let m : PoolState Ledger = record s { options = update s.options id (some o') } in
      ground (
        arith,
        locked-change id t s m o o' fresh c.found refl refl refl refl,
        locked-append t m (rolled_state rt env id strike expiry premium s o c.ledger) new refl refl
            refl refl,
        fee_paid_takes rt env t s o s.ledger c.charged c.fee,
        adjusted_takes env (token_for s o) (owed new) (owed o - fee_for env o) t c.charged c.ledger
            other c.balanced,
        c.fee_fits,
        c.was_open,
      )

  pub roll_option-Keeps :
      (env : Env) (id strike expiry premium : ℕ) (s s' : PoolState Ledger) (new_id : ℕ)
      → env.sender ≢ env.self
      → IsFresh s
      → roll_option rt env id strike expiry premium s ≡ ok (new_id, s')
      → Keeps rt env.self s s'
  roll_option-Keeps env id strike expiry premium s s' new_id other fresh e =
      let c = roll_option-Rollable rt env id strike expiry premium s s' new_id e in
      let done = sym e ∙ roll_option_lem rt env id strike expiry premium s c in
      let state : s' ≡ rolled_state rt env id strike expiry premium s c.option c.ledger = cc done in
      rw state record {
        fresh = λ i le. ground (arith, fresh i (omega arith), find-lt id s c.option fresh c.found);
        covers = λ t. roll_covers env id strike expiry premium t s c other fresh;
        same_underlying = refl;
        same_premium_token = refl;
      }
