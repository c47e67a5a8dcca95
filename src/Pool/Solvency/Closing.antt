-- ===== src/Pool/Solvency/Closing.antt =====
-- The surplus of the pool under cancelOption, exercise and settle of src/contracts/pool/contract.ts.
use frogop_pub.Prelude.{
  ℕ, ◌+◌, ◌≤◌, ◌≡◌, ◌≢◌, ◌-◌, ltb, if◌then◌else◌, Bool, inl, inr, some, update, ◌==◌, arith,
  Bool-cases, ap, Option,
}
use frogop_pub.Runtime.{Runtime, Env, ok}
use frogop_pub.Pool.State.{
  PoolState, OptionRecord, status_expired, status_cancelled, status_exercised,
}
use frogop_pub.Pool.Close.{settle, cancel_option, exercise}
use frogop_pub.Pool.Amounts.{owed, token_for}
use frogop_pub.Pool.Ledgers.{pay_takes, pull_brings}
use frogop_pub.Pool.Solvency.{IsFresh, Keeps, locked-change, find-lt, lock_of}
use frogop_pub.Pool.Effects.Settling.{settle-Settled}
use frogop_pub.Pool.Effects.Cancelling.{cancel_option-Cancelled, fee_for, fee_paid}
use frogop_pub.Pool.Effects.Exercising.{exercise-Exercised, exercise_fee_for, price_of, price_token}

module _ (rt : Runtime) where
  open rt use {Ledger, balance}

  -- One option is replaced by another, and what leaves the pool is made up by what it locked.
  pub change-Keeps :
      (self id : ℕ) (s s' : PoolState Ledger) (o o' : OptionRecord)
      → IsFresh s
      → s.options id ≡ some o
      → s'.underlying ≡ s.underlying
      → s'.premium_token ≡ s.premium_token
      → s'.next_id ≡ s.next_id
      → s'.options ≡ update s.options id (some o')
      → ((t : ℕ)
          → lock_of s.underlying s.premium_token t o' + balance s.ledger t self
            ≤ lock_of s.underlying s.premium_token t o + balance s'.ledger t self)
      → Keeps rt self s s'
  change-Keeps self id s s' o o' fresh e eu ep en eo h = record {
    fresh = λ i le. ground (
      arith,
      eo,
      find-lt id s o fresh e,
      fresh i (omega arith),
      ap (λ (f : ℕ → Option OptionRecord). f i) eo,
    );
    covers = λ t. omega (arith, h t, locked-change id t s s' o o' fresh e eu ep en eo);
    same_underlying = eu;
    same_premium_token = ep;
  }

  pub settle-Keeps :
      (env : Env) (id : ℕ) (s s' : PoolState Ledger) (u : Bool)
      → IsFresh s
      → settle rt env id s ≡ ok (u, s')
      → Keeps rt env.self s s'
  settle-Keeps env id s s' u fresh e =
      let c = settle-Settled rt env id s s' u e in
      let o = c.option in
      change-Keeps env.self id s s' o (record o { status = status_expired }) fresh c.found
        (ground (arith, c.left)) (ground (arith, c.left)) (ground (arith, c.left))
        (ground (arith, c.left))
        λ t. ground (
          arith,
          c.left,
          pay_takes rt env.self (token_for s o) o.writer (owed o) t s.ledger c.ledger c.paid,
        )

  pub fee_paid_takes :
      (env : Env) (t : ℕ) (s : PoolState Ledger) (o : OptionRecord) (l l' : Ledger)
      → fee_paid rt env s o l ≡ some l'
      → balance l t env.self
        ≤ balance l' t env.self + (if token_for s o == t then fee_for env o else 0)
  fee_paid_takes env t s o l l' e = elim (Bool-cases (ltb 0 (fee_for env o))) [
    | inl some_fee ↦
        pay_takes rt env.self (token_for s o) s.fee_recipient (fee_for env o) t l l'
          (rw some_fee at e)
    | inr no_fee ↦ let same : some l ≡ some l' = rw no_fee at e in ground (arith, same)
  ]

  pub cancel_option-Keeps :
      (env : Env) (id : ℕ) (s s' : PoolState Ledger) (u : Bool)
      → IsFresh s
      → cancel_option rt env id s ≡ ok (u, s')
      → Keeps rt env.self s s'
  cancel_option-Keeps env id s s' u fresh e =
      let c = cancel_option-Cancelled rt env id s s' u e in
      let o = c.option in
      change-Keeps env.self id s s' o (record o { status = status_cancelled }) fresh c.found
        (ground (arith, c.left)) (ground (arith, c.left)) (ground (arith, c.left))
        (ground (arith, c.left))
        λ t. ground (
          arith,
          c.left,
          c.fee_fits,
          pay_takes rt env.self (token_for s o) o.writer (owed o - fee_for env o) t s.ledger
              c.refunded c.refund,
          fee_paid_takes env t s o c.refunded c.ledger c.fee,
        )

  pub exercise-Keeps :
      (env : Env) (id : ℕ) (s s' : PoolState Ledger) (u : Bool)
      → env.sender ≢ env.self
      → IsFresh s
      → exercise rt env id s ≡ ok (u, s')
      → Keeps rt env.self s s'
  exercise-Keeps env id s s' u other fresh e =
      let c = exercise-Exercised rt env id s s' u e in
      let o = c.option in
      change-Keeps env.self id s s' o (record o { status = status_exercised }) fresh c.found
        (ground (arith, c.left)) (ground (arith, c.left)) (ground (arith, c.left))
        (ground (arith, c.left))
        λ t. ground (
          arith,
          c.left,
          c.fee_fits,
          pull_brings rt env.self (price_token s o) env.sender o.writer (price_of o) t s.ledger
              c.bought other c.price,
          pay_takes rt env.self (token_for s o) env.sender (owed o - exercise_fee_for o) t c.bought
              c.received c.proceeds,
          pay_takes rt env.self (token_for s o) s.fee_recipient (exercise_fee_for o) t c.received
              c.ledger c.fee,
        )
