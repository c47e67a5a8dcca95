-- ===== src/Pool/Solvency/Batches.antt =====
-- The surplus of the pool under batchCancel and batchSettle of src/contracts/pool/contract.ts.
use frogop_pub.Prelude.{
  ℕ, ◌≡◌, Bool, true, List, [], ◌∷◌, some, inl, inr, Option-cases, arith, take,
}
use frogop_pub.Runtime.{Runtime, Env, ok, >>=-eq-ok}
use frogop_pub.Pool.State.{PoolState, OptionRecord, status_purchased, status_expired}
use frogop_pub.Pool.Amounts.{owed, token_for}
use frogop_pub.Pool.Ledgers.{pay_takes}
use frogop_pub.Pool.Batch.{
  cancel_item, cancel_each, batch_cancel, settle_item, settle_now, settle_each, batch_settle,
}
use frogop_pub.Pool.Batch.Items.{cancel_option-cancel_item, settle_now-eq-ok}
use frogop_pub.Pool.Solvency.{IsFresh, Keeps, Keeps-refl, Keeps-trans}
use frogop_pub.Pool.Solvency.Closing.{change-Keeps, cancel_option-Keeps}

module _ (rt : Runtime) where
  open rt use {Ledger}

  cancel_item-Keeps :
      (env : Env) (id : ℕ) (s s' : PoolState Ledger) (u : Unit {0})
      → IsFresh s
      → cancel_item rt env id s ≡ ok (u, s')
      → Keeps rt env.self s s'
  cancel_item-Keeps env id s s' u fresh e =
      cancel_option-Keeps rt env id s s' true fresh
        (rw (cancel_option-cancel_item rt env id) (ground (arith, e)))

  cancel_each-Keeps :
      (env : Env) (ids : List ℕ) (s s' : PoolState Ledger) (u : Unit {0})
      → IsFresh s
      → cancel_each rt env ids s ≡ ok (u, s')
      → Keeps rt env.self s s'
  unfolding cancel_each
  cancel_each-Keeps env [] s s' u fresh e =
      let same : s ≡ s' = cc e in rw (← same) (Keeps-refl rt env.self s fresh)
  cancel_each-Keeps env (id ∷ ids) s s' u fresh e =
      let (_, t, first, rest) =
        >>=-eq-ok (cancel_item rt env id) (λ _. cancel_each rt env ids) s s' u e in
      let kept = cancel_item-Keeps env id s t _ fresh first in
      Keeps-trans rt env.self s t s' kept (cancel_each-Keeps env ids t s' u kept.fresh rest)

  pub batch_cancel-Keeps :
      (env : Env) (count : ℕ) (ids : List ℕ) (s s' : PoolState Ledger) (u : Bool)
      → IsFresh s
      → batch_cancel rt env count ids s ≡ ok (u, s')
      → Keeps rt env.self s s'
  unfolding batch_cancel
  batch_cancel-Keeps env count ids s s' u fresh e =
      ground (arith, cancel_each-Keeps env (take count ids) s s' tt fresh)

  settle_now-Keeps :
      (env : Env) (id n m : ℕ) (o : OptionRecord) (s s' : PoolState Ledger)
      → IsFresh s
      → s.options id ≡ some o
      → o.status ≡ status_purchased
      → settle_now rt env id o n s ≡ ok (m, s')
      → Keeps rt env.self s s'
  settle_now-Keeps env id n m o s s' fresh found live e =
      let (l, paid, left) = settle_now-eq-ok rt env id n m o s s' found e in
      change-Keeps rt env.self id s s' o (record o { status = status_expired }) fresh found
        (ground (arith, left)) (ground (arith, left)) (ground (arith, left)) (ground (arith, left))
        λ t.
          ground
            (arith, left, pay_takes rt env.self (token_for s o) o.writer (owed o) t s.ledger l paid)

  settle_item-Keeps :
      (env : Env) (id n m : ℕ) (s s' : PoolState Ledger)
      → IsFresh s
      → settle_item rt env id n s ≡ ok (m, s')
      → Keeps rt env.self s s'
  unfolding settle_item
  settle_item-Keeps env id n m s s' fresh e = elim (Option-cases (s.options id)) [
    | inl missing ↦
        let same : s ≡ s' = ground (arith, missing) in rw (← same) (Keeps-refl rt env.self s fresh)
    | inr (o, found) ↦
        ground
          (arith, settle_now-Keeps env id n m o s s' fresh found, Keeps-refl rt env.self s fresh)
  ]

  settle_each-Keeps :
      (env : Env) (ids : List ℕ) (n m : ℕ) (s s' : PoolState Ledger)
      → IsFresh s
      → settle_each rt env ids n s ≡ ok (m, s')
      → Keeps rt env.self s s'
  unfolding settle_each
  settle_each-Keeps env [] n m s s' fresh e =
      let same : s ≡ s' = cc e in rw (← same) (Keeps-refl rt env.self s fresh)
  settle_each-Keeps env (id ∷ ids) n m s s' fresh e =
      let (k, t, first, rest) =
        >>=-eq-ok (settle_item rt env id n) (λ k. settle_each rt env ids k) s s' m e in
      let kept = settle_item-Keeps env id n k s t fresh first in
      Keeps-trans rt env.self s t s' kept (settle_each-Keeps env ids k m t s' kept.fresh rest)

  pub batch_settle-Keeps :
      (env : Env) (count m : ℕ) (ids : List ℕ) (s s' : PoolState Ledger)
      → IsFresh s
      → batch_settle rt env count ids s ≡ ok (m, s')
      → Keeps rt env.self s s'
  unfolding batch_settle
  batch_settle-Keeps env count m ids s s' fresh e =
      ground (arith, settle_each-Keeps env (take count ids) 0 m s s' fresh)
