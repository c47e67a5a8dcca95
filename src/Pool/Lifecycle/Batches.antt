-- ===== src/Pool/Lifecycle/Batches.antt =====
-- batchCancel and batchSettle of src/contracts/pool/contract.ts move the options along their life.
use frogop_pub.Prelude.{
  ℕ, ◌≡◌, Bool, true, List, [], ◌∷◌, some, inl, inr, Option-cases, arith, take, refl,
}
use frogop_pub.Runtime.{Runtime, Env, ok, >>=-eq-ok}
use frogop_pub.Pool.State.{PoolState, OptionRecord, status_purchased, status_expired}
use frogop_pub.Pool.Batch.{
  cancel_item, cancel_each, batch_cancel, settle_item, settle_now, settle_each, batch_settle,
}
use frogop_pub.Pool.Batch.Items.{cancel_option-cancel_item, settle_now-eq-ok}
use frogop_pub.Pool.Lifecycle.{
  Evolves, Evolves-same, Evolves-trans, Evolves-change, here, next, expired,
}
use frogop_pub.Pool.Lifecycle.Handlers.{cancel_option-Evolves, live_Becomes}

module _ (rt : Runtime) where
  open rt use {Ledger}

  cancel_item-Evolves :
      (env : Env) (id : ℕ) (s s' : PoolState Ledger) (u : Unit {0})
      → cancel_item rt env id s ≡ ok (u, s')
      → Evolves s s'
  cancel_item-Evolves env id s s' u e =
      cancel_option-Evolves rt env id s s' true
        (rw (cancel_option-cancel_item rt env id) (ground (arith, e)))

  cancel_each-Evolves :
      (env : Env) (ids : List ℕ) (s s' : PoolState Ledger) (u : Unit {0})
      → cancel_each rt env ids s ≡ ok (u, s')
      → Evolves s s'
  unfolding cancel_each
  cancel_each-Evolves env [] s s' u e =
      let same : s ≡ s' = cc e in rw (← same) (Evolves-same s s refl)
  cancel_each-Evolves env (id ∷ ids) s s' u e =
      let (_, t, first, rest) =
        >>=-eq-ok (cancel_item rt env id) (λ _. cancel_each rt env ids) s s' u e in
      let kept = cancel_item-Evolves env id s t _ first in
      Evolves-trans s t s' kept (cancel_each-Evolves env ids t s' u rest)

  pub batch_cancel-Evolves :
      (env : Env) (count : ℕ) (ids : List ℕ) (s s' : PoolState Ledger) (u : Bool)
      → batch_cancel rt env count ids s ≡ ok (u, s')
      → Evolves s s'
  unfolding batch_cancel
  batch_cancel-Evolves env count ids s s' u e =
      ground (arith, cancel_each-Evolves env (take count ids) s s' tt)

  settle_now-Evolves :
      (env : Env) (id n m : ℕ) (o : OptionRecord) (s s' : PoolState Ledger)
      → s.options id ≡ some o
      → o.status ≡ status_purchased
      → settle_now rt env id o n s ≡ ok (m, s')
      → Evolves s s'
  settle_now-Evolves env id n m o s s' found live e =
      let (l, paid, left) = settle_now-eq-ok rt env id n m o s s' found e in
      Evolves-change id s s' o (record o { status = status_expired }) found (ground (arith, left))
        (live_Becomes o o.buyer status_expired (next here (expired live refl))
          (ground (arith, live)))

  settle_item-Evolves :
      (env : Env) (id n m : ℕ) (s s' : PoolState Ledger)
      → settle_item rt env id n s ≡ ok (m, s')
      → Evolves s s'
  unfolding settle_item
  settle_item-Evolves env id n m s s' e = elim (Option-cases (s.options id)) [
    | inl missing ↦
        let same : s ≡ s' = ground (arith, missing) in rw (← same) (Evolves-same s s refl)
    | inr (o, found) ↦
        ground (arith, settle_now-Evolves env id n m o s s' found, Evolves-same s s refl)
  ]

  settle_each-Evolves :
      (env : Env) (ids : List ℕ) (n m : ℕ) (s s' : PoolState Ledger)
      → settle_each rt env ids n s ≡ ok (m, s')
      → Evolves s s'
  unfolding settle_each
  settle_each-Evolves env [] n m s s' e =
      let same : s ≡ s' = cc e in rw (← same) (Evolves-same s s refl)
  settle_each-Evolves env (id ∷ ids) n m s s' e =
      let (k, t, first, rest) =
        >>=-eq-ok (settle_item rt env id n) (λ k. settle_each rt env ids k) s s' m e in
      let kept = settle_item-Evolves env id n k s t first in
      Evolves-trans s t s' kept (settle_each-Evolves env ids k m t s' rest)

  pub batch_settle-Evolves :
      (env : Env) (count m : ℕ) (ids : List ℕ) (s s' : PoolState Ledger)
      → batch_settle rt env count ids s ≡ ok (m, s')
      → Evolves s s'
  unfolding batch_settle
  batch_settle-Evolves env count m ids s s' e =
      ground (arith, settle_each-Evolves env (take count ids) 0 m s s')
