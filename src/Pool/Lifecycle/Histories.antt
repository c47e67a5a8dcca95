-- ===== src/Pool/Lifecycle/Histories.antt =====
-- The life of an option over every history of calls.
use frogop_pub.Prelude.{ℕ, ◌≡◌, List, [], ◌∷◌, refl, ◌∙◌, arith}
use frogop_pub.Runtime.{returned, Runtime, Env, Result, ok, revert, after}
use frogop_pub.Pool.State.{PoolState}
use frogop_pub.Pool.Base.{register_btc_pubkey, update_fee_recipient}
use frogop_pub.Pool.Write.{write_option}
use frogop_pub.Pool.Trade.{buy_option, transfer_option}
use frogop_pub.Pool.Close.{cancel_option, exercise, settle}
use frogop_pub.Pool.Roll.{roll_option}
use frogop_pub.Pool.Batch.{batch_cancel, batch_settle}
use frogop_pub.Pool.Step.{
  Call, writes, cancels, buys, exercises, settles, transfers, rolls, cancels_batch, settles_batch,
  registers, updates_recipient, perform, step, run,
}
use frogop_pub.Pool.Solvency.{IsFresh}
use frogop_pub.Pool.Lifecycle.Handlers.{cancel_option-Evolves, exercise-Evolves, settle-Evolves}
use frogop_pub.Pool.Lifecycle.Handlers.{
  write_option-Evolves, buy_option-Evolves, transfer_option-Evolves, roll_option-Evolves,
}
use frogop_pub.Pool.Lifecycle.Batches.{batch_cancel-Evolves, batch_settle-Evolves}
use frogop_pub.Pool.Lifecycle.{Evolves, Evolves-same, Evolves-trans}
use frogop_pub.Pool.Solvency.Histories.{FromOutside, step-Keeps}

module _ (rt : Runtime) where
  open rt use {Ledger}

  -- A call that returns moves the options along their life.
  pub perform-Evolves :
      (env : Env) (c : Call) (s s' : PoolState Ledger) (u : Unit {0})
      → IsFresh s
      → perform rt env c s ≡ ok (u, s')
      → Evolves s s'
  unfolding perform
  perform-Evolves env (writes ty strike expiry amount premium) s s' u fresh e =
      let (id, r) = returned (write_option rt env ty strike expiry amount premium) s s' u e in
      write_option-Evolves rt env ty strike expiry amount premium s s' id fresh r
  perform-Evolves env (cancels id) s s' u fresh e =
      let (a, r) = returned (cancel_option rt env id) s s' u e in
      cancel_option-Evolves rt env id s s' a r
  perform-Evolves env (buys id) s s' u fresh e =
      let (a, r) = returned (buy_option rt env id) s s' u e in buy_option-Evolves rt env id s s' a r
  perform-Evolves env (exercises id) s s' u fresh e =
      let (a, r) = returned (exercise rt env id) s s' u e in exercise-Evolves rt env id s s' a r
  perform-Evolves env (settles id) s s' u fresh e =
      let (a, r) = returned (settle rt env id) s s' u e in settle-Evolves rt env id s s' a r
  perform-Evolves env (transfers id to) s s' u fresh e =
      let (a, r) = returned (transfer_option rt env id to) s s' u e in
      transfer_option-Evolves rt env id to s s' a r
  perform-Evolves env (rolls id strike expiry premium) s s' u fresh e =
      let (a, r) = returned (roll_option rt env id strike expiry premium) s s' u e in
      roll_option-Evolves rt env id strike expiry premium s s' a fresh r
  perform-Evolves env (cancels_batch count ids) s s' u fresh e =
      let (a, r) = returned (batch_cancel rt env count ids) s s' u e in
      batch_cancel-Evolves rt env count ids s s' a r
  perform-Evolves env (settles_batch count ids) s s' u fresh e =
      let (a, r) = returned (batch_settle rt env count ids) s s' u e in
      batch_settle-Evolves rt env count a ids s s' r
  perform-Evolves env (registers pubkey) s s' u fresh e =
      let (a, r) = returned (register_btc_pubkey rt env pubkey) s s' u e in
      Evolves-same s s' (unfold register_btc_pubkey in ground (arith, r))
  perform-Evolves env (updates_recipient to) s s' u fresh e =
      let (a, r) = returned (update_fee_recipient rt env to) s s' u e in
      Evolves-same s s' (unfold update_fee_recipient in ground (arith, r))

  step-Evolves :
      (env : Env) (c : Call) (s : PoolState Ledger) → IsFresh s → Evolves s (step rt env c s)
  unfolding step
  step-Evolves env c s fresh = by_result (perform rt env c s) refl
    where
      by_result :
          (r : Result (Unit {0} × PoolState Ledger))
          → perform rt env c s ≡ r
          → Evolves s (after s r)
      by_result (ok (u, s')) e = perform-Evolves env c s s' u fresh e
      by_result (revert x) e = Evolves-same s s refl

  -- Over any calls from outside a pool where no option has an identifier from the next one on, every
  -- option is still there afterwards, with the terms
  -- that it was written with; its status has moved along the edges from open to purchased or
  -- cancelled and from purchased to exercised or expired; and an option that had ended has not
  -- changed at all.
  pub run-Evolves :
      (self : ℕ) (cs : List (Env × Call)) (s : PoolState Ledger)
      → FromOutside rt self cs
      → IsFresh s
      → Evolves s (run rt cs s)
  unfolding run
  run-Evolves self [] s outside fresh = Evolves-same s s refl
  run-Evolves self ((env, c) ∷ cs) s outside fresh =
      let other = λ (same : env.sender ≡ env.self). outside.1 (same ∙ outside.0) in
      Evolves-trans s (step rt env c s) (run rt cs (step rt env c s)) (step-Evolves env c s fresh)
        (run-Evolves self cs (step rt env c s) outside.2 (step-Keeps rt env c s other fresh).fresh)
