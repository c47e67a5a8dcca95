-- ===== src/Pool/Solvency/Histories.antt =====
-- The surplus and the solvency of a pool over every history of calls.
use frogop_pub.Prelude.{ℕ, ◌≡◌, ◌≢◌, Bool, List, [], ◌∷◌, refl, subst, ◌∙◌, arith}
use frogop_pub.Runtime.{Runtime, Env, Result, ok, revert, after, returned}
use frogop_pub.Pool.State.{PoolState}
use frogop_pub.Pool.Base.{register_btc_pubkey, update_fee_recipient}
use frogop_pub.Pool.Write.{write_option}
use frogop_pub.Pool.Trade.{buy_option, transfer_option}
use frogop_pub.Pool.Close.{cancel_option, exercise, settle}
use frogop_pub.Pool.Roll.{roll_option}
use frogop_pub.Pool.Batch.{batch_cancel, batch_settle}
use frogop_pub.Pool.Step.{
  Call, writes, cancels, buys, exercises, settles, transfers, rolls, cancels_batch, settles_batch,
  registers, updates_recipient, perform, step, run,
}
use frogop_pub.Pool.Solvency.{IsFresh, IsSolvent, Keeps, Keeps-refl, Covers-IsSolvent, locked}
use frogop_pub.Pool.Solvency.Closing.{cancel_option-Keeps, exercise-Keeps, settle-Keeps}
use frogop_pub.Pool.Solvency.Opening.{
  write_option-Keeps, buy_option-Keeps, transfer_option-Keeps, roll_option-Keeps,
}
use frogop_pub.Pool.Solvency.Batches.{batch_cancel-Keeps, batch_settle-Keeps}

module _ (rt : Runtime) where
  open rt use {Ledger}

  pub register_btc_pubkey-Keeps :
      (env : Env) (pubkey : List ℕ) (s s' : PoolState Ledger) (u : Bool)
      → IsFresh s
      → register_btc_pubkey rt env pubkey s ≡ ok (u, s')
      → Keeps rt env.self s s'
  unfolding register_btc_pubkey locked
  register_btc_pubkey-Keeps env pubkey s s' u fresh e =
      ground (arith, Keeps-refl rt env.self s fresh)

  pub update_fee_recipient-Keeps :
      (env : Env) (to : ℕ) (s s' : PoolState Ledger) (u : Bool)
      → IsFresh s
      → update_fee_recipient rt env to s ≡ ok (u, s')
      → Keeps rt env.self s s'
  unfolding update_fee_recipient locked
  update_fee_recipient-Keeps env to s s' u fresh e = ground (arith, Keeps-refl rt env.self s fresh)

  -- A call that returns keeps the pool's identifiers in use and does not lower its surplus.
  pub perform-Keeps :
      (env : Env) (c : Call) (s s' : PoolState Ledger) (u : Unit {0})
      → env.sender ≢ env.self
      → IsFresh s
      → perform rt env c s ≡ ok (u, s')
      → Keeps rt env.self s s'
  unfolding perform
  perform-Keeps env (writes ty strike expiry amount premium) s s' u other fresh e =
      let (id, r) = returned (write_option rt env ty strike expiry amount premium) s s' u e in
      write_option-Keeps rt env ty strike expiry amount premium s s' id other fresh r
  perform-Keeps env (cancels id) s s' u other fresh e =
      let (a, r) = returned (cancel_option rt env id) s s' u e in
      cancel_option-Keeps rt env id s s' a fresh r
  perform-Keeps env (buys id) s s' u other fresh e =
      let (a, r) = returned (buy_option rt env id) s s' u e in
      buy_option-Keeps rt env id s s' a other fresh r
  perform-Keeps env (exercises id) s s' u other fresh e =
      let (a, r) = returned (exercise rt env id) s s' u e in
      exercise-Keeps rt env id s s' a other fresh r
  perform-Keeps env (settles id) s s' u other fresh e =
      let (a, r) = returned (settle rt env id) s s' u e in settle-Keeps rt env id s s' a fresh r
  perform-Keeps env (transfers id to) s s' u other fresh e =
      let (a, r) = returned (transfer_option rt env id to) s s' u e in
      transfer_option-Keeps rt env id to s s' a fresh r
  perform-Keeps env (rolls id strike expiry premium) s s' u other fresh e =
      let (a, r) = returned (roll_option rt env id strike expiry premium) s s' u e in
      roll_option-Keeps rt env id strike expiry premium s s' a other fresh r
  perform-Keeps env (cancels_batch count ids) s s' u other fresh e =
      let (a, r) = returned (batch_cancel rt env count ids) s s' u e in
      batch_cancel-Keeps rt env count ids s s' a fresh r
  perform-Keeps env (settles_batch count ids) s s' u other fresh e =
      let (a, r) = returned (batch_settle rt env count ids) s s' u e in
      batch_settle-Keeps rt env count a ids s s' fresh r
  perform-Keeps env (registers pubkey) s s' u other fresh e =
      let (a, r) = returned (register_btc_pubkey rt env pubkey) s s' u e in
      register_btc_pubkey-Keeps env pubkey s s' a fresh r
  perform-Keeps env (updates_recipient to) s s' u other fresh e =
      let (a, r) = returned (update_fee_recipient rt env to) s s' u e in
      update_fee_recipient-Keeps env to s s' a fresh r

  pub step-Keeps :
      (env : Env) (c : Call) (s : PoolState Ledger)
      → env.sender ≢ env.self
      → IsFresh s
      → Keeps rt env.self s (step rt env c s)
  unfolding step
  step-Keeps env c s other fresh = by_result (perform rt env c s) refl
    where
      by_result :
          (r : Result (Unit {0} × PoolState Ledger))
          → perform rt env c s ≡ r
          → Keeps rt env.self s (after s r)
      by_result (ok (u, s')) e = perform-Keeps env c s s' u other fresh e
      by_result (revert x) e = Keeps-refl rt env.self s fresh

  -- The calls come from outside the pool, which is at one address.
  abbrev pub FromOutside : ℕ → List (Env × Call) → Type 0
  FromOutside self [] = Unit
  FromOutside self ((env, _) ∷ cs) = (env.self ≡ self) × (env.sender ≢ self) × FromOutside self cs

  -- Over any calls from outside the pool, in any order and whether they return or revert, a pool
  -- that holds at least the collateral of its live options, of every token, still does. No option
  -- has an identifier from the next one on, before or after.
  pub run-IsSolvent :
      (self : ℕ) (cs : List (Env × Call)) (s : PoolState Ledger)
      → FromOutside self cs
      → IsFresh s
      → IsSolvent rt self s
      → IsFresh (run rt cs s) × IsSolvent rt self (run rt cs s)
  unfolding run
  run-IsSolvent self [] s outside fresh solvent = (fresh, solvent)
  run-IsSolvent self ((env, c) ∷ cs) s outside fresh solvent =
      let at_self = outside.0 in
      let other = λ (same : env.sender ≡ env.self). outside.1 (same ∙ at_self) in
      let kept =
        subst (λ a. Keeps rt a s (step rt env c s)) at_self (step-Keeps env c s other fresh) in
      run-IsSolvent self cs (step rt env c s) outside.2 kept.fresh
        (Covers-IsSolvent rt self s (step rt env c s) kept.covers solvent)
