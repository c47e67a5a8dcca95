-- ===== src/BtcPool/Histories.antt =====
-- The security of a type 2 pool over histories of calls.
use frogop_pub.Prelude.{ℕ, ◌≡◌, ◌≢◌, refl, sym, subst, ◌∙◌, List, [], ◌∷◌}
use frogop_pub.Runtime.{Runtime, Env, Result, ok, revert, after, returned}
use frogop_pub.Bridge.Bitcoin.{Output}
use frogop_pub.QuotePool.State.{BridgeCalls}
use frogop_pub.BtcPool.Handlers.{
  write_option_btc, buy_option, exercise, cancel_option, settle, register_btc_pubkey,
  update_fee_recipient,
}
use frogop_pub.BtcPool.Security.{Pool, IsSecured}
use frogop_pub.BtcPool.Step.{
  Call, writes_btc, buys, exercises, cancels, settles, registers, updates_recipient, perform, step,
  run,
}
use frogop_pub.BtcPool.Preservation.{
  write_option_btc-IsSecured, buy_option-IsSecured, exercise-IsSecured, cancel_option-IsSecured,
  settle-IsSecured, register_btc_pubkey-IsSecured, update_fee_recipient-IsSecured,
}

module _ (rt : Runtime) (br : BridgeCalls) where
  perform-IsSecured :
      (env : Env) (outputs : List Output) (c : Call) (s s' : Pool rt br) (u : Unit {0})
      → env.sender ≢ env.self
      → IsSecured rt br env.self s
      → perform rt br env outputs c s ≡ ok (u, s')
      → IsSecured rt br env.self s'
  unfolding perform
  perform-IsSecured env outputs (writes_btc ty strike expiry amount premium) s s' u other h e =
      let (a, r) =
        returned (write_option_btc rt br env outputs ty strike expiry amount premium) s s' u e in
      write_option_btc-IsSecured rt br env outputs ty strike expiry amount premium a s s' other h r
  perform-IsSecured env outputs (buys id) s s' u other h e =
      let (a, r) = returned (buy_option rt br env id) s s' u e in
      buy_option-IsSecured rt br env id s s' a other h r
  perform-IsSecured env outputs (exercises id) s s' u other h e =
      let (a, r) = returned (exercise rt br env outputs id) s s' u e in
      exercise-IsSecured rt br env outputs id s s' a other h r
  perform-IsSecured env outputs (cancels id) s s' u other h e =
      let (a, r) = returned (cancel_option rt br env id) s s' u e in
      cancel_option-IsSecured rt br env id s s' a h r
  perform-IsSecured env outputs (settles id) s s' u other h e =
      let (a, r) = returned (settle rt br env id) s s' u e in
      settle-IsSecured rt br env id s s' a h r
  perform-IsSecured env outputs (registers key) s s' u other h e =
      let (a, r) = returned (register_btc_pubkey rt br env key) s s' u e in
      register_btc_pubkey-IsSecured rt br env key s s' a h r
  perform-IsSecured env outputs (updates_recipient to) s s' u other h e =
      let (a, r) = returned (update_fee_recipient rt br env to) s s' u e in
      update_fee_recipient-IsSecured rt br env to s s' a h r

  step-IsSecured :
      (env : Env) (outputs : List Output) (c : Call) (s : Pool rt br)
      → env.sender ≢ env.self
      → IsSecured rt br env.self s
      → IsSecured rt br env.self (step rt br env outputs c s)
  unfolding step
  step-IsSecured env outputs c s other h = by_result (perform rt br env outputs c s) refl
    where
      by_result :
          (r : Result (Unit {0} × Pool rt br))
          → perform rt br env outputs c s ≡ r
          → IsSecured rt br env.self (after s r)
      by_result (ok (u, s')) e = perform-IsSecured env outputs c s s' u other h e
      by_result (revert x) e = h

  -- The calls come from outside the pool, which is at one address.
  abbrev pub FromOutside : ℕ → List (Env × List Output × Call) → Type 0
  FromOutside self [] = Unit
  FromOutside self ((env, _, _) ∷ cs) =
      (env.self ≡ self) × (env.sender ≢ self) × FromOutside self cs

  -- Any calls from outside the pool, in any order and whether they return or revert, keep a pool
  -- secured: it holds at least the strike value of its live puts in the premium token; every call
  -- that was written has an entry among the outputs that the bridge has used up, for its escrow and
  -- of at least its amount, a different entry for each call; and no identifier from the next one on
  -- is taken.
  pub run-IsSecured :
      (self : ℕ) (cs : List (Env × List Output × Call)) (s : Pool rt br)
      → FromOutside self cs
      → IsSecured rt br self s
      → IsSecured rt br self (run rt br cs s)
  unfolding run
  run-IsSecured self [] s outside h = h
  run-IsSecured self ((env, outputs, c) ∷ cs) s outside h =
      let at_self = outside.0 in
      let other = λ (same : env.sender ≡ env.self). outside.1 (same ∙ at_self) in
      let h' = subst (λ a. IsSecured rt br a s) (sym at_self) h in
      run-IsSecured self cs (step rt br env outputs c s) outside.2 (
        subst (λ a. IsSecured rt br a (step rt br env outputs c s)) at_self
          (step-IsSecured env outputs c s other h'))
