-- ===== src/QuotePool/Histories.antt =====
-- A type 1 pool (src/contracts/pool/btc-quote.ts) over every history of calls.
use frogop_pub.Prelude.{ℕ, false, ◌≡◌, ◌≢◌, List, [], ◌∷◌, refl, subst, ◌∙◌, sym}
use frogop_pub.Runtime.{Runtime, Env, Result, ok, revert, after, returned}
use frogop_pub.Bridge.Bitcoin.{Output}
use frogop_pub.QuotePool.State.{BridgeCalls}
use frogop_pub.QuotePool.Handlers.{
  write_option, cancel_option, settle, reserve_option, execute_reservation, cancel_reservation,
  exercise, register_btc_pubkey, update_fee_recipient,
}
use frogop_pub.QuotePool.Step.{
  Call, writes, cancels, settles, exercises, reserves, executes_reservation, cancels_reservation,
  registers, updates_recipient, perform, step, run,
}
use frogop_pub.QuotePool.Safety.{Quote, IsSafe}
use frogop_pub.QuotePool.Preservation.{
  write_option-IsSafe, cancel_option-IsSafe, settle-IsSafe, register_btc_pubkey-IsSafe,
  update_fee_recipient-IsSafe,
}
use frogop_pub.QuotePool.Reservations.{
  reserve_option-IsSafe, execute_reservation-IsSafe, cancel_reservation-IsSafe, exercise-IsSafe,
}

module _ (rt : Runtime) (br : BridgeCalls) where
  perform-IsSafe :
      (env : Env) (outputs : List Output) (c : Call) (s s' : Quote rt br) (u : Unit {0})
      → env.sender ≢ env.self
      → IsSafe rt br env.self s
      → perform rt br false env outputs c s ≡ ok (u, s')
      → IsSafe rt br env.self s'
  unfolding perform
  perform-IsSafe env outputs (writes ty strike expiry amount premium) s s' u other h e =
      let (a, r) =
        returned (write_option rt br false env ty strike expiry amount premium) s s' u e in
      write_option-IsSafe rt br env ty strike expiry amount premium s s' a other h r
  perform-IsSafe env outputs (cancels id) s s' u other h e =
      let (a, r) = returned (cancel_option rt br false env id) s s' u e in
      cancel_option-IsSafe rt br env id s s' a h r
  perform-IsSafe env outputs (settles id) s s' u other h e =
      let (a, r) = returned (settle rt br false env id) s s' u e in
      settle-IsSafe rt br env id s s' a h r
  perform-IsSafe env outputs (exercises id) s s' u other h e =
      let (a, r) = returned (exercise rt br false env outputs id) s s' u e in
      exercise-IsSafe rt br env outputs id s s' a other h r
  perform-IsSafe env outputs (reserves id) s s' u other h e =
      let (a, r) = returned (reserve_option rt br false env id) s s' u e in
      reserve_option-IsSafe rt br env id s s' a h r
  perform-IsSafe env outputs (executes_reservation id) s s' u other h e =
      let (a, r) = returned (execute_reservation rt br false env outputs id) s s' u e in
      execute_reservation-IsSafe rt br env outputs id s s' a h r
  perform-IsSafe env outputs (cancels_reservation id) s s' u other h e =
      let (a, r) = returned (cancel_reservation rt br false env id) s s' u e in
      cancel_reservation-IsSafe rt br env id s s' a h r
  perform-IsSafe env outputs (registers key) s s' u other h e =
      let (a, r) = returned (register_btc_pubkey rt br false env key) s s' u e in
      register_btc_pubkey-IsSafe rt br env key s s' a h r
  perform-IsSafe env outputs (updates_recipient to) s s' u other h e =
      let (a, r) = returned (update_fee_recipient rt br false env to) s s' u e in
      update_fee_recipient-IsSafe rt br env to s s' a h r

  step-IsSafe :
      (env : Env) (outputs : List Output) (c : Call) (s : Quote rt br)
      → env.sender ≢ env.self
      → IsSafe rt br env.self s
      → IsSafe rt br env.self (step rt br false env outputs c s)
  unfolding step
  step-IsSafe env outputs c s other h = by_result (perform rt br false env outputs c s) refl
    where
      by_result :
          (r : Result (Unit {0} × Quote rt br))
          → perform rt br false env outputs c s ≡ r
          → IsSafe rt br env.self (after s r)
      by_result (ok (u, s')) e = perform-IsSafe env outputs c s s' u other h e
      by_result (revert x) e = h

  -- The calls come from outside the pool, which is at one address.
  abbrev pub FromOutside : ℕ → List (Env × List Output × Call) → Type 0
  FromOutside self [] = Unit
  FromOutside self ((env, _, _) ∷ cs) =
      (env.self ≡ self) × (env.sender ≢ self) × FromOutside self cs

  -- Where a zeroed slot of storage does not count as present, any calls from outside the pool, in
  -- any order and whether they return or revert, keep a pool safe: it holds at least the collateral
  -- of its live options, reserved ones included; the option of a pending reservation is reserved; no
  -- option has two pending reservations; and no identifier from the next one on is taken.
  pub run-IsSafe :
      (self : ℕ) (cs : List (Env × List Output × Call)) (s : Quote rt br)
      → FromOutside self cs
      → IsSafe rt br self s
      → IsSafe rt br self (run rt br false cs s)
  unfolding run
  run-IsSafe self [] s outside h = h
  run-IsSafe self ((env, outputs, c) ∷ cs) s outside h =
      let at_self = outside.0 in
      let other = λ (same : env.sender ≡ env.self). outside.1 (same ∙ at_self) in
      let h' = subst (λ a. IsSafe rt br a s) (sym at_self) h in
      run-IsSafe self cs (step rt br false env outputs c s) outside.2 (
        subst (λ a. IsSafe rt br a (step rt br false env outputs c s)) at_self
          (step-IsSafe env outputs c s other h'))
