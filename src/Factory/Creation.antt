-- ===== src/Factory/Creation.antt =====
-- What createPool and the owner's methods of src/contracts/factory/contract.ts promise.
use frogop_pub.Prelude.{ℕ, ◌≡◌, ◌≢◌, refl, Bool, false, arith, ap, ◌∙◌, sym, subst, List, [], ◌∷◌}
use frogop_pub.Runtime.{Runtime, Env, Result, ok, revert, after, zero_address, returned}
use frogop_pub.Factory.Deployer.{Deployer}
use frogop_pub.Factory.State.{PoolEntry}
use frogop_pub.Factory.Handlers.{
  State, create_pool, get_pool, get_pool_by_index, set_pool_template, set_treasury, register_pool,
  check_owner, register_in_list, deploy_from, is_registered,
}
use frogop_pub.Factory.Changes.{
  Call, perform, step, run, sets_template, sets_treasury, registers, creates, create_pool-Adds,
}
use frogop_pub.Pool.Fees.{add}
use frogop_pub.Factory.Registry.{find-set_nested}

module _ (rt : Runtime) (de : Deployer) where
  -- A creation that returns was asked for two different tokens, neither the zero address, without a
  -- pool; the address that it returns is what `getPool` then returns for the pair; and
  -- `getPoolByIndex` at the old count returns the pool with its tokens.
  pub create_pool-get_pool :
      (env : Env) (u p du dp a : ℕ) (s s' : State rt de)
      → create_pool rt de env u p du dp s ≡ ok (a, s')
      → (u ≢ zero_address)
        × (p ≢ zero_address)
        × (u ≢ p)
        × (is_registered rt de s u p ≡ false)
        × (get_pool rt de u p s' ≡ ok (a, s'))
        × (get_pool_by_index rt de s.pool_count s'
            ≡ ok (record { pool = a; underlying = u; premium_token = p }, s'))
  unfolding create_pool get_pool get_pool_by_index
  create_pool-get_pool env u p du dp a s s' e =
      let d = create_pool-Adds rt de env u p du dp a s s' e in
      let new = ap (λ (f : ℕ → PoolEntry). f s.pool_count) d.pool_list in
      (
        ground (arith, e),
        ground (arith, e),
        ground (arith, e),
        d.absent,
        ground (arith, d.pools, find-set_nested rt de u p a u p s.pools),
        ground (arith, d.pool_count, new),
      )

  -- Calls of which none is from `owner`.
  unfoldable pub WithoutOwner : ℕ → List (Env × Call) → Type 0
  WithoutOwner owner [] = Unit
  WithoutOwner owner ((env, _) ∷ cs) = (env.sender ≢ owner) × WithoutOwner owner cs

  -- Owner, template and treasury are as they were.
  abbrev pub SameSettings : State rt de → State rt de → Type 0
  SameSettings s s' =
      (s'.owner ≡ s.owner) × (s'.pool_template ≡ s.pool_template) × (s'.treasury ≡ s.treasury)

  -- Only the owner's calls of these return.
  set_pool_template-sender :
      (env : Env) (a : ℕ) (s s' : State rt de) (b : Bool)
      → set_pool_template rt de env a s ≡ ok (b, s')
      → env.sender ≡ s.owner
  unfolding set_pool_template check_owner
  set_pool_template-sender env a s s' b e = ground arith

  set_treasury-sender :
      (env : Env) (a : ℕ) (s s' : State rt de) (b : Bool)
      → set_treasury rt de env a s ≡ ok (b, s')
      → env.sender ≡ s.owner
  unfolding set_treasury check_owner
  set_treasury-sender env a s s' b e = ground arith

  register_pool-sender :
      (env : Env) (a u p : ℕ) (s s' : State rt de) (b : Bool)
      → register_pool rt de env a u p s ≡ ok (b, s')
      → env.sender ≡ s.owner
  unfolding register_pool check_owner
  register_pool-sender env a u p s s' b e = ground arith

  create_pool-SameSettings :
      (env : Env) (u p du dp a : ℕ) (s s' : State rt de)
      → create_pool rt de env u p du dp s ≡ ok (a, s')
      → SameSettings s s'
  unfolding create_pool register_in_list deploy_from add
  create_pool-SameSettings env u p du dp a s s' e = (
    ground (arith, rt.safe_add_exact s.pool_count 1),
    ground (arith, rt.safe_add_exact s.pool_count 1),
    ground (arith, rt.safe_add_exact s.pool_count 1),
  )

  perform-SameSettings :
      (env : Env) (c : Call) (s s' : State rt de) (v : Unit {0})
      → env.sender ≢ s.owner
      → perform rt de env c s ≡ ok (v, s')
      → SameSettings s s'
  unfolding perform
  perform-SameSettings env (sets_template a) s s' v other e =
      let (b, r) = returned (set_pool_template rt de env a) s s' v e in
      absurd (other (set_pool_template-sender env a s s' b r))
  perform-SameSettings env (sets_treasury a) s s' v other e =
      let (b, r) = returned (set_treasury rt de env a) s s' v e in
      absurd (other (set_treasury-sender env a s s' b r))
  perform-SameSettings env (registers a u p) s s' v other e =
      let (b, r) = returned (register_pool rt de env a u p) s s' v e in
      absurd (other (register_pool-sender env a u p s s' b r))
  perform-SameSettings env (creates u p du dp) s s' v other e =
      let (a, r) = returned (create_pool rt de env u p du dp) s s' v e in
      create_pool-SameSettings env u p du dp a s s' r

  step-SameSettings :
      (env : Env) (c : Call) (s : State rt de)
      → env.sender ≢ s.owner
      → SameSettings s (step rt de env c s)
  unfolding step
  step-SameSettings env c s other = by_result (perform rt de env c s) refl
    where
      by_result :
          (r : Result (Unit {0} × State rt de))
          → perform rt de env c s ≡ r
          → SameSettings s (after s r)
      by_result (ok (v, s')) e = perform-SameSettings env c s s' v other e
      by_result (revert x) e = (refl, refl, refl)

  -- Over any calls of which none is from the owner, the owner, the template and the treasury stay
  -- as they are.
  pub run-SameSettings :
      (cs : List (Env × Call)) (s : State rt de)
      → WithoutOwner s.owner cs
      → SameSettings s (run rt de cs s)
  unfolding run WithoutOwner
  run-SameSettings [] s others = (refl, refl, refl)
  run-SameSettings ((env, c) ∷ cs) s others =
      let (o, m, t) = step-SameSettings env c s others.0 in
      let (o', m', t') =
        run-SameSettings cs (step rt de env c s)
          (subst (λ a. WithoutOwner a cs) (sym o) others.1) in
      (o' ∙ o, m' ∙ m, t' ∙ t)
