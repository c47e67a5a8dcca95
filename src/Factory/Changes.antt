-- ===== src/Factory/Changes.antt =====
-- Calls of the factory as data, histories of calls, and what a call does to the registry of
-- src/contracts/factory/contract.ts: nothing, or it adds one pair of tokens that was not there.
use frogop_pub.Prelude.{ℕ, ◌+◌, ◌≡◌, refl, Bool, false, List, [], ◌∷◌, update, arith}
use frogop_pub.Runtime.{Runtime, Env, Action, Result, ok, revert, after, pure, ◌>>=◌, returned}
use frogop_pub.Pool.Fees.{add}
use frogop_pub.Factory.Deployer.{Deployer}
use frogop_pub.Factory.State.{PoolEntry}
use frogop_pub.Factory.Handlers.{
  State, check_owner, set_pool_template, set_treasury, register_pool, register_in_list, create_pool,
  is_registered, deploy_from,
}

-- A state-changing call, with its calldata.
pub data Call : Type 0 where
  sets_template sets_treasury : ℕ → Call
  registers : (pool underlying premium_token : ℕ) → Call
  creates : (underlying premium_token underlying_decimals premium_decimals : ℕ) → Call

module _ (rt : Runtime) (de : Deployer) where
  open de use {set_nested}

  unfoldable pub perform : Env → Call → Action (State rt de) (Unit {0})
  perform env (sets_template a) = set_pool_template rt de env a >>= λ _. pure tt
  perform env (sets_treasury a) = set_treasury rt de env a >>= λ _. pure tt
  perform env (registers a u p) = register_pool rt de env a u p >>= λ _. pure tt
  perform env (creates u p du dp) = create_pool rt de env u p du dp >>= λ _. pure tt

  unfoldable pub step : Env → Call → State rt de → State rt de
  step env c s = after s (perform env c s)

  unfoldable pub run : List (Env × Call) → State rt de → State rt de
  run [] s = s
  run ((env, c) ∷ cs) s = run cs (step env c s)

  -- The pair was not in the registry, and now is, at the end of the list.
  pub record Adds (s s' : State rt de) (entry : PoolEntry) : Type 0 where
    pub absent : is_registered rt de s entry.underlying entry.premium_token ≡ false
    pub pools : s'.pools ≡ set_nested entry.underlying entry.premium_token entry.pool s.pools
    pub pool_list : s'.pool_list ≡ update s.pool_list s.pool_count entry
    pub pool_count : s'.pool_count ≡ s.pool_count + 1

  pub data Change (s s' : State rt de) : Type 0 where
    same :
        s'.pools ≡ s.pools → s'.pool_list ≡ s.pool_list → s'.pool_count ≡ s.pool_count → Change s s'
    adds : (entry : PoolEntry) → Adds s s' entry → Change s s'

  set_pool_template-Change :
      (env : Env) (a : ℕ) (s s' : State rt de) (u : Bool)
      → set_pool_template rt de env a s ≡ ok (u, s')
      → Change s s'
  unfolding set_pool_template check_owner
  set_pool_template-Change env a s s' u e = same (ground arith) (ground arith) (ground arith)

  set_treasury-Change :
      (env : Env) (a : ℕ) (s s' : State rt de) (u : Bool)
      → set_treasury rt de env a s ≡ ok (u, s')
      → Change s s'
  unfolding set_treasury check_owner
  set_treasury-Change env a s s' u e = same (ground arith) (ground arith) (ground arith)

  pub register_pool-Adds :
      (env : Env) (a u p : ℕ) (s s' : State rt de) (b : Bool)
      → register_pool rt de env a u p s ≡ ok (b, s')
      → Adds s s' (record { pool = a; underlying = u; premium_token = p })
  unfolding register_pool check_owner register_in_list add
  register_pool-Adds env a u p s s' b e = record {
    absent = ground arith;
    pools = ground (arith, rt.safe_add_exact s.pool_count 1);
    pool_list = ground (arith, rt.safe_add_exact s.pool_count 1);
    pool_count = ground (arith, rt.safe_add_exact s.pool_count 1);
  }

  pub create_pool-Adds :
      (env : Env) (u p du dp a : ℕ) (s s' : State rt de)
      → create_pool rt de env u p du dp s ≡ ok (a, s')
      → Adds s s' (record { pool = a; underlying = u; premium_token = p })
  unfolding create_pool register_in_list deploy_from add
  create_pool-Adds env u p du dp a s s' e = record {
    absent = ground arith;
    pools = ground (arith, rt.safe_add_exact s.pool_count 1);
    pool_list = ground (arith, rt.safe_add_exact s.pool_count 1);
    pool_count = ground (arith, rt.safe_add_exact s.pool_count 1);
  }

  perform-Change :
      (env : Env) (c : Call) (s s' : State rt de) (u : Unit {0})
      → perform env c s ≡ ok (u, s')
      → Change s s'
  unfolding perform
  perform-Change env (sets_template a) s s' u e =
      let (b, r) = returned (set_pool_template rt de env a) s s' u e in
      set_pool_template-Change env a s s' b r
  perform-Change env (sets_treasury a) s s' u e =
      let (b, r) = returned (set_treasury rt de env a) s s' u e in
      set_treasury-Change env a s s' b r
  perform-Change env (registers a v p) s s' u e =
      let (b, r) = returned (register_pool rt de env a v p) s s' u e in
      adds _ (register_pool-Adds env a v p s s' b r)
  perform-Change env (creates v p du dp) s s' u e =
      let (a, r) = returned (create_pool rt de env v p du dp) s s' u e in
      adds _ (create_pool-Adds env v p du dp a s s' r)

  -- Every call, whether it returns or reverts, leaves the registry alone or adds one pair.
  pub step-Change : (env : Env) (c : Call) (s : State rt de) → Change s (step env c s)
  unfolding step
  step-Change env c s = by_result (perform env c s) refl
    where
      by_result : (r : Result (Unit {0} × State rt de)) → perform env c s ≡ r → Change s (after s r)
      by_result (ok (u, s')) e = perform-Change env c s s' u e
      by_result (revert x) e = same refl refl refl
