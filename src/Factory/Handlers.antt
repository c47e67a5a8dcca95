-- ===== src/Factory/Handlers.antt =====
-- The methods of `OptionsFactory` of src/contracts/factory/contract.ts.
use frogop_pub.Prelude.{ℕ, Bool, true, not, ◌&&◌, [], ◌∷◌, ltb, ◌==◌, if◌then◌else◌, update}
use frogop_pub.Runtime.{
  Runtime, Env, Action, pure, gets, modify, or_revert, revert_if, ◌>>=◌, ◌>>◌, zero_address,
  only_owner, treasury_zero, index_out_of_bounds, invalid_pool_address, invalid_underlying,
  invalid_premium_token, pool_already_registered, tokens_must_differ, pool_already_exists,
  pool_template_not_set, treasury_not_set, deployment_failed, zero_underlying, zero_premium_token,
}
use frogop_pub.Pool.Fees.{add}
use frogop_pub.Factory.Deployer.{Deployer, InitCalldata}
use frogop_pub.Factory.State.{FactoryState, PoolEntry}

module _ (rt : Runtime) (de : Deployer) where
  open de use {Pools, Chain, has, has_nested, get_nested, set_nested, deploy, sha256}

  abbrev pub State : Type 0
  State = FactoryState Pools Chain

  -- `origin` is `Blockchain.tx.origin`
  unfoldable pub on_deployment : (origin : ℕ) → Action State (Unit {0})
  on_deployment origin = modify λ s. record s { owner = origin }

  -- `Blockchain.tx.sender` is the owner, or the call reverts
  unfoldable pub check_owner : Env → Action State (Unit {0})
  check_owner env = do owner ← gets λ s. s.owner; revert_if (not (env.sender == owner)) only_owner

  unfoldable pub register_in_list : (pool underlying premium_token : ℕ) → Action State (Unit {0})
  register_in_list pool underlying premium_token = do
    idx ← gets λ s. s.pool_count
    modify λ s. record s {
      pool_list =
          update s.pool_list idx
            (record { pool = pool; underlying = underlying; premium_token = premium_token });
    }
    count ← add rt idx 1
    modify λ s. record s { pool_count = count }

  unfoldable pub set_pool_template : Env → ℕ → Action State Bool
  unfolding check_owner
  set_pool_template env template = do
    check_owner env
    modify λ s. record s { pool_template = template }
    pure true

  unfoldable pub set_treasury : Env → ℕ → Action State Bool
  unfolding check_owner
  set_treasury env addr = do
    check_owner env
    revert_if (addr == zero_address) treasury_zero
    modify λ s. record s { treasury = addr }
    pure true

  -- `_pools.has(underlying) && _pools.get(underlying).has(premiumToken)`
  abbrev pub is_registered : State → (underlying premium_token : ℕ) → Bool
  is_registered s underlying premium_token =
      has s.pools underlying && has_nested s.pools underlying premium_token

  unfoldable pub get_pool_by_index : ℕ → Action State PoolEntry
  get_pool_by_index index = do
    count ← gets λ s. s.pool_count
    revert_if (not (ltb index count)) index_out_of_bounds
    gets λ s. s.pool_list index

  unfoldable pub register_pool : Env → (pool underlying premium_token : ℕ) → Action State Bool
  unfolding check_owner register_in_list
  register_pool env pool underlying premium_token = do
    check_owner env
    revert_if (pool == zero_address) invalid_pool_address
    revert_if (underlying == zero_address) invalid_underlying
    revert_if (premium_token == zero_address) invalid_premium_token
    found ← gets λ s. is_registered s underlying premium_token
    revert_if found pool_already_registered
    modify λ s. record s { pools = set_nested underlying premium_token pool s.pools }
    register_in_list pool underlying premium_token
    pure true

  -- `_generateSalt`
  abbrev pub generate_salt : (underlying premium_token : ℕ) → ℕ
  generate_salt underlying premium_token = sha256 (underlying ∷ premium_token ∷ [])

  -- `Blockchain.deployContractFromExisting`
  unfoldable pub deploy_from : (template salt : ℕ) → InitCalldata → Action State ℕ
  deploy_from template salt calldata = do
    chain ← gets λ s. s.chain
    (pool, after_it) ← or_revert (deploy template salt calldata chain) deployment_failed
    modify λ s. record s { chain = after_it }
    pure pool

  unfoldable pub create_pool :
      Env → (underlying premium_token underlying_decimals premium_decimals : ℕ) → Action State ℕ
  unfolding register_in_list deploy_from
  create_pool env underlying premium_token underlying_decimals premium_decimals = do
    revert_if (underlying == zero_address) zero_underlying
    revert_if (premium_token == zero_address) zero_premium_token
    revert_if (underlying == premium_token) tokens_must_differ
    found ← gets λ s. is_registered s underlying premium_token
    revert_if found pool_already_exists
    template ← gets λ s. s.pool_template
    revert_if (template == zero_address) pool_template_not_set
    treasury_addr ← gets λ s. s.treasury
    revert_if (treasury_addr == zero_address) treasury_not_set
    pool ← deploy_from template (generate_salt underlying premium_token) record {
      underlying = underlying;
      premium_token = premium_token;
      treasury = treasury_addr;
      underlying_decimals = underlying_decimals;
      premium_decimals = premium_decimals;
    }
    modify λ s. record s { pools = set_nested underlying premium_token pool s.pools }
    register_in_list pool underlying premium_token
    modify λ s. record s {
      created =
          record { pool = pool; underlying = underlying; premium_token = premium_token }
          ∷ s.created;
    }
    pure pool

  -- `_getPoolAddress`
  abbrev pub pool_address : State → (underlying premium_token : ℕ) → ℕ
  pool_address s underlying premium_token =
      if not (has s.pools underlying)
      then zero_address
      else (if not (has_nested s.pools underlying premium_token)
          then zero_address
          else get_nested s.pools underlying premium_token)

  unfoldable pub get_pool : (underlying premium_token : ℕ) → Action State ℕ
  get_pool underlying premium_token = gets λ s. pool_address s underlying premium_token

  unfoldable pub get_owner : Action State ℕ
  get_owner = gets λ s. s.owner

  unfoldable pub get_pool_template : Action State ℕ
  get_pool_template = gets λ s. s.pool_template

  unfoldable pub get_treasury : Action State ℕ
  get_treasury = gets λ s. s.treasury

  unfoldable pub get_pool_count : Action State ℕ
  get_pool_count = gets λ s. s.pool_count
