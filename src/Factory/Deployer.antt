-- ===== src/Factory/Deployer.antt =====
-- What src/contracts/factory/contract.ts calls outside the repository: the nested map MapOfMap,
-- sha256 and the deployment of a contract from a template.
use frogop_pub.Prelude.{ℕ, ◌≡◌, Bool, true, ◌&&◌, ◌||◌, Option, List, ◌==◌, if◌then◌else◌}

-- The calldata of a deployment, in the order in which it is written.
pub record InitCalldata : Type 0 where
  pub underlying : ℕ
  pub premium_token : ℕ
  pub treasury : ℕ
  pub underlying_decimals : ℕ
  pub premium_decimals : ℕ

-- `has m u` is `_pools.has(u)`, `has_nested m u p` and `get_nested m u p` are `_pools.get(u).has(p)`
-- and `.get(p)`, and `set_nested` is `_pools.get(u).set(p, pool)`. A deployment fails (`none`) for
-- any reason of the chain's. `sha256` is of the bytes of a list of addresses.
pub record Deployer : Type 1 where
  pub Pools : Type 0
  pub has : Pools → ℕ → Bool
  pub has_nested : Pools → ℕ → ℕ → Bool
  pub get_nested : Pools → ℕ → ℕ → ℕ
  pub set_nested : ℕ → ℕ → ℕ → Pools → Pools
  -- A key of an inner map is under a key of the outer one.
  pub has_outer : (m : Pools) (u p : ℕ) → has_nested m u p ≡ true → has m u ≡ true
  pub has_set : (u p a u' : ℕ) (m : Pools) → has (set_nested u p a m) u' ≡ ((u == u') || has m u')
  pub has_nested_set :
      (u p a u' p' : ℕ) (m : Pools)
      → has_nested (set_nested u p a m) u' p' ≡ (((u == u') && (p == p')) || has_nested m u' p')
  pub get_nested_set :
      (u p a u' p' : ℕ) (m : Pools)
      → get_nested (set_nested u p a m) u' p'
        ≡ (if (u == u') && (p == p') then a else get_nested m u' p')
  pub Chain : Type 0
  pub deploy : (template salt : ℕ) → InitCalldata → Chain → Option (ℕ × Chain)
  pub sha256 : List ℕ → ℕ
