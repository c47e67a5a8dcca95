-- ===== src/Pool/Deployment.antt =====
-- onDeployment of src/contracts/pool/base.ts, and the pool that it leaves.
use frogop_pub.Prelude.{ℕ, ◌≤◌, ◌≡◌, ◌≢◌, none, arith, sum_below}
use frogop_pub.Runtime.{Runtime, ok, zero_address}
use frogop_pub.Pool.State.{PoolState, min_grace_period_blocks, max_grace_period_blocks}
use frogop_pub.Pool.Base.{on_deployment}
use frogop_pub.Pool.Solvency.{IsFresh, IsSolvent, locked}

module _ (rt : Runtime) where
  open rt use {Ledger}

  -- A deployment that returns on empty storage has a fee recipient other than the zero address and a
  -- grace period of 6 to 4320 blocks, takes the tokens that it was given, and leaves a pool in which
  -- no option has an identifier yet and which holds all that it owes.
  pub on_deployment-IsSolvent :
      (self underlying premium_token fee_recipient grace_period : ℕ)
      → (s s' : PoolState Ledger) (u : Unit {0}) → s.next_id ≡ 0
      → ((id : ℕ) → s.options id ≡ none)
      → on_deployment rt underlying premium_token fee_recipient grace_period s ≡ ok (u, s')
      → (s'.fee_recipient ≢ zero_address)
        × (min_grace_period_blocks ≤ s'.grace_period)
        × (s'.grace_period ≤ max_grace_period_blocks)
        × (s'.underlying ≡ underlying)
        × (s'.premium_token ≡ premium_token)
        × IsFresh s'
        × IsSolvent rt self s'
  unfolding on_deployment locked sum_below
  on_deployment-IsSolvent self un pr fr gp s s' u first none_there e = (
    ground arith,
    ground arith,
    ground arith,
    ground arith,
    ground arith,
    λ i le. ground (arith, none_there i),
    λ t. (let empty : s'.next_id ≡ 0 = ground (arith, first) in rw empty (omega arith)),
  )
