-- ===== src/Pool/Deadlines.antt =====
-- When an option can be exercised and when it is settled: src/contracts/pool/contract.ts.
use frogop_pub.Prelude.{ℕ, ◌+◌, ◌%◌, ◌≤◌, ◌<◌, ◌≡◌, Bool, some, arith}
use frogop_pub.Runtime.{Runtime, Env, ok, u64_mod}
use frogop_pub.Pool.State.{PoolState, OptionRecord, status_purchased}
use frogop_pub.Pool.Close.{exercise, settle}
use frogop_pub.Pool.Effects.Settling.{settle-Settled}
use frogop_pub.Pool.Effects.Exercising.{exercise-Exercised}

module _ (rt : Runtime) where
  open rt use {Ledger}

  -- At one block and in one state, an option is not both exercised and settled, whoever calls.
  pub exercise-settle_exclusive :
      (env env' : Env) (id : ℕ) (s t t' : PoolState Ledger) (u u' : Bool)
      → env.block ≡ env'.block
      → exercise rt env id s ≡ ok (u, t)
      → ¬ (settle rt env' id s ≡ ok (u', t'))
  exercise-settle_exclusive env env' id s t t' u u' same e e' =
      let c = exercise-Exercised rt env id s t u e in
      let d = settle-Settled rt env' id s t' u' e' in
      ground (arith, c.found, d.found, c.in_grace, d.over)

  -- Where u64 addition does not wrap, a purchased option is exercised only by its buyer and only in the
  -- blocks from its expiry up to the end of its grace period.
  pub exercise_window :
      (env : Env) (id : ℕ) (s s' : PoolState Ledger) (u : Bool) (o : OptionRecord)
      → s.options id ≡ some o
      → o.expiry_block + s.grace_period < u64_mod
      → exercise rt env id s ≡ ok (u, s')
      → (o.expiry_block ≤ env.block)
        × (env.block < o.expiry_block + s.grace_period)
        × (env.sender ≡ o.buyer)
        × (o.status ≡ status_purchased)
  exercise_window env id s s' u o found small e =
      let c = exercise-Exercised rt env id s s' u e in
      let it : c.option ≡ o = ground (arith, c.found, found) in
      (
        rw it at c.expired,
        (let end : env.block < (o.expiry_block + s.grace_period) % u64_mod = rw it at c.in_grace in
            omega arith),
        rw it at c.by_buyer,
        rw it at c.purchased,
      )
