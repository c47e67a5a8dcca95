-- ===== src/Pool/Solvency/Settling.antt =====
-- Whether settle of src/contracts/pool/contract.ts goes through, in a pool after any history of calls.
use frogop_pub.Prelude.{
  ℕ, ◌+◌, ◌%◌, ◌≤◌, ◌≡◌, ◌↔◌, ◌==◌, if◌then◌else◌, true, some, List, sum_below_change, arith,
}
use frogop_pub.Runtime.{Runtime, Env, ok, u64_mod}
use frogop_pub.Pool.State.{PoolState, OptionRecord, status_purchased, status_expired}
use frogop_pub.Pool.Close.{settle}
use frogop_pub.Pool.Amounts.{owed, token_for, collateral_fits, collateral_amount_lem}
use frogop_pub.Pool.Effects.Settling.{settle-Settled, settle_paid}
use frogop_pub.Pool.Batch.Items.{settled_state}
use frogop_pub.Pool.Step.{Call, run}
use frogop_pub.Pool.Solvency.{IsFresh, IsSolvent, locked, lock_in, find-lt}
use frogop_pub.Pool.Solvency.Histories.{FromOutside, run-IsSolvent}

-- What is locked for one live option is a part of what is owed in its token.
owed-le-locked :
    {L : Type 0} (id : ℕ) (s : PoolState L) (o : OptionRecord)
    → IsFresh s
    → s.options id ≡ some o
    → o.status ≡ status_purchased
    → owed o ≤ locked s (token_for s o)
unfolding locked
owed-le-locked id s o fresh found live =
    let f = λ (i : ℕ). lock_in s.underlying s.premium_token (token_for s o) (s.options i) in
    let without =
      sum_below_change s.next_id id f (λ i. if i == id then 0 else f i) (find-lt id s o fresh found)
        (λ i ne. ground (arith, ne)) in
    let mine : f id ≡ owed o = ground (arith, found, live) in
    let gone : (if id == id then 0 else f id) ≡ 0 = ground arith in
    omega (arith, without, mine, gone)

module _ (rt : Runtime) where
  open rt use {Ledger, balance, transfer_from}

  -- The tokens carry out every transfer of their caller's own holdings, for which they need no
  -- allowance.
  abbrev pub PaysOut : ℕ → Type 0
  PaysOut self =
      (token to amount : ℕ) (l : Ledger)
      → amount ≤ balance l token self
      → (l' : Ledger) × (transfer_from self token self to amount l ≡ some l')

  settle_paid_lem :
      (env : Env) (id : ℕ) (s : PoolState Ledger) (o : OptionRecord)
      → IsFresh s
      → IsSolvent rt env.self s
      → PaysOut env.self
      → s.options id ≡ some o
      → o.status ≡ status_purchased
      → (l : Ledger) × (settle_paid rt env s o ≡ some l)
  settle_paid_lem env id s o fresh solvent pays found live =
      pays (token_for s o) o.writer (owed o) s.ledger (
        let enough = owed-le-locked id s o fresh found live in
        omega (arith, enough, solvent (token_for s o)))

  -- A settlement, of an option whose collateral can be computed in a solvent pool, goes through exactly
  -- where the option is purchased and its grace period is over.
  settle_exactly :
      (env : Env) (id : ℕ) (s : PoolState Ledger) (o : OptionRecord)
      → IsFresh s
      → IsSolvent rt env.self s
      → PaysOut env.self
      → s.options id ≡ some o
      → collateral_fits o.option_type o.strike_price o.underlying_amount ≡ true
      → (((o.status ≡ status_purchased) × ((o.expiry_block + s.grace_period) % u64_mod ≤ env.block))
          ↔ ((s' : PoolState Ledger) × (settle rt env id s ≡ ok (true, s'))
              × (s'.options id ≡ some (record o { status = status_expired }))))
  unfolding settle
  settle_exactly env id s o fresh solvent pays found fits = (
    λ (live, over).
        let (l, paid) = settle_paid_lem env id s o fresh solvent pays found live in
        let amount = collateral_amount_lem rt o.option_type o.strike_price o.underlying_amount s in
        (settled_state rt id s o l, ground (arith, amount, paid), ground arith),
    λ (s', e, _).
        let c = settle-Settled rt env id s s' true e in
        let it : c.option ≡ o = ground (arith, c.found, found) in
        (rw it at c.purchased, rw it at c.over),
  )

  -- After any calls from outside a pool that held the collateral of its live options, of every token,
  -- and had no option from the next identifier on, anyone can settle an option exactly where it is
  -- purchased and its grace period is over: then the call returns and leaves the option expired, and
  -- in no other case. The collateral of the option is one that can be computed, and
  -- the tokens carry out every transfer of what the pool itself holds.
  pub settle_after-run :
      (cs : List (Env × Call)) (start : PoolState Ledger) (env : Env) (id : ℕ) (o : OptionRecord)
      → FromOutside rt env.self cs
      → IsFresh start
      → IsSolvent rt env.self start
      → PaysOut env.self
      → let s = run rt cs start in
        s.options id ≡ some o
        → collateral_fits o.option_type o.strike_price o.underlying_amount ≡ true
        → (((o.status ≡ status_purchased)
              × ((o.expiry_block + s.grace_period) % u64_mod ≤ env.block))
            ↔ ((s' : PoolState Ledger) × (settle rt env id s ≡ ok (true, s'))
                × (s'.options id ≡ some (record o { status = status_expired }))))
  settle_after-run cs start env id o outside fresh solvent pays found fits =
      let (still_fresh, still_solvent) = run-IsSolvent rt env.self cs start outside fresh solvent in
      settle_exactly env id (run rt cs start) o still_fresh still_solvent pays found fits
