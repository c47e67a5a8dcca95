-- ===== src/Router/Legs.antt =====
-- The legs of src/contracts/router/contract.ts as calls of a type 0 pool.
use frogop_pub.Prelude.{
  ℕ, ◌≡◌, ◌≢◌, refl, sym, Bool, Option, none, some, [], ◌∷◌, inl, inr, ◌==◌, if◌then◌else◌, arith,
}
use frogop_pub.Runtime.{
  Runtime, Env, Result, Result-cases, ok, revert, zero_address, invalid_pool_address,
  invalid_buy_option_id, write_leg_failed, buy_leg_failed,
}
use frogop_pub.Pool.State.{PoolState, OptionRecord, status_purchased}
use frogop_pub.Pool.Effects.Writing.{write_option-Written, new_option}
use frogop_pub.Pool.Effects.Buying.{buy_option-Bought}
use frogop_pub.Pool.Write.{write_option}
use frogop_pub.Pool.Trade.{buy_option}
use frogop_pub.Pool.Step.{Call, writes, buys, perform, step, run}
use frogop_pub.Pool.Solvency.{IsFresh, IsSolvent}
use frogop_pub.Pool.Solvency.Histories.{run-IsSolvent, FromOutside}
use frogop_pub.Router.Contract.{PoolCalls, Leg, execute_spread, execute_dual_write}

abbrev pub answer : {A : Type 0} → Result A → Option A
answer (ok a) = some a
answer (revert e) = none

module _ (rt : Runtime) (seen : (wallet caller : ℕ) → ℕ) (self : ℕ) where
  open rt use {Ledger}

  -- The pool, when a contract that runs in `frame` calls it. `seen` is what the chain shows it as
  -- `Blockchain.tx.sender`: the wallet that called the contract, or the contract that calls.
  abbrev pub in_pool : Env → Env
  in_pool frame = record { sender = seen frame.sender frame.self; block = frame.block; self = self }

  -- One type 0 pool, at `self`; there is no contract at another address.
  abbrev pub one_pool : PoolCalls
  one_pool = record {
    World = PoolState Ledger;
    call_write = λ frame pool ty strike expiry amount premium s.
        if pool == self
        then answer (write_option rt (in_pool frame) ty strike expiry amount premium s)
        else none;
    call_buy = λ frame pool id s.
        if pool == self then answer (buy_option rt (in_pool frame) id s) else none;
  }

module _ (rt : Runtime) (seen : (wallet caller : ℕ) → ℕ) (self : ℕ) (frame : Env) where
  open rt use {Ledger}

  abbrev env : Env
  env = in_pool rt seen self frame

  abbrev pub write_of : Leg → Env × Call
  write_of leg = (
    env,
    writes leg.option_type leg.strike_price leg.expiry_block leg.underlying_amount leg.premium,
  )

  abbrev written_by : Leg → PoolState Ledger → Result (ℕ × PoolState Ledger)
  written_by leg =
      write_option rt env leg.option_type leg.strike_price leg.expiry_block leg.underlying_amount
        leg.premium

  step_write :
      (leg : Leg) (s s' : PoolState Ledger) (id : ℕ)
      → written_by leg s ≡ ok (id, s')
      → step rt env (write_of leg).1 s ≡ s'
  unfolding step perform
  step_write leg s s' id e = ground (arith, e)

  step_buy :
      (option_id : ℕ) (s s' : PoolState Ledger) (u : Bool)
      → buy_option rt env option_id s ≡ ok (u, s')
      → step rt env (buys option_id) s ≡ s'
  unfolding step perform
  step_buy option_id s s' u e = ground (arith, e)

  -- The option that was written keeps its writer while the other is bought.
  writer_kept :
      (option_id id : ℕ) (leg : Leg) (s t r : PoolState Ledger) (u : Bool)
      → written_by leg s ≡ ok (id, t)
      → buy_option rt env option_id t ≡ ok (u, r)
      → (o : OptionRecord) × (r.options id ≡ some o) × (o.writer ≡ env.sender)
  writer_kept option_id id leg s t r u written bought =
      let (is_id, w) =
        write_option-Written rt env leg.option_type leg.strike_price leg.expiry_block
          leg.underlying_amount leg.premium s t id written in
      let b = buy_option-Bought rt env option_id t r u bought in
      let new =
        new_option env s.next_id leg.option_type leg.strike_price leg.expiry_block
          leg.underlying_amount leg.premium in
      let there : t.options id ≡ some new = ground (arith, w.left, is_id) in
      let other : option_id ≢ id = λ same. ground (arith, there, b.found, b.not_writer, same) in
      (new, ground (arith, b.left, there, other), refl)

  -- The two calls of a spread, by the account that the pool sees, and whose its options are.
  pub record SpreadMade (pool option_id id : ℕ) (leg : Leg) (s s' : PoolState Ledger) : Type 0 where
    pub at_pool : pool ≡ self
    pub some_option : option_id ≢ 0
    pub after_write : PoolState Ledger
    pub written : written_by leg s ≡ ok (id, after_write)
    pub calls : s' ≡ run rt (write_of leg ∷ (env, buys option_id) ∷ []) s
    pub new_option : OptionRecord
    pub new_found : s'.options id ≡ some new_option
    pub new_writer : new_option.writer ≡ seen frame.sender frame.self
    pub bought_option : OptionRecord
    pub bought_found : s'.options option_id ≡ some bought_option
    pub bought_buyer : bought_option.buyer ≡ seen frame.sender frame.self

  -- Whatever account a pool sees when the router calls it, a spread that returns has made both calls
  -- by that account, in the order write and buy, at the pool that it was given, and for an option
  -- that is not 0; the new option has the account as its writer and the bought one as its buyer.
  pub execute_spread-run :
      (pool option_id id : ℕ) (leg : Leg) (s s' : PoolState Ledger)
      → execute_spread (one_pool rt seen self) frame pool leg option_id s ≡ ok (id, s')
      → SpreadMade pool option_id id leg s s'
  unfolding execute_spread run
  execute_spread-run pool option_id id leg s s' e = elim (Result-cases (written_by leg s)) [
    | inr (x, fails) ↦ absurd (ground (arith, fails))
    | inl ((new, t), written) ↦ elim (Result-cases (buy_option rt env option_id t)) [
      | inr (x, fails) ↦ absurd (ground (arith, written, fails))
      | inl ((u, r), bought) ↦
          let new_id : new ≡ id = ground (arith, written, bought) in
          let final : r ≡ s' = ground (arith, written, bought) in
          let (o, o_found, o_writer) = writer_kept option_id new leg s t r u written bought in
          let b = buy_option-Bought rt env option_id t r u bought in
          record {
            at_pool = ground (arith, written, bought);
            some_option = ground (arith, written, bought);
            after_write = t;
            written = rw (← new_id) written;
            calls =
                rw (step_write leg s t new written, step_buy option_id t r u bought) (sym final);
            new_option = o;
            new_found = rw (← new_id, ← final) o_found;
            new_writer = o_writer;
            bought_option = record (b.option) { buyer = env.sender; status = status_purchased };
            bought_found = rw (← final) (ground (arith, b.left));
            bought_buyer = refl;
          }
    ]
  ]

  -- A spread reverts at the first of its conditions that fails: the pool's address, the identifier
  -- to buy, the write leg, the buy leg; so no leg is made without the other. The pool is not at the
  -- zero address.
  pub execute_spread_reverts :
      (option_id : ℕ) (leg : Leg) (s : PoolState Ledger)
      → self ≢ zero_address
      → (execute_spread (one_pool rt seen self) frame zero_address leg option_id s
          ≡ revert invalid_pool_address)
        × (execute_spread (one_pool rt seen self) frame self leg 0 s ≡ revert invalid_buy_option_id)
        × (option_id ≢ 0
            → answer (written_by leg s) ≡ none
            → execute_spread (one_pool rt seen self) frame self leg option_id s
              ≡ revert write_leg_failed)
        × (option_id ≢ 0
            → (id : ℕ) (t : PoolState Ledger) → written_by leg s ≡ ok (id, t)
            → answer (buy_option rt env option_id t) ≡ none
            → execute_spread (one_pool rt seen self) frame self leg option_id s
              ≡ revert buy_leg_failed)
  unfolding execute_spread
  execute_spread_reverts option_id leg s there = (
    refl,
    ground arith,
    λ some_option fails. ground (arith, fails),
    λ some_option id t written fails. ground (arith, written, fails),
  )

  -- Two options that are written at once by a call that returns are as written one after the other,
  -- the first of them with the identifier that is returned.
  pub execute_dual_write-run :
      (pool id : ℕ) (leg1 leg2 : Leg) (s s' : PoolState Ledger)
      → execute_dual_write (one_pool rt seen self) frame pool leg1 leg2 s ≡ ok (id, s')
      → (pool ≡ self)
        × ((t : PoolState Ledger) × (written_by leg1 s ≡ ok (id, t)))
        × (s' ≡ run rt (write_of leg1 ∷ write_of leg2 ∷ []) s)
  unfolding execute_dual_write run
  execute_dual_write-run pool id leg1 leg2 s s' e = elim (Result-cases (written_by leg1 s)) [
    | inr (x, fails) ↦ absurd (ground (arith, fails))
    | inl ((new, t), first) ↦ elim (Result-cases (written_by leg2 t)) [
      | inr (x, fails) ↦ absurd (ground (arith, first, fails))
      | inl ((other, r), second) ↦ (
        ground (arith, first, second),
        (t, ground (arith, first, second)),
        rw (step_write leg1 s t new first, step_write leg2 t r other second)
            (ground (arith, first, second)),
      )
    ]
  ]

  -- A spread by an account other than the pool keeps the pool solvent.
  pub execute_spread-IsSolvent :
      (pool option_id id : ℕ) (leg : Leg) (s s' : PoolState Ledger)
      → seen frame.sender frame.self ≢ self
      → IsFresh s
      → IsSolvent rt self s
      → execute_spread (one_pool rt seen self) frame pool leg option_id s ≡ ok (id, s')
      → IsFresh s' × IsSolvent rt self s'
  execute_spread-IsSolvent pool option_id id leg s s' other fresh solvent e =
      let calls = write_of leg ∷ (env, buys option_id) ∷ [] in
      let left = (execute_spread-run pool option_id id leg s s' e).calls in
      let outside : FromOutside rt self calls = (refl, other, (refl, other, tt)) in
      rw left (run-IsSolvent rt self calls s outside fresh solvent)
