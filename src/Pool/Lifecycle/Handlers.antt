-- ===== src/Pool/Lifecycle/Handlers.antt =====
-- Each handler of src/contracts/pool/contract.ts moves the options along their life.
use frogop_pub.Prelude.{ℕ, ◌≡◌, ◌∙◌, refl, sym, ap, Bool, true, Option, some, update, arith}
use frogop_pub.Runtime.{Runtime, Env, ok}
use frogop_pub.Pool.State.{
  PoolState, OptionRecord, status_purchased, status_expired, status_cancelled, status_exercised,
}
use frogop_pub.Pool.Write.{write_option}
use frogop_pub.Pool.Trade.{buy_option, transfer_option}
use frogop_pub.Pool.Close.{cancel_option, exercise, settle}
use frogop_pub.Pool.Roll.{roll_option}
use frogop_pub.Pool.Solvency.{IsFresh, find-lt, is_live}
use frogop_pub.Pool.Effects.Settling.{settle-Settled}
use frogop_pub.Pool.Effects.Cancelling.{cancel_option-Cancelled}
use frogop_pub.Pool.Effects.Exercising.{exercise-Exercised}
use frogop_pub.Pool.Effects.Buying.{buy_option-Bought}
use frogop_pub.Pool.Effects.Transferring.{transfer_option-Transferred}
use frogop_pub.Pool.Effects.Writing.{write_option-Written, new_option}
use frogop_pub.Pool.Effects.Rolling.{
  roll_option-Rollable, roll_option_lem, rolled_state, rolled_option,
}
use frogop_pub.Pool.Lifecycle.{
  Becomes, Becomes-refl, Evolves, Evolves-trans, Evolves-change, here, next, bought, cancelled,
  exercised, expired, Leads,
}

-- A live option whose status and buyer are written.
pub live_Becomes :
    (o : OptionRecord) (buyer status : ℕ)
    → Leads o.status status
    → is_live o.status ≡ true
    → Becomes o (record o { buyer = buyer; status = status })
live_Becomes o buyer status leads live = record {
  id = refl;
  writer = refl;
  strike_price = refl;
  underlying_amount = refl;
  premium = refl;
  expiry_block = refl;
  created_block = refl;
  option_type = refl;
  status = leads;
  final = λ ended. absurd (ground (arith, ended, live));
}

-- An option is added behind the others.
Evolves-append :
    {L : Type 0} (s s' : PoolState L) (p : OptionRecord)
    → IsFresh s
    → s'.options ≡ update s.options s.next_id (some p)
    → Evolves s s'
Evolves-append s s' p fresh eo id o found = (
  o,
  ground (arith, ap (λ (f : ℕ → Option OptionRecord). f id) eo, found, find-lt id s o fresh found),
  Becomes-refl o,
)

module _ (rt : Runtime) where
  open rt use {Ledger}

  pub settle-Evolves :
      (env : Env) (id : ℕ) (s s' : PoolState Ledger) (u : Bool)
      → settle rt env id s ≡ ok (u, s')
      → Evolves s s'
  settle-Evolves env id s s' u e =
      let c = settle-Settled rt env id s s' u e in
      let o = c.option in
      Evolves-change id s s' o (record o { status = status_expired }) c.found
        (ground (arith, c.left))
        (live_Becomes o o.buyer status_expired (next here (expired c.purchased refl))
          (ground (arith, c.purchased)))

  pub cancel_option-Evolves :
      (env : Env) (id : ℕ) (s s' : PoolState Ledger) (u : Bool)
      → cancel_option rt env id s ≡ ok (u, s')
      → Evolves s s'
  cancel_option-Evolves env id s s' u e =
      let c = cancel_option-Cancelled rt env id s s' u e in
      let o = c.option in
      Evolves-change id s s' o (record o { status = status_cancelled }) c.found
        (ground (arith, c.left))
        (live_Becomes o o.buyer status_cancelled (next here (cancelled c.was_open refl))
          (ground (arith, c.was_open)))

  pub exercise-Evolves :
      (env : Env) (id : ℕ) (s s' : PoolState Ledger) (u : Bool)
      → exercise rt env id s ≡ ok (u, s')
      → Evolves s s'
  exercise-Evolves env id s s' u e =
      let c = exercise-Exercised rt env id s s' u e in
      let o = c.option in
      Evolves-change id s s' o (record o { status = status_exercised }) c.found
        (ground (arith, c.left))
        (live_Becomes o o.buyer status_exercised (next here (exercised c.purchased refl))
          (ground (arith, c.purchased)))

  pub buy_option-Evolves :
      (env : Env) (id : ℕ) (s s' : PoolState Ledger) (u : Bool)
      → buy_option rt env id s ≡ ok (u, s')
      → Evolves s s'
  buy_option-Evolves env id s s' u e =
      let c = buy_option-Bought rt env id s s' u e in
      let o = c.option in
      Evolves-change id s s' o (record o { buyer = env.sender; status = status_purchased }) c.found
        (ground (arith, c.left))
        (live_Becomes o env.sender status_purchased (next here (bought c.was_open refl))
          (ground (arith, c.was_open)))

  pub transfer_option-Evolves :
      (env : Env) (id new_buyer : ℕ) (s s' : PoolState Ledger) (u : Bool)
      → transfer_option rt env id new_buyer s ≡ ok (u, s')
      → Evolves s s'
  transfer_option-Evolves env id new_buyer s s' u e =
      let c = transfer_option-Transferred rt env id new_buyer s s' u e in
      let o = c.option in
      Evolves-change id s s' o (record o { buyer = new_buyer }) c.found (ground (arith, c.left))
        (live_Becomes o new_buyer o.status (here) (ground (arith, c.purchased)))

  pub write_option-Evolves :
      (env : Env) (option_type strike_price expiry_block underlying_amount premium : ℕ)
      → (s s' : PoolState Ledger) (id : ℕ) → IsFresh s
      → write_option rt env option_type strike_price expiry_block underlying_amount premium s
        ≡ ok (id, s')
      → Evolves s s'
  write_option-Evolves env ty strike expiry amount premium s s' id fresh e =
      let c = (write_option-Written rt env ty strike expiry amount premium s s' id e).1 in
      Evolves-append s s' (new_option env s.next_id ty strike expiry amount premium) fresh
        (ground (arith, c.left))

  pub roll_option-Evolves :
      (env : Env) (id strike expiry premium : ℕ) (s s' : PoolState Ledger) (new_id : ℕ)
      → IsFresh s
      → roll_option rt env id strike expiry premium s ≡ ok (new_id, s')
      → Evolves s s'
  roll_option-Evolves env id strike expiry premium s s' new_id fresh e =
      let c = roll_option-Rollable rt env id strike expiry premium s s' new_id e in
      let o = c.option in
      let o' : OptionRecord = record o { status = status_cancelled } in
      let m : PoolState Ledger = record s { options = update s.options id (some o') } in
      let done = sym e ∙ roll_option_lem rt env id strike expiry premium s c in
      let state : s' ≡ rolled_state rt env id strike expiry premium s o c.ledger = cc done in
      Evolves-trans s m s'
        (Evolves-change id s m o o' c.found refl (
          live_Becomes o o.buyer status_cancelled (next here (cancelled c.was_open refl))
            (ground (arith, c.was_open))))
        (Evolves-append m s' (rolled_option env o s.next_id strike expiry premium)
          (λ i le. ground (arith, fresh i le, find-lt id s o fresh c.found))
          (ground (arith, state)))
