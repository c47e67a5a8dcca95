-- ===== src/QuotePool/Reservations.antt =====
-- reserveOption, executeReservation, cancelReservation and exercise of
-- src/contracts/pool/btc-quote.ts keep the pool safe.
use frogop_pub.Prelude.{
  ℕ, ◌+◌, ◌-◌, ◌≤◌, ◌≡◌, ◌≢◌, refl, ◌∙◌, ap, Bool, false, none, some, List, inl, inr, ◌==◌, update,
  arith, fun_ext, if◌then◌else◌, ◌*◌, ◌/◌,
}
use frogop_pub.Runtime.{Runtime, Env, ok}
use frogop_pub.Pool.State.{
  PoolState, OptionRecord, call, status_reserved, status_open, status_purchased, status_exercised,
  precision,
}
use frogop_pub.Pool.Amounts.{owed, token_for}
use frogop_pub.Pool.Ledgers.{pay_takes, pull_brings}
use frogop_pub.Pool.Solvency.Closing.{change-Keeps}
use frogop_pub.Storage.Reservations.{reservation_executed}
use frogop_pub.Bridge.Bitcoin.{Output}
use frogop_pub.QuotePool.State.{BridgeCalls}
use frogop_pub.QuotePool.Handlers.{
  reserve_option, execute_reservation, cancel_reservation, exercise,
}
use frogop_pub.QuotePool.Effects.Reserving.{reserve_option-Reserved, new_reservation}
use frogop_pub.QuotePool.Effects.Executing.{
  execute_reservation-Executed, cancel_reservation-Cancelled,
}
use frogop_pub.QuotePool.Effects.Exercising.{
  Exercised, exercise-Exercised, fee_of, value_of, CallPaid, PutPaid, marked,
}
use frogop_pub.QuotePool.Safety.{
  KeepsReserved-change, Quote, IsSafe, pool-IsSafe, added-IsSafe, ended-IsSafe,
}

module _ (rt : Runtime) (br : BridgeCalls) where
  open rt use {Ledger, balance}

  pub reserve_option-IsSafe :
      (env : Env) (i : ℕ) (s s' : Quote rt br) (id : ℕ)
      → IsSafe rt br env.self s
      → reserve_option rt br false env i s ≡ ok (id, s')
      → IsSafe rt br env.self s'
  reserve_option-IsSafe env i s s' id h e =
      let c = reserve_option-Reserved rt br false env i s s' id e in
      let o = c.option in
      let o' = record o { status = status_reserved } in
      let r =
        new_reservation rt br false env s.next_reservation_id i
          (o.premium * c.btc_price / precision) c.hash in
      let pool = ap (λ (t : Quote rt br). t.pool) c.left in
      let options = ap (λ (p : PoolState Ledger). p.options) pool in
      added-IsSafe rt br env.self s s' o o' r c.found (λ same. ground (arith, c.open_before, same))
        refl options (ap (λ (t : Quote rt br). t.next_reservation_id) c.left)
        (ap (λ (t : Quote rt br). t.reservations) c.left) h
        (change-Keeps rt env.self i s.pool s'.pool o o' h.fresh c.found
          (ap (λ (p : PoolState Ledger). p.underlying) pool)
          (ap (λ (p : PoolState Ledger). p.premium_token) pool)
          (ap (λ (p : PoolState Ledger). p.next_id) pool) options
          λ t. ground (arith, c.open_before, ap (λ (p : PoolState Ledger). p.ledger) pool))

  pub execute_reservation-IsSafe :
      (env : Env) (outputs : List Output) (id : ℕ) (s s' : Quote rt br) (u : Bool)
      → IsSafe rt br env.self s
      → execute_reservation rt br false env outputs id s ≡ ok (u, s')
      → IsSafe rt br env.self s'
  execute_reservation-IsSafe env outputs id s s' u h e =
      let c = execute_reservation-Executed rt br false env outputs id s s' u e in
      let r = c.reservation in
      let (o, there, reserved) = h.reserved id r (c.found, c.pending) in
      let o' = record o { buyer = r.buyer; status = status_purchased } in
      let pool = ap (λ (t : Quote rt br). t.pool) c.left in
      let options : s'.pool.options ≡ update s.pool.options r.option_id (some o') =
        ap (λ (p : PoolState Ledger). p.options) pool ∙ fun_ext λ k. ground (arith, there) in
      ended-IsSafe rt br env.self s s' id r (some (record r { status = reservation_executed })) o'
        (c.found, c.pending) (λ q same. ground (arith, same)) options
        (ap (λ (t : Quote rt br). t.next_reservation_id) c.left)
        (ap (λ (t : Quote rt br). t.reservations) c.left) h
        (change-Keeps rt env.self r.option_id s.pool s'.pool o o' h.fresh there
          (ap (λ (p : PoolState Ledger). p.underlying) pool)
          (ap (λ (p : PoolState Ledger). p.premium_token) pool)
          (ap (λ (p : PoolState Ledger). p.next_id) pool) options
          λ t. ground (arith, reserved, ap (λ (p : PoolState Ledger). p.ledger) pool))

  pub cancel_reservation-IsSafe :
      (env : Env) (id : ℕ) (s s' : Quote rt br) (u : Bool)
      → IsSafe rt br env.self s
      → cancel_reservation rt br false env id s ≡ ok (u, s')
      → IsSafe rt br env.self s'
  cancel_reservation-IsSafe env id s s' u h e =
      let c = cancel_reservation-Cancelled rt br false env id s s' u e in
      let r = c.reservation in
      let (o, there, reserved) = h.reserved id r (c.found, c.pending) in
      let o' = record o { status = status_open } in
      let pool = ap (λ (t : Quote rt br). t.pool) c.left in
      let options : s'.pool.options ≡ update s.pool.options r.option_id (some o') =
        ap (λ (p : PoolState Ledger). p.options) pool ∙ fun_ext λ k. ground (arith, there) in
      ended-IsSafe rt br env.self s s' id r none o' (c.found, c.pending) (λ q same. cc) options
        (ap (λ (t : Quote rt br). t.next_reservation_id) c.left)
        (ap (λ (t : Quote rt br). t.reservations) c.left) h
        (change-Keeps rt env.self r.option_id s.pool s'.pool o o' h.fresh there
          (ap (λ (p : PoolState Ledger). p.underlying) pool)
          (ap (λ (p : PoolState Ledger). p.premium_token) pool)
          (ap (λ (p : PoolState Ledger). p.next_id) pool) options
          λ t. ground (arith, reserved, ap (λ (p : PoolState Ledger). p.ledger) pool))

  -- What the payments of an exercise take from the pool, and what else they change.
  record Takes (env : Env) (id : ℕ) (o : OptionRecord) (s t : Quote rt br) : Type 0 where
    options : t.pool.options ≡ (marked rt br false s id o).pool.options
    underlying : t.pool.underlying ≡ s.pool.underlying
    premium_token : t.pool.premium_token ≡ s.pool.premium_token
    next_id : t.pool.next_id ≡ s.pool.next_id
    reservations : t.reservations ≡ s.reservations
    next_reservation_id : t.next_reservation_id ≡ s.next_reservation_id
    taken :
        (k : ℕ)
        → balance s.pool.ledger k env.self
          ≤ balance t.pool.ledger k env.self + (if token_for s.pool o == k then owed o else 0)

  call-Takes :
      (env : Env) (outputs : List Output) (id fee : ℕ) (o : OptionRecord) (s t : Quote rt br)
      → o.option_type ≡ call
      → CallPaid rt br false env outputs id o.underlying_amount
          (value_of rt br false o)
          fee
          (marked rt br false s id o)
          t
      → Takes env id o s t
  call-Takes env outputs id fee o s t is_call paid = record {
    options = ground (arith, paid.left);
    underlying = ground (arith, paid.left);
    premium_token = ground (arith, paid.left);
    next_id = ground (arith, paid.left);
    reservations = ground (arith, paid.left);
    next_reservation_id = ground (arith, paid.left);
    taken = λ k. ground (
      arith,
      is_call,
      paid.left,
      paid.fee_fits,
      pay_takes rt env.self s.pool.underlying env.sender
          (o.underlying_amount - fee_of rt br false o.underlying_amount) k s.pool.ledger
          paid.received paid.proceeds,
      pay_takes rt env.self s.pool.underlying s.pool.fee_recipient
          (fee_of rt br false o.underlying_amount) k paid.received paid.ledger paid.fee_paid,
    );
  }

  put-Takes :
      (env : Env) (id fee : ℕ) (o : OptionRecord) (s t : Quote rt br)
      → env.sender ≢ env.self
      → o.option_type ≢ call
      → PutPaid rt br false env o.writer o.underlying_amount
          (value_of rt br false o)
          fee
          (marked rt br false s id o)
          t
      → Takes env id o s t
  put-Takes env id fee o s t other is_put paid = record {
    options = ground (arith, paid.left);
    underlying = ground (arith, paid.left);
    premium_token = ground (arith, paid.left);
    next_id = ground (arith, paid.left);
    reservations = ground (arith, paid.left);
    next_reservation_id = ground (arith, paid.left);
    taken = λ k. ground (
      arith,
      is_put,
      paid.left,
      paid.fee_fits,
      pull_brings rt env.self s.pool.underlying env.sender o.writer o.underlying_amount k
          s.pool.ledger paid.bought other paid.price,
      pay_takes rt env.self s.pool.premium_token env.sender
          (value_of rt br false o - fee_of rt br false (value_of rt br false o)) k paid.bought
          paid.received paid.proceeds,
      pay_takes rt env.self s.pool.premium_token s.pool.fee_recipient
          (fee_of rt br false (value_of rt br false o)) k paid.received paid.ledger paid.fee_paid,
    );
  }

  Exercised-Takes :
      (env : Env) (outputs : List Output) (id : ℕ) (s s' : Quote rt br)
      → env.sender ≢ env.self
      → (c : Exercised rt br false env outputs id s s') → Takes env id c.option s c.paid
  Exercised-Takes env outputs id s s' other c = elim c.how [
    | inl (is_call, paid) ↦ call-Takes env outputs id c.fee c.option s c.paid is_call paid
    | inr (is_put, paid) ↦ put-Takes env id c.fee c.option s c.paid other is_put paid
  ]

  pub exercise-IsSafe :
      (env : Env) (outputs : List Output) (id : ℕ) (s s' : Quote rt br) (u : Bool)
      → env.sender ≢ env.self
      → IsSafe rt br env.self s
      → exercise rt br false env outputs id s ≡ ok (u, s')
      → IsSafe rt br env.self s'
  exercise-IsSafe env outputs id s s' u other h e =
      let c = exercise-Exercised rt br false env outputs id s s' u e in
      let o = c.option in
      let o' = record o { status = status_exercised } in
      let t = Exercised-Takes env outputs id s s' other c in
      let pool = ap (λ (q : Quote rt br). q.pool) c.left in
      let options = ap (λ (p : PoolState Ledger). p.options) pool ∙ t.options in
      pool-IsSafe rt br env.self s s'
        (ap (λ (q : Quote rt br). q.reservations) c.left ∙ t.reservations)
        (ap (λ (q : Quote rt br). q.next_reservation_id) c.left ∙ t.next_reservation_id)
        (change-Keeps rt env.self id s.pool s'.pool o o' h.fresh c.found
          (ap (λ (p : PoolState Ledger). p.underlying) pool ∙ t.underlying)
          (ap (λ (p : PoolState Ledger). p.premium_token) pool ∙ t.premium_token)
          (ap (λ (p : PoolState Ledger). p.next_id) pool ∙ t.next_id) options
          λ k. ground (arith, c.purchased, t.taken k, ap (λ (p : PoolState Ledger). p.ledger) pool))
        (KeepsReserved-change id s.pool s'.pool o o' c.found
          (λ same. ground (arith, c.purchased, same)) options)
        h
