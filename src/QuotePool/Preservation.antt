-- ===== src/QuotePool/Preservation.antt =====
-- Each method of a type 1 pool (src/contracts/pool/btc-quote.ts) keeps the pool safe.
use frogop_pub.Prelude.{ℕ, ◌≡◌, ◌≢◌, Bool, false, List, inl, inr, arith}
use frogop_pub.Runtime.{Runtime, Env, Action, Result-cases, ok}
use frogop_pub.Pool.State.{PoolState, status_cancelled, status_expired}
use frogop_pub.Pool.Base.{change}
use frogop_pub.Pool.Base as Base
use frogop_pub.Pool.Write as Write
use frogop_pub.Pool.Close as Close
use frogop_pub.Pool.Effects.Writing.{new_option, write_option-Written}
use frogop_pub.Pool.Effects.Cancelling.{cancel_option-Cancelled}
use frogop_pub.Pool.Effects.Settling.{settle-Settled}
use frogop_pub.Pool.Solvency.{Keeps}
use frogop_pub.Pool.Solvency.Closing.{settle-Keeps, cancel_option-Keeps}
use frogop_pub.Pool.Solvency.Opening.{write_option-Keeps}
use frogop_pub.Pool.Solvency.Histories.{register_btc_pubkey-Keeps, update_fee_recipient-Keeps}
use frogop_pub.QuotePool.State.{BridgeCalls}
use frogop_pub.QuotePool.Handlers.{
  on_pool, write_option, cancel_option, settle, register_btc_pubkey, update_fee_recipient,
}
use frogop_pub.QuotePool.Safety.{
  KeepsReserved, KeepsReserved-change, KeepsReserved-append, Quote, IsSafe, pool-IsSafe,
}

module _ (rt : Runtime) (br : BridgeCalls) where
  open rt use {Ledger}

  -- What runs on the shared fields and returns has run on them, and leaves the others.
  on_pool-eq-ok :
      {A : Type 0} (m : Action (PoolState Ledger) A) (s s' : Quote rt br) (a : A)
      → on_pool m s ≡ ok (a, s')
      → (m s.pool ≡ ok (a, s'.pool))
        × (s'.reservations ≡ s.reservations)
        × (s'.next_reservation_id ≡ s.next_reservation_id)
  on_pool-eq-ok m s s' a e = elim (Result-cases (m s.pool)) [
    | inl ((b, p), done) ↦ (ground (arith, done), ground (arith, done), ground (arith, done))
    | inr (x, fails) ↦ absurd (ground (arith, fails))
  ]

  -- A call on the shared fields alone.
  shared-IsSafe :
      {A : Type 0} (self : ℕ) (m : Action (PoolState Ledger) A) (s s' : Quote rt br) (a : A)
      → ((p : PoolState Ledger)
          → m s.pool ≡ ok (a, p)
          → Keeps rt self s.pool p × KeepsReserved s.pool p)
      → on_pool m s ≡ ok (a, s')
      → IsSafe rt br self s
      → IsSafe rt br self s'
  shared-IsSafe self m s s' a keep e h =
      let (done, er, en) = on_pool-eq-ok m s s' a e in
      let (keeps, kept) = keep s'.pool done in pool-IsSafe rt br self s s' er en keeps kept h

  pub write_option-IsSafe :
      (env : Env) (ty strike expiry amount premium : ℕ) (s s' : Quote rt br) (id : ℕ)
      → env.sender ≢ env.self
      → IsSafe rt br env.self s
      → write_option rt br false env ty strike expiry amount premium s ≡ ok (id, s')
      → IsSafe rt br env.self s'
  unfolding write_option
  write_option-IsSafe env ty strike expiry amount premium s s' id other h e =
      shared-IsSafe env.self (Write.write_option rt env ty strike expiry amount premium) s s' id
        (λ p done.
          let c =
            (write_option-Written rt env ty strike expiry amount premium s.pool p id done).1 in
          let o = new_option env s.pool.next_id ty strike expiry amount premium in
          (
            write_option-Keeps rt env ty strike expiry amount premium s.pool p id other h.fresh
                done,
            KeepsReserved-append s.pool p o h.fresh (ground (arith, c.left)),
          ))
        e h

  pub cancel_option-IsSafe :
      (env : Env) (i : ℕ) (s s' : Quote rt br) (u : Bool)
      → IsSafe rt br env.self s
      → cancel_option rt br false env i s ≡ ok (u, s')
      → IsSafe rt br env.self s'
  unfolding cancel_option
  cancel_option-IsSafe env i s s' u h e =
      shared-IsSafe env.self (Close.cancel_option rt env i) s s' u
        (λ p done.
          let c = cancel_option-Cancelled rt env i s.pool p u done in
          (
            cancel_option-Keeps rt env i s.pool p u h.fresh done,
            KeepsReserved-change i s.pool p c.option (record c.option { status = status_cancelled })
                c.found (λ same. ground (arith, c.was_open, same)) (ground (arith, c.left)),
          ))
        e h

  pub settle-IsSafe :
      (env : Env) (i : ℕ) (s s' : Quote rt br) (u : Bool)
      → IsSafe rt br env.self s
      → settle rt br false env i s ≡ ok (u, s')
      → IsSafe rt br env.self s'
  unfolding settle
  settle-IsSafe env i s s' u h e =
      shared-IsSafe env.self (Close.settle rt env i) s s' u
        (λ p done.
          let c = settle-Settled rt env i s.pool p u done in
          (
            settle-Keeps rt env i s.pool p u h.fresh done,
            KeepsReserved-change i s.pool p c.option (record c.option { status = status_expired })
                c.found (λ same. ground (arith, c.purchased, same)) (ground (arith, c.left)),
          ))
        e h

  pub register_btc_pubkey-IsSafe :
      (env : Env) (key : List ℕ) (s s' : Quote rt br) (u : Bool)
      → IsSafe rt br env.self s
      → register_btc_pubkey rt br false env key s ≡ ok (u, s')
      → IsSafe rt br env.self s'
  unfolding register_btc_pubkey
  register_btc_pubkey-IsSafe env key s s' u h e =
      shared-IsSafe env.self (Base.register_btc_pubkey rt env key) s s' u
        (λ p done.
          let same : p.options ≡ s.pool.options =
            unfold Base.register_btc_pubkey in ground (arith, done) in
          (register_btc_pubkey-Keeps rt env key s.pool p u h.fresh done, λ id there. rw same there))
        e h

  pub update_fee_recipient-IsSafe :
      (env : Env) (to : ℕ) (s s' : Quote rt br) (u : Bool)
      → IsSafe rt br env.self s
      → update_fee_recipient rt br false env to s ≡ ok (u, s')
      → IsSafe rt br env.self s'
  unfolding update_fee_recipient
  update_fee_recipient-IsSafe env to s s' u h e =
      shared-IsSafe env.self (Base.update_fee_recipient rt env to) s s' u
        (λ p done.
          let same : p.options ≡ s.pool.options =
            unfold Base.update_fee_recipient in ground (arith, done) in
          (update_fee_recipient-Keeps rt env to s.pool p u h.fresh done, λ id there. rw same there))
        e h
