-- ===== src/QuotePool/Deployment.antt =====
-- onDeployment of src/contracts/pool/btc-quote.ts, and the pool that it leaves.
use frogop_pub.Prelude.{ℕ, ◌≡◌, ◌≢◌, none, inl, inr, false, arith}
use frogop_pub.Runtime.{Runtime, Result-cases, ok, zero_address}
use frogop_pub.Pool.Base as Base
use frogop_pub.Pool.Deployment.{on_deployment-IsSolvent}
use frogop_pub.QuotePool.State.{BridgeCalls}
use frogop_pub.QuotePool.Handlers.{on_deployment}
use frogop_pub.QuotePool.Safety.{Quote, IsSafe}

module _ (rt : Runtime) (br : BridgeCalls) where
  open rt use {Ledger}

  -- A deployment that returns on empty storage leaves a safe pool with the bridge that it was given,
  -- which is not at the zero address.
  pub on_deployment-IsSafe :
      (self underlying premium_token fee_recipient grace_period bridge : ℕ)
      → (s s' : Quote rt br) (u : Unit {0}) → s.pool.next_id ≡ 0
      → ((id : ℕ) → s.pool.options id ≡ none)
      → ((id : ℕ) → s.reservations id ≡ none)
      → on_deployment rt br false underlying premium_token fee_recipient grace_period bridge s
        ≡ ok (u, s')
      → IsSafe rt br self s' × (s'.bridge_address ≡ bridge) × (bridge ≢ zero_address)
  unfolding on_deployment
  on_deployment-IsSafe self un pr fr gp bridge s s' u first no_option no_reservation e =
      elim (Result-cases (Base.on_deployment rt un pr fr gp s.pool)) [
        | inr (x, fails) ↦ absurd (ground (arith, fails))
        | inl ((v, p), done) ↦
            let (_, _, _, _, _, fresh, solvent) =
              on_deployment-IsSolvent rt self un pr fr gp s.pool p v first no_option done in
            let pool : s'.pool ≡ p = ground (arith, done) in
            let kept : s'.reservations ≡ s.reservations = ground (arith, done) in
            (
              record {
                fresh = rw pool fresh;
                solvent = rw pool solvent;
                fresh_reservations = λ i le. rw kept (no_reservation i);
                reserved =
                    λ i r pending. absurd (ground (arith, pending.0, kept, no_reservation i));
                single =
                    λ i j r q p1 p2 same. absurd (ground (arith, p1.0, kept, no_reservation i));
              },
              ground (arith, done),
              ground (arith, done),
            )
      ]
