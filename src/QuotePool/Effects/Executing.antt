-- ===== src/QuotePool/Effects/Executing.antt =====
-- executeReservation and cancelReservation of src/contracts/pool/btc-quote.ts, run to their end.
use frogop_pub.Prelude.{
  ℕ, ◌≤◌, ◌<◌, ◌≡◌, Bool, true, some, List, ◌∷◌, inl, inr, Option-cases, update, arith,
}
use frogop_pub.Runtime.{Runtime, Env, ok}
use frogop_pub.Pool.State.{
  OptionRecord, status_open, status_purchased, reservation_was_executed, reservation_cancelled,
  option_restored,
}
use frogop_pub.Pool.Base.{change}
use frogop_pub.Storage.Reservations.{Reservation, reservation_pending, reservation_executed}
use frogop_pub.Bridge.Bitcoin.{Output}
use frogop_pub.QuotePool.State.{BridgeCalls}
use frogop_pub.QuotePool.Handlers.{
  State, execute_reservation, cancel_reservation, cleared_reservation,
}

module _ (rt : Runtime) (br : BridgeCalls) (zero_present : Bool) where
  open rt use {Ledger}
  open br use {Bridge, verify}

  -- the option of an executed reservation
  abbrev pub sold : Reservation → OptionRecord → OptionRecord
  sold r o = record o { buyer = r.buyer; status = status_purchased }

  pub record Executed (env : Env) (outputs : List Output) (id : ℕ) (s s' : State rt br zero_present)
      : Type 0 where
    pub reservation : Reservation
    pub bridge : Bridge
    pub found : s.reservations id ≡ some reservation
    pub pending : reservation.status ≡ reservation_pending
    pub in_time : env.block < reservation.expiry_block
    pub verified :
        verify outputs reservation.csv_script_hash reservation.btc_amount s.bridge
        ≡ some (true, bridge)
    pub left : s' ≡ record s {
      pool = record s.pool {
        options =
            update
              (update s.pool.options reservation.option_id (
                change
                  (λ o. record o { buyer = reservation.buyer })
                  (s.pool.options reservation.option_id)))
              reservation.option_id
              (change
                (λ o. record o { status = status_purchased })
                (change
                  (λ o. record o { buyer = reservation.buyer })
                  (s.pool.options reservation.option_id)));
        events =
            reservation_was_executed id reservation.option_id reservation.buyer ∷ s.pool.events;
      };
      csv_hashes = update s.csv_hashes reservation.option_id reservation.csv_script_hash;
      reservations =
          update s.reservations id (some (record reservation { status = reservation_executed }));
      bridge = bridge;
    }

  pub execute_reservation-Executed :
      (env : Env) (outputs : List Output) (id : ℕ) (s s' : State rt br zero_present) (u : Bool)
      → execute_reservation rt br zero_present env outputs id s ≡ ok (u, s')
      → Executed env outputs id s s'
  unfolding execute_reservation
  execute_reservation-Executed env outputs id s s' u e = elim (Option-cases (s.reservations id)) [
    | inl missing ↦ absurd (ground (arith, missing))
    | inr (r, found) ↦
        elim (Option-cases (verify outputs r.csv_script_hash r.btc_amount s.bridge)) [
          | inl fails ↦ absurd (ground (arith, found, fails))
          | inr ((v, b), checked) ↦
              let yes_it : v ≡ true = ground (arith, found, checked) in
              record {
                reservation = r;
                bridge = b;
                found = found;
                pending = ground (arith, found, checked);
                in_time = ground (arith, found, checked);
                verified = rw (← yes_it) checked;
                left = ground (arith, found, checked);
              }
        ]
  ]

  pub record Cancelled (env : Env) (id : ℕ) (s s' : State rt br zero_present) : Type 0 where
    pub reservation : Reservation
    pub found : s.reservations id ≡ some reservation
    pub pending : reservation.status ≡ reservation_pending
    pub expired : reservation.expiry_block ≤ env.block
    pub left : s' ≡ record s {
      pool = record s.pool {
        options = update s.pool.options reservation.option_id (
            change (λ o. record o { status = status_open }) (s.pool.options reservation.option_id));
        events =
            option_restored reservation.option_id
            ∷ reservation_cancelled id reservation.option_id
            ∷ s.pool.events;
      };
      reservations = update s.reservations id (cleared_reservation zero_present id);
    }

  pub cancel_reservation-Cancelled :
      (env : Env) (id : ℕ) (s s' : State rt br zero_present) (u : Bool)
      → cancel_reservation rt br zero_present env id s ≡ ok (u, s')
      → Cancelled env id s s'
  unfolding cancel_reservation
  cancel_reservation-Cancelled env id s s' u e = elim (Option-cases (s.reservations id)) [
    | inl missing ↦ absurd (ground (arith, missing))
    | inr (r, found) ↦ record {
      reservation = r;
      found = found;
      pending = ground (arith, found);
      expired = ground (arith, found);
      left = ground (arith, found);
    }
  ]

  -- The state that the cancellation of a reservation leaves.
  abbrev pub cancelled_state : State rt br zero_present → ℕ → Reservation → State rt br zero_present
  cancelled_state s id r = record s {
    pool = record s.pool {
      options =
          update s.pool.options r.option_id
            (change (λ o. record o { status = status_open }) (s.pool.options r.option_id));
      events = option_restored r.option_id ∷ reservation_cancelled id r.option_id ∷ s.pool.events;
    };
    reservations = update s.reservations id (cleared_reservation zero_present id);
  }

  -- A pending reservation that is over can be cancelled, whoever calls.
  pub cancel_reservation_returns :
      (env : Env) (id : ℕ) (s : State rt br zero_present) (r : Reservation)
      → s.reservations id ≡ some r
      → r.status ≡ reservation_pending
      → r.expiry_block ≤ env.block
      → cancel_reservation rt br zero_present env id s ≡ ok (true, cancelled_state s id r)
  unfolding cancel_reservation
  cancel_reservation_returns env id s r found pending over = ground arith
