-- ===== src/QuotePool/Guarantees.antt =====
-- What the two phases of a purchase and an exercise in Bitcoin promise, in
-- src/contracts/pool/btc-quote.ts.
use frogop_pub.Prelude.{
  ℕ, ◌+◌, ◌*◌, ◌/◌, ◌%◌, ◌≤◌, ◌<◌, ◌≡◌, ◌≢◌, refl, ap, ◌∙◌, Bool, true, false, Option, none, some,
  List, inl, inr, arith, fun_ext,
}
use frogop_pub.Runtime.{Runtime, Env, ok, revert, reservation_not_found, u64_mod}
use frogop_pub.Pool.State.{
  OptionRecord, call, status_reserved, status_purchased, reservation_expiry_blocks, precision,
}
use frogop_pub.Storage.Reservations.{Reservation, reservation_pending}
use frogop_pub.Bridge.Bitcoin.{Output}
use frogop_pub.QuotePool.State.{BridgeCalls}
use frogop_pub.QuotePool.Handlers.{
  State, reserve_option, execute_reservation, cancel_reservation, exercise,
}
use frogop_pub.QuotePool.Effects.Reserving.{reserve_option-Reserved, new_reservation}
use frogop_pub.QuotePool.Effects.Executing.{
  execute_reservation-Executed, cancelled_state, cancel_reservation_returns,
}
use frogop_pub.QuotePool.Effects.Exercising.{exercise-Exercised, value_of}
use frogop_pub.QuotePool.Safety.{Quote, IsSafe}

module _ (rt : Runtime) (br : BridgeCalls) where
  open br use {paid, used, verified}

  -- On a chain where a zeroed slot does not count as present, a reservation of a safe pool that is
  -- executed was pending and in time, and was paid for: the transaction has an output to its script of at least its amount that was not used up before and
  -- is now; its option was reserved and is now purchased by the one who reserved it.
  pub execute_reservation_paid :
      (env : Env) (outputs : List Output) (id : ℕ) (s s' : Quote rt br) (u : Bool) (r : Reservation)
      → IsSafe rt br env.self s
      → s.reservations id ≡ some r
      → execute_reservation rt br false env outputs id s ≡ ok (u, s')
      → (r.status ≡ reservation_pending)
        × (env.block < r.expiry_block)
        × ((value : ℕ) × paid outputs r.csv_script_hash value
            × (r.btc_amount ≤ value)
            × (used s.bridge r.csv_script_hash value ≡ false)
            × (used s'.bridge r.csv_script_hash value ≡ true))
        × ((o : OptionRecord) × (s.pool.options r.option_id ≡ some o)
            × (o.status ≡ status_reserved)
            × (s'.pool.options r.option_id
                ≡ some (record o { buyer = r.buyer; status = status_purchased })))
  execute_reservation_paid env outputs id s s' u r h there e =
      let c = execute_reservation-Executed rt br false env outputs id s s' u e in
      let it : c.reservation ≡ r = ground (arith, c.found, there) in
      let pending : r.status ≡ reservation_pending = rw it at c.pending in
      let (o, found, reserved) = h.reserved id r (there, pending) in
      let checked : br.verify outputs r.csv_script_hash r.btc_amount s.bridge
          ≡ some (true, c.bridge) =
        rw it at c.verified in
      let (value, pays, enough, before, now) =
        verified outputs r.csv_script_hash r.btc_amount s.bridge c.bridge checked in
      (
        pending,
        rw it at c.in_time,
        (
          value,
          pays,
          enough,
          before,
          ap (λ (t : Quote rt br). used t.bridge r.csv_script_hash value) c.left ∙ now,
        ),
        (
          o,
          found,
          reserved,
          ap (λ (t : Quote rt br). t.pool.options r.option_id) c.left ∙ ground (arith, it, found),
        ),
      )

  -- An exercise of a call that returns was paid for in Bitcoin: the transaction has an output to the
  -- script that is stored for the option of at least the strike value, which was not used up before
  -- and is now. (It is stated where a zeroed slot does not count as present.)
  pub exercise_paid :
      (env : Env) (outputs : List Output) (id : ℕ) (s s' : Quote rt br) (u : Bool)
      (o : OptionRecord)
      → s.pool.options id ≡ some o
      → o.option_type ≡ call
      → exercise rt br false env outputs id s ≡ ok (u, s')
      → (value : ℕ) × paid outputs (s.csv_hashes id) value
        × (value_of rt br false o ≤ value)
        × (used s.bridge (s.csv_hashes id) value ≡ false)
        × (used s'.bridge (s.csv_hashes id) value ≡ true)
  exercise_paid env outputs id s s' u o found is_call e =
      let c = exercise-Exercised rt br false env outputs id s s' u e in
      let it : c.option ≡ o = ground (arith, c.found, found) in
      elim c.how [
        | inl (yes_call, p) ↦
            let checked : br.verify outputs (s.csv_hashes id) (value_of rt br false o) s.bridge
                ≡ some (true, p.bridge) =
              rw it at p.verified in
            let (value, pays, enough, before, now) =
              verified outputs (s.csv_hashes id) (value_of rt br false o) s.bridge p.bridge
                checked in
            let left =
              ap (λ (t : Quote rt br). t.bridge) c.left
              ∙ ap (λ (t : Quote rt br). t.bridge) p.left in
            (
              value,
              pays,
              enough,
              before,
              ap (λ (b : br.Bridge). used b (s.csv_hashes id) value) left ∙ now,
            )
        | inr (is_put, p) ↦ absurd (is_put (rw it is_call))
      ]

  -- A reservation that is not executed is not for ever: from its expiry on anybody can cancel it, and
  -- the options are then what they were before it was made. This needs an option other than 0, that
  -- the reservation is that of the call before, and that a zeroed slot does not count as present.
  pub reserve_option-cancel_reservation :
      (env env' : Env) (i id : ℕ) (s s' : Quote rt br)
      → i ≢ 0
      → reserve_option rt br false env i s ≡ ok (id, s')
      → (env.block + reservation_expiry_blocks) % u64_mod ≤ env'.block
      → (s'' : Quote rt br) × (cancel_reservation rt br false env' id s' ≡ ok (true, s''))
        × (s''.pool.options ≡ s.pool.options)
        × (s''.reservations id ≡ none)
  reserve_option-cancel_reservation env env' i id s s' some_option e over =
      let c = reserve_option-Reserved rt br false env i s s' id e in
      let o = c.option in
      let r =
        new_reservation rt br false env s.next_reservation_id i
          (o.premium * c.btc_price / precision) c.hash in
      let there : s'.reservations id ≡ some r =
        ap (λ (t : Quote rt br). t.reservations id) c.left ∙ ground (arith, c.named) in
      let options = ap (λ (t : Quote rt br). t.pool.options) c.left in
      (
        cancelled_state rt br false s' id r,
        cancel_reservation_returns rt br false env' id s' r there refl over,
        fun_ext λ k. ground (
          arith,
          c.found,
          c.open_before,
          ap (λ (f : ℕ → Option OptionRecord). f k) options,
          ap (λ (f : ℕ → Option OptionRecord). f i) options,
        ),
        ground arith,
      )

-- What an option with identifier 0 does to its reservation.
module _ (rt : Runtime) (br : BridgeCalls) where
  -- On a chain where a zeroed slot does not count as present, a reservation of option 0 can be
  -- neither executed nor cancelled, by anybody with any payment, while the option is reserved.
  pub reserve_option_zero :
      (env env' : Env) (outputs : List Output) (id : ℕ) (s s' : State rt br false)
      → reserve_option rt br false env 0 s ≡ ok (id, s')
      → (execute_reservation rt br false env' outputs id s' ≡ revert reservation_not_found)
        × (cancel_reservation rt br false env' id s' ≡ revert reservation_not_found)
        × ((o : OptionRecord) × (s'.pool.options 0 ≡ some o) × (o.status ≡ status_reserved))
  unfolding cancel_reservation execute_reservation
  reserve_option_zero env env' outputs id s s' e =
      let c = reserve_option-Reserved rt br false env 0 s s' id e in
      let gone : s'.reservations id ≡ none =
        ap (λ (t : State rt br false). t.reservations id) c.left ∙ ground (arith, c.named) in
      (
        ground (arith, gone),
        ground (arith, gone),
        (
          record c.option { status = status_reserved },
          ap (λ (t : State rt br false). t.pool.options 0) c.left,
          refl,
        ),
      )
