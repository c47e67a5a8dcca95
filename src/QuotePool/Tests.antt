-- ===== src/QuotePool/Tests.antt =====
-- A type 1 pool on the plain chain with the bridge of Bridge.Tests: Alice writes a call, Bob reserves
-- it and pays for it in Bitcoin.
use frogop_pub.Prelude.{
  ℕ, ◌≤◌, ◌<◌, ◌≡◌, refl, true, false, none, some, List, [], ◌∷◌, update, sum_below, arith, ◌==◌,
  ◌&&◌, if◌then◌else◌,
}
use frogop_pub.Runtime.{Env, ok, revert, reservation_not_found}
use frogop_pub.Storage.Bytes.{zeros}
use frogop_pub.Storage.Reservations.{Reservation, reservation_pending}
use frogop_pub.Pool.State.{PoolState, OptionRecord, status_reserved, status_purchased}
use frogop_pub.Pool.Solvency.{locked}
use frogop_pub.Pool.Fees.{strike_value, ceil_fee}
use frogop_pub.Pool.Tests.Chain.{
  plain_chain, fresh_pool, Balances, at, alice, bob, moto, treasury, pool_address,
}
use frogop_pub.Pool.Tests.Runs.{sold_call}
use frogop_pub.Bridge.Bitcoin.{Output}
use frogop_pub.Bridge.Contract.{
  pays_to, same_bytes, consume, verify_outputs, verify_btc_output, get_btc_price, query_price,
  generate_csv_script_hash,
}
use frogop_pub.Bridge.Tests.{plain_bitcoin, new_bridge, key_hash, payment}
use frogop_pub.QuotePool.State.{BridgeCalls}
use frogop_pub.QuotePool.Handlers.{
  reserve_option, execute_reservation, cancel_reservation, exercise, exercise_call,
}
use frogop_pub.QuotePool.Bridging.{bridge_calls, Pays}
use frogop_pub.QuotePool.Step.{Call, reserves, executes_reservation, run}
use frogop_pub.QuotePool.Safety.{Quote, IsSafe}
use frogop_pub.QuotePool.Histories.{run-IsSafe}
use frogop_pub.QuotePool.Guarantees.{
  exercise_paid, execute_reservation_paid, reserve_option-cancel_reservation, reserve_option_zero,
}

abbrev calls : BridgeCalls
calls = bridge_calls plain_bitcoin

abbrev alices_key : List ℕ
alices_key = 2 ∷ zeros 32

-- The option under identifier 1, as it stands under 0 in the pool of Pool.Tests.
abbrev offered : OptionRecord
offered = record sold_call { id = 1; expiry_block = 400 }

abbrev offering : PoolState Balances
offering = record fresh_pool {
  next_id = 2;
  options =
      update (update (λ _. none) 1 (some offered)) 0 (some (record offered { id = 0; status = 2 }));
  pubkeys = update (λ _. none) alice (some alices_key);
  ledger = λ t h. if (t == moto) && (h == pool_address) then 1000 else fresh_pool.ledger t h;
}

abbrev start : Quote plain_chain calls
start = record {
  pool = offering;
  bridge_address = 77;
  next_reservation_id = 4;
  reservations = λ id. none;
  csv_hashes = λ id. [];
  bridge = new_bridge;
}

-- Bob reserves option 1 at block 20.
reserved_by_bob :
    (s : Quote plain_chain calls) × (reserve_option plain_chain calls false (at bob 20) 1 start
      ≡ ok (4, s))
unfolding reserve_option get_btc_price query_price generate_csv_script_hash
reserved_by_bob = (_, refl)

abbrev bobs_reservation : Reservation
bobs_reservation = record {
  id = 4;
  option_id = 1;
  buyer = bob;
  btc_amount = 500;
  csv_script_hash = key_hash;
  expiry_block = 164;
  status = reservation_pending;
}

start-IsSafe : IsSafe plain_chain calls pool_address start
unfolding locked sum_below
start-IsSafe = record {
  fresh = λ i le. ground arith;
  solvent = λ t. ground arith;
  fresh_reservations = λ i le. refl;
  reserved = λ i r pending. absurd (ground (arith, pending));
  single = λ i j r q first second same. absurd (ground (arith, first));
}

abbrev a_purchase : List (Env × List Output × Call)
a_purchase = (at bob 20, [], reserves 1) ∷ (at bob 25, payment 500, executes_reservation 4) ∷ []

run-IsSafe_example :
    IsSafe plain_chain calls pool_address (run plain_chain calls false a_purchase start)
run-IsSafe_example =
    run-IsSafe plain_chain calls pool_address a_purchase start (ground arith) start-IsSafe

-- The pool with Bob's reservation.
abbrev held : Quote plain_chain calls
held = record start {
  pool = record offering {
    options = update offering.options 1 (some (record offered { status = status_reserved }));
  };
  next_reservation_id = 5;
  reservations = update start.reservations 4 (some bobs_reservation);
}

held-IsSafe : IsSafe plain_chain calls pool_address held
unfolding locked sum_below
held-IsSafe = record {
  fresh = λ i le. ground arith;
  solvent = λ t. ground arith;
  fresh_reservations = λ i le. ground arith;
  reserved =
      λ i r pending. (record offered { status = status_reserved }, ground (arith, pending), refl);
  single = λ i j r q first second same. ground (arith, first, second);
}

bought_by_bob :
    (s : Quote plain_chain calls) × (execute_reservation plain_chain calls false
        (at bob 25)
        (payment 500)
        4
        held
      ≡ ok (true, s))
unfolding execute_reservation verify_btc_output verify_outputs consume pays_to same_bytes
bought_by_bob = (_, refl)

execute_reservation_paid_example :
    (bobs_reservation.status ≡ reservation_pending)
    × (25 < bobs_reservation.expiry_block)
    × ((value : ℕ) × Pays (payment 500) key_hash value
        × (500 ≤ value)
        × (held.bridge.consumed key_hash value ≡ false)
        × (bought_by_bob.0.bridge.consumed key_hash value ≡ true))
    × ((o : OptionRecord) × (held.pool.options 1 ≡ some o)
        × (o.status ≡ status_reserved)
        × (bought_by_bob.0.pool.options 1
            ≡ some (record o { buyer = bob; status = status_purchased })))
execute_reservation_paid_example =
    execute_reservation_paid plain_chain calls (at bob 25) (payment 500) 4 held bought_by_bob.0 true
      bobs_reservation held-IsSafe refl bought_by_bob.1

reserve_option-cancel_reservation_example :
    (s : Quote plain_chain calls) × (cancel_reservation plain_chain calls false
        (at treasury 164)
        4
        reserved_by_bob.0
      ≡ ok (true, s))
    × (s.pool.options ≡ start.pool.options)
    × (s.reservations 4 ≡ none)
reserve_option-cancel_reservation_example =
    reserve_option-cancel_reservation plain_chain calls (at bob 20) (at treasury 164) 1 4 start
      reserved_by_bob.0 (ground arith) reserved_by_bob.1 (omega arith)

abbrev offering_zero : Quote plain_chain calls
offering_zero = record start {
  pool = record offering { options = update offering.options 0 (some (record offered { id = 0 })) };
}

zero_reserved :
    (s : Quote plain_chain calls) × (reserve_option plain_chain calls false
        (at bob 20)
        0
        offering_zero
      ≡ ok (4, s))
unfolding reserve_option get_btc_price query_price generate_csv_script_hash
zero_reserved = (_, refl)

reserve_option_zero_example :
    (execute_reservation plain_chain calls false (at bob 25) (payment 500) 4 zero_reserved.0
      ≡ revert reservation_not_found)
    × (cancel_reservation plain_chain calls false (at bob 25) 4 zero_reserved.0
        ≡ revert reservation_not_found)
    × ((o : OptionRecord) × (zero_reserved.0.pool.options 0 ≡ some o)
        × (o.status ≡ status_reserved))
reserve_option_zero_example =
    reserve_option_zero plain_chain calls (at bob 20) (at bob 25) (payment 500) 4 offering_zero
      zero_reserved.0 zero_reserved.1

-- Bob's call has expired, and he pays the strike of 2000 satoshis.
abbrev bobs_call : OptionRecord
bobs_call = record offered { buyer = bob; status = status_purchased }

abbrev expired_call : Quote plain_chain calls
expired_call = record start {
  pool = record offering { options = update offering.options 1 (some bobs_call) };
  csv_hashes = update start.csv_hashes 1 key_hash;
}

exercised_by_bob :
    (s : Quote plain_chain calls) × (exercise plain_chain calls false
        (at bob 410)
        (payment 2000)
        1
        expired_call
      ≡ ok (true, s))
unfolding exercise exercise_call verify_btc_output verify_outputs consume pays_to same_bytes
    strike_value ceil_fee
exercised_by_bob = (_, refl)

exercise_paid_example :
    (value : ℕ) × Pays (payment 2000) key_hash value
    × (2000 ≤ value)
    × (expired_call.bridge.consumed key_hash value ≡ false)
    × (exercised_by_bob.0.bridge.consumed key_hash value ≡ true)
exercise_paid_example =
    exercise_paid plain_chain calls (at bob 410) (payment 2000) 1 expired_call exercised_by_bob.0
      true bobs_call refl refl exercised_by_bob.1
