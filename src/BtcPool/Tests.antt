-- ===== src/BtcPool/Tests.antt =====
-- A type 2 pool on the plain chain with the bridge of Bridge.Tests: Alice writes a call on Bitcoin
-- and a put, Bob buys and exercises the put.
use frogop_pub.Prelude.{
  ℕ, ◌≤◌, ◌≡◌, refl, true, false, none, some, List, [], ◌∷◌, update, sum_below, arith, ◌==◌, ◌*◌,
  ◌^◌, if◌then◌else◌, length,
}
use frogop_pub.Runtime.{Env, ok, after}
use frogop_pub.Storage.Bytes.{zeros}
use frogop_pub.Pool.Base.{registered_key}
use frogop_pub.Pool.State.{OptionRecord, call, put}
use frogop_pub.Pool.Fees.{strike_value, ceil_fee}
use frogop_pub.Pool.Tests.Chain.{plain_chain, fresh_pool, at, alice, bob, pool_address}
use frogop_pub.Bridge.Bitcoin.{Output}
use frogop_pub.Bridge.Contract.{
  pays_to, consume, verify_outputs, verify_btc_output, escrow_script, generate_csv_script_hash,
  generate_escrow_script_hash,
}
use frogop_pub.Bridge.Tests.{plain_bitcoin, new_bridge, payment}
use frogop_pub.QuotePool.State.{BridgeCalls}
use frogop_pub.QuotePool.Bridging.{bridge_calls, Pays}
use frogop_pub.BtcPool.Handlers.{
  write_option_btc, write_btc_call, exercise, exercise_btc_put, btc_option, placeholder_buyer,
}
use frogop_pub.BtcPool.Security.{Pool, IsSecured, puts_locked}
use frogop_pub.BtcPool.Step.{Call, writes_btc, buys, exercises, run}
use frogop_pub.BtcPool.Histories.{run-IsSecured}
use frogop_pub.BtcPool.Guarantees.{write_option_btc_paid, exercise_paid_btc}

abbrev calls : BridgeCalls
calls = bridge_calls plain_bitcoin

abbrev alices_key : List ℕ
alices_key = 2 ∷ zeros 32

-- The hash of the escrow on the plain chain, and a transaction that pays 500 satoshis to it.
abbrev escrow_bytes : List ℕ
escrow_bytes = 0x63 ∷ 33 ∷ 2 ∷ zeros 29

abbrev deposit : List Output
deposit = record { script = some (0 ∷ 0x20 ∷ escrow_bytes); value = 500 } ∷ []

-- A new pool, where Alice has registered a key.
abbrev start : Pool plain_chain calls
start = record {
  pool = record fresh_pool { pubkeys = update (λ _. none) alice (some alices_key) };
  bridge_address = 77;
  btc_collateral = λ id. 0;
  escrow_hashes = λ id. [];
  bridge = new_bridge;
}

start-IsSecured : IsSecured plain_chain calls pool_address start
unfolding puts_locked sum_below
start-IsSecured = record {
  fresh = λ i le. refl;
  solvent = omega arith;
  backing = record {
    value = λ i. 0;
    enough = λ i o is_call. absurd (ground (arith, is_call));
    spent = λ i o is_call. absurd (ground (arith, is_call));
    own = λ i j o q first second hashes values. absurd (ground (arith, first));
  };
}

abbrev some_calls : List (Env × List Output × Call)
some_calls =
    (at alice 10, deposit, writes_btc call (2 * 10 ^ 18) 110 400 250)
    ∷ (at alice 11, [], writes_btc put (2 * 10 ^ 18) 110 1000 250)
    ∷ (at bob 20, [], buys 1)
    ∷ (at bob 120, payment 1000, exercises 1)
    ∷ []

run-IsSecured_example :
    IsSecured plain_chain calls pool_address (run plain_chain calls some_calls start)
run-IsSecured_example =
    run-IsSecured plain_chain calls pool_address some_calls start (ground arith) start-IsSecured

unfoldable call_written : Pool plain_chain calls
unfolding write_option_btc write_btc_call generate_escrow_script_hash verify_btc_output
    verify_outputs consume
call_written =
    after start (
      write_option_btc plain_chain calls (at alice 10) deposit call (2 * 10 ^ 18) 110 400 250 start)

call_returns :
    write_option_btc plain_chain calls (at alice 10) deposit call (2 * 10 ^ 18) 110 400 250 start
    ≡ ok (0, call_written)
unfolding call_written pays_to escrow_script
call_returns = refl

write_option_btc_paid_example :
    (key : List ℕ) × (escrow : List ℕ) × (value : ℕ) × (registered_key start.pool alice ≡ some key)
    × (calls.escrow_hash placeholder_buyer key 254 new_bridge ≡ some escrow)
    × Pays deposit escrow value
    × (400 ≤ value)
    × (new_bridge.consumed escrow value ≡ false)
    × (call_written.bridge.consumed escrow value ≡ true)
    × (call_written.pool.options 0
        ≡ some (btc_option (at alice 10) 0 call (2 * 10 ^ 18) 110 400 250))
    × (call_written.btc_collateral 0 ≡ 400)
    × (call_written.escrow_hashes 0 ≡ escrow)
    × (call_written.pool.ledger ≡ start.pool.ledger)
write_option_btc_paid_example =
    write_option_btc_paid plain_chain calls (at alice 10) deposit (2 * 10 ^ 18) 110 400 250 0 start
      call_written call_returns

-- Bob has bought a put of Alice.
abbrev bobs_put : OptionRecord
bobs_put = record (btc_option (at alice 11) 0 put (2 * 10 ^ 18) 110 1000 250) {
  buyer = bob;
  status = 1;
}

abbrev put_bought : Pool plain_chain calls
put_bought = record start {
  pool = record start.pool {
    next_id = 1;
    options = update (λ _. none) 0 (some bobs_put);
    ledger = λ t h. if h == pool_address then 2000 else fresh_pool.ledger t h;
  };
}

unfoldable put_exercised : Pool plain_chain calls
unfolding exercise exercise_btc_put generate_csv_script_hash verify_btc_output verify_outputs
    consume strike_value ceil_fee
put_exercised =
    after put_bought (exercise plain_chain calls (at bob 120) (payment 1000) 0 put_bought)

exercise_returns :
    exercise plain_chain calls (at bob 120) (payment 1000) 0 put_bought ≡ ok (true, put_exercised)
unfolding put_exercised pays_to
exercise_returns = refl

exercise_paid_btc_example :
    (key : List ℕ) × (csv : List ℕ) × (value : ℕ) × (registered_key put_bought.pool alice
      ≡ some key)
    × (length key ≡ 33)
    × (calls.csv_hash key 6 new_bridge ≡ some csv)
    × Pays (payment 1000) csv value
    × (1000 ≤ value)
    × (new_bridge.consumed csv value ≡ false)
    × (put_exercised.bridge.consumed csv value ≡ true)
exercise_paid_btc_example =
    exercise_paid_btc plain_chain calls (at bob 120) (payment 1000) 0 put_bought put_exercised true
      bobs_put refl (omega arith) exercise_returns
