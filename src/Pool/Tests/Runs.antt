-- ===== src/Pool/Tests/Runs.antt =====
-- States of a pool on the plain chain: Alice writes, Bob buys, and Bob exercises.
use frogop_pub.Prelude.{◌*◌, ◌^◌, ◌≡◌, refl, true, List, [], ◌∷◌, some}
use frogop_pub.Runtime.{Env, ok, after}
use frogop_pub.Pool.State.{PoolState, OptionRecord}
use frogop_pub.Pool.Write.{write_option}
use frogop_pub.Pool.Trade.{buy_option}
use frogop_pub.Pool.Close.{exercise, settle, cancel_option, refund_option}
use frogop_pub.Pool.Base.{find_option}
use frogop_pub.Pool.Roll.{roll_option, adjust}
use frogop_pub.Pool.Fees.{collateral_amount, strike_value, ceil_fee, cancel_fee}
use frogop_pub.Pool.Step.{Call, writes, buys, exercises, run, step, perform}
use frogop_pub.Pool.Tests.Chain.{
  Balances, plain_chain, fresh_pool, at, alice, bob, moto, pill, pool_address, treasury,
}

-- Alice writes a call on 1000 of the underlying for a premium of 250, Bob buys and exercises it.
abbrev pub life : List (Env × Call)
life =
    (at alice 10, writes 0 (2 * 10 ^ 18) 110 1000 250)
    ∷ (at bob 20, buys 0)
    ∷ (at bob 120, exercises 0)
    ∷ []

life_balances :
    let s = run plain_chain life fresh_pool in
    (s.ledger moto bob ≡ 1_000_999)
    × (s.ledger pill bob ≡ 997_750)
    × (s.ledger moto alice ≡ 999_000)
    × (s.ledger pill alice ≡ 1_002_247)
    × (s.ledger moto treasury ≡ 1)
    × (s.ledger pill treasury ≡ 3)
    × (s.ledger moto pool_address ≡ 0)
unfolding run step perform write_option buy_option exercise collateral_amount strike_value ceil_fee
life_balances = (refl, refl, refl, refl, refl, refl, refl)

-- The pool after the first call, and after the second.
unfoldable pub written : PoolState Balances
unfolding write_option collateral_amount
written =
    after fresh_pool
      (write_option plain_chain (at alice 10) 0 (2 * 10 ^ 18) 110 1000 250 fresh_pool)

unfoldable pub bought : PoolState Balances
unfolding buy_option written ceil_fee
bought = after written (buy_option plain_chain (at bob 20) 0 written)

unfoldable pub exercised : PoolState Balances
unfolding exercise bought ceil_fee strike_value
exercised = after bought (exercise plain_chain (at bob 120) 0 bought)

-- The option that Alice wrote, and as Bob bought it.
abbrev pub sold_call : OptionRecord
sold_call = record {
  id = 0;
  writer = alice;
  buyer = 0;
  strike_price = 2 * 10 ^ 18;
  underlying_amount = 1000;
  premium = 250;
  expiry_block = 110;
  created_block = 10;
  option_type = 0;
  status = 0;
}

abbrev pub bought_call : OptionRecord
bought_call = record sold_call { buyer = bob; status = 1 }

pub written_call : written.options 0 ≡ some sold_call
unfolding written
written_call = refl

pub bought_found : bought.options 0 ≡ some bought_call
unfolding bought
bought_found = refl

pub exercise_returns : exercise plain_chain (at bob 120) 0 bought ≡ ok (true, exercised)
unfolding exercised
exercise_returns = refl

pub buy_returns : buy_option plain_chain (at bob 20) 0 written ≡ ok (true, bought)
unfolding bought
buy_returns = refl

-- Bob lets the option expire, and it is settled.
unfoldable pub settled : PoolState Balances
unfolding settle bought collateral_amount
settled = after bought (settle plain_chain (at treasury 254) 0 bought)

pub settle_call : settle plain_chain (at treasury 254) 0 bought ≡ ok (true, settled)
unfolding settled
settle_call = refl

-- Alice cancels or rolls the option before it is bought.
unfoldable pub cancelled : PoolState Balances
unfolding cancel_option find_option refund_option written collateral_amount cancel_fee
cancelled = after written (cancel_option plain_chain (at alice 50) 0 written)

pub cancel_call : cancel_option plain_chain (at alice 50) 0 written ≡ ok (true, cancelled)
unfolding cancelled
cancel_call = refl

unfoldable pub rolled : PoolState Balances
unfolding roll_option adjust written collateral_amount cancel_fee
rolled = after written (roll_option plain_chain (at alice 50) 0 (3 * 10 ^ 18) 400 77 written)

pub roll_call :
    roll_option plain_chain (at alice 50) 0 (3 * 10 ^ 18) 400 77 written ≡ ok (1, rolled)
unfolding rolled
roll_call = refl
