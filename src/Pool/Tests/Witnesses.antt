-- ===== src/Pool/Tests/Witnesses.antt =====
-- The theorems of the pool at the states of Runs.
use frogop_pub.Prelude.{
  ◌-◌, ◌%◌, some, ◌≢◌, ℕ, sum_below, ◌+◌, ◌≤◌, ◌<◌, ◌≡◌, refl, true, false, arith, List, [], ◌∷◌,
  ◌*◌, ◌^◌, ◌↔◌,
}
use frogop_pub.Pool.Step.{Call, writes, perform, step, buys, exercises, cancels, run}
use frogop_pub.Runtime.{Env, ok, part_of, u64_mod}
use frogop_pub.Pool.Solvency.{IsFresh, IsSolvent, locked}
use frogop_pub.Pool.Solvency.Histories.{run-IsSolvent}
use frogop_pub.Pool.Lifecycle.{Evolves}
use frogop_pub.Pool.Lifecycle.Histories.{run-Evolves}
use frogop_pub.Pool.Payments.{
  exercise_pays, buy_option_pays, settle_pays, cancel_option_pays, roll_option_pays,
}
use frogop_pub.Pool.Deadlines.{exercise-settle_exclusive, exercise_window}
use frogop_pub.Pool.Close.{settle}
use frogop_pub.Pool.Solvency.Settling.{PaysOut, settle_after-run}
use frogop_pub.Pool.Trade.{buy_option}
use frogop_pub.Pool.Write.{write_option}
use frogop_pub.Pool.State.{PoolState, status_purchased, status_expired}
use frogop_pub.Pool.Base.{on_deployment}
use frogop_pub.Pool.Deployment.{on_deployment-IsSolvent}
use frogop_pub.Pool.Tests.Chain.{Balances}
use frogop_pub.Pool.Fees.{ceil_fee}
use frogop_pub.Pool.Amounts.{ceil_fee_exact}
use frogop_pub.Pool.Batch.{batch_cancel, settle_item, has_duplicate, occurs}
use frogop_pub.Pool.Batch.Items.{cancel_all, settle_item-settle}
use frogop_pub.Pool.Batch.Duplicates.{has_duplicate-Nodup}
use frogop_pub.Pool.Batch.Sequences.{batch_cancel-cancel_all}
use mathlib.Core.List.{Nodup}
use frogop_pub.Pool.Fees.{collateral_amount}
use frogop_pub.Pool.Tests.Chain.{
  plain_chain, fresh_pool, at, alice, bob, moto, pill, pool_address, treasury,
}
use frogop_pub.Pool.Tests.Runs.{
  life, written, bought, exercised, sold_call, bought_call, written_call, bought_found,
  exercise_returns, buy_returns, settled, settle_call, cancelled, cancel_call, rolled, roll_call,
}

fresh_pool-IsSolvent : IsSolvent plain_chain pool_address fresh_pool
unfolding locked sum_below
fresh_pool-IsSolvent t = ground arith

run-IsSolvent_example :
    IsFresh (run plain_chain life fresh_pool)
    × IsSolvent plain_chain pool_address (run plain_chain life fresh_pool)
run-IsSolvent_example =
    run-IsSolvent plain_chain pool_address life fresh_pool (ground arith) (λ i le. refl)
      fresh_pool-IsSolvent

written-IsFresh : IsFresh written
unfolding written
written-IsFresh i le = ground arith

abbrev rest_of_life : List (Env × Call)
rest_of_life = (at bob 20, buys 0) ∷ (at bob 120, exercises 0) ∷ (at alice 300, cancels 0) ∷ []

run-Evolves_example : Evolves written (run plain_chain rest_of_life written)
run-Evolves_example =
    run-Evolves plain_chain pool_address rest_of_life written (ground arith) written-IsFresh

exercise_pays_example :
    (exercised.ledger pill bob + 2000 ≡ bought.ledger pill bob)
    × (exercised.ledger pill alice ≡ bought.ledger pill alice + 2000)
    × (exercised.ledger moto bob ≡ bought.ledger moto bob + 999)
    × (exercised.ledger moto treasury ≡ bought.ledger moto treasury + 1)
    × (exercised.ledger moto pool_address + 1000 ≡ bought.ledger moto pool_address)
unfolding bought
exercise_pays_example =
    exercise_pays plain_chain (at bob 120) 0 bought exercised true bought_call bought_found
      (omega arith) (omega arith) (omega arith) (omega arith) (omega arith) (omega arith)
      exercise_returns

buy_option_pays_example :
    (bought.ledger pill bob + 250 ≡ written.ledger pill bob)
    × (bought.ledger pill alice ≡ written.ledger pill alice + 247)
    × (bought.ledger pill treasury ≡ written.ledger pill treasury + 3)
unfolding written
buy_option_pays_example =
    buy_option_pays plain_chain (at bob 20) 0 written bought true sold_call written_call
      (omega arith) (omega arith) buy_returns

-- Bob's purchase is settled by nobody while he exercises it.
exercise-settle_exclusive_example :
    ¬ (settle plain_chain (at alice 120) 0 bought ≡ ok (true, bought))
exercise-settle_exclusive_example =
    exercise-settle_exclusive plain_chain (at bob 120) (at alice 120) 0 bought exercised bought true
      true refl exercise_returns

exercise_window_example : (110 ≤ 120) × (120 < 110 + 144) × (bob ≡ bob) × (◌≡◌ {A = ℕ} 1 1)
unfolding bought
exercise_window_example =
    exercise_window plain_chain (at bob 120) 0 bought exercised true bought_call bought_found
      (omega arith) exercise_returns

settle_pays_example :
    (settled.ledger moto pool_address + 1000 ≡ bought.ledger moto pool_address)
    × (settled.ledger moto alice ≡ bought.ledger moto alice + 1000)
unfolding bought
settle_pays_example =
    settle_pays plain_chain (at treasury 254) 0 bought settled true bought_call bought_found
      (omega arith) settle_call

cancel_option_pays_example :
    (cancelled.ledger moto pool_address + 1000 ≡ written.ledger moto pool_address)
    × (cancelled.ledger moto alice + 10 ≡ written.ledger moto alice + 1000)
    × (cancelled.ledger moto treasury ≡ written.ledger moto treasury + 10)
unfolding written
cancel_option_pays_example =
    cancel_option_pays plain_chain (at alice 50) 0 written cancelled true sold_call written_call
      (omega arith) (omega arith) (omega arith) cancel_call

roll_option_pays_example :
    (◌≡◌ {A = ℕ} 1 written.next_id)
    × (rolled.ledger moto pool_address + 1000 ≡ written.ledger moto pool_address + 1000)
unfolding written
roll_option_pays_example =
    roll_option_pays plain_chain (at alice 50) 0 (3 * 10 ^ 18) 400 77 written rolled 1 sold_call
      written_call (omega arith) (omega arith) roll_call

abbrev two_ids : List ℕ
two_ids = 0 ∷ 7 ∷ []

abbrev repeated_ids : List ℕ
repeated_ids = 3 ∷ 1 ∷ 3 ∷ []

two_different : Nodup two_ids
unfolding has_duplicate occurs
two_different = (has_duplicate-Nodup two_ids).0 refl

batch_cancel-cancel_all_example :
    batch_cancel plain_chain (at alice 50) 2 (0 ∷ 7 ∷ 0 ∷ []) written
    ≡ cancel_all plain_chain (at alice 50) (0 ∷ 7 ∷ []) written
batch_cancel-cancel_all_example =
    batch_cancel-cancel_all plain_chain (at alice 50) 2 (0 ∷ 7 ∷ 0 ∷ []) written (ground arith)
      (omega arith) two_different

settle_item-settle_example : settle_item plain_chain (at treasury 254) 0 2 bought ≡ ok (3, settled)
settle_item-settle_example =
    settle_item-settle plain_chain (at treasury 254) 0 2 bought settled true (omega arith)
      settle_call

has_duplicate-Nodup_example : (has_duplicate repeated_ids ≡ false) ↔ Nodup repeated_ids
has_duplicate-Nodup_example = has_duplicate-Nodup repeated_ids

-- A thousandth of 1001 is 1.001, and the fee is 2.
ceil_fee_exact_example :
    (1001 * 10 ≤ 2 * 10000) × (2 * 10000 < 1001 * 10 + 10000) × (2 ≤ 1001) × (written ≡ written)
unfolding ceil_fee
ceil_fee_exact_example = ceil_fee_exact plain_chain 1001 10 2 written written (omega arith) refl

-- The storage of a contract that is not deployed yet.
abbrev empty_storage : PoolState Balances
empty_storage = record fresh_pool {
  underlying = 0;
  premium_token = 0;
  fee_recipient = 0;
  grace_period = 0;
}

deployment_returns :
    on_deployment plain_chain moto pill treasury 144 empty_storage ≡ ok (tt, fresh_pool)
unfolding on_deployment
deployment_returns = refl

on_deployment-IsSolvent_example :
    (◌≢◌ {A = ℕ} 3 0)
    × (6 ≤ 144)
    × (144 ≤ 4320)
    × (◌≡◌ {A = ℕ} 501 moto)
    × (◌≡◌ {A = ℕ} 502 pill)
    × IsFresh fresh_pool
    × IsSolvent plain_chain pool_address fresh_pool
on_deployment-IsSolvent_example =
    on_deployment-IsSolvent plain_chain pool_address moto pill treasury 144 empty_storage fresh_pool
      tt refl (λ id. refl) deployment_returns

write_returns :
    write_option plain_chain (at alice 10) 0 (2 * 10 ^ 18) 110 1000 250 fresh_pool ≡ ok (0, written)
unfolding written write_option collateral_amount
write_returns = refl

-- Alice writes and Bob buys; the grace period of the option ends at block 254.
abbrev sale : List (Env × Call)
sale = (at alice 10, writes 0 (2 * 10 ^ 18) 110 1000 250) ∷ (at bob 20, buys 0) ∷ []

sold_found : (run plain_chain sale fresh_pool).options 0 ≡ some bought_call
unfolding run step perform write_option buy_option collateral_amount ceil_fee
sold_found = refl

plain_chain-PaysOut : PaysOut plain_chain pool_address
plain_chain-PaysOut token to amount l enough = (
  λ t h. l t h + part_of token to amount t h - part_of token pool_address amount t h,
  ground (arith, enough),
)

settle_after-run_example :
    ((bought_call.status ≡ status_purchased)
      × ((110 + (run plain_chain sale fresh_pool).grace_period) % u64_mod ≤ 254))
    ↔ ((s' : PoolState Balances) × (settle plain_chain
            (at treasury 254)
            0
            (run plain_chain sale fresh_pool)
          ≡ ok (true, s'))
        × (s'.options 0 ≡ some (record bought_call { status = status_expired })))
settle_after-run_example =
    settle_after-run plain_chain sale fresh_pool (at treasury 254) 0 bought_call (ground arith)
      (λ i le. refl) fresh_pool-IsSolvent plain_chain-PaysOut sold_found refl
