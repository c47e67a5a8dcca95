-- ===== src/Router/Tests.antt =====
-- Bob's spread: he writes an option and buys the one that Alice wrote.
use frogop_pub.Prelude.{ℕ, ◌≡◌, ◌≢◌, ◌*◌, ◌^◌, refl, none, arith}
use frogop_pub.Runtime.{
  Env, ok, revert, after, zero_address, invalid_pool_address, invalid_buy_option_id,
  write_leg_failed, buy_leg_failed,
}
use frogop_pub.Pool.State.{PoolState}
use frogop_pub.Pool.Write.{write_option}
use frogop_pub.Pool.Trade.{buy_option}
use frogop_pub.Pool.Fees.{collateral_amount, ceil_fee}
use frogop_pub.Pool.Tests.Chain.{Balances, plain_chain, fresh_pool, at, alice, bob, pool_address}
use frogop_pub.Router.Contract.{Leg, execute_spread, execute_dual_write, write_leg, buy_leg}
use frogop_pub.Router.Legs.{
  answer, one_pool, execute_spread-run, execute_spread_reverts, SpreadMade,
}

abbrev dear_call : Leg
dear_call = record {
  option_type = 0;
  strike_price = 3 * 10 ^ 18;
  expiry_block = 110;
  underlying_amount = 1000;
  premium = 90;
}

-- The router at 700, on a chain that shows a pool the wallet behind the router.
abbrev wallet_seen : (wallet caller : ℕ) → ℕ
wallet_seen wallet caller = wallet

abbrev at_router : (wallet block : ℕ) → Env
at_router wallet block = record { sender = wallet; block = block; self = 700 }

-- Two options of Alice, with identifiers 0 and 1.
unfoldable offers : PoolState Balances
unfolding execute_dual_write write_leg write_option collateral_amount
offers = after fresh_pool (
    execute_dual_write (one_pool plain_chain wallet_seen pool_address) (at_router alice 10)
      pool_address dear_call dear_call fresh_pool)

unfoldable spread : PoolState Balances
unfolding execute_spread write_leg buy_leg buy_option offers ceil_fee
spread = after offers (
    execute_spread (one_pool plain_chain wallet_seen pool_address) (at_router bob 20) pool_address
      dear_call 1 offers)

spread_returns :
    execute_spread
      (one_pool plain_chain wallet_seen pool_address)
      (at_router bob 20)
      pool_address
      dear_call
      1
      offers
    ≡ ok (2, spread)
unfolding spread
spread_returns = refl

execute_spread-run_example :
    SpreadMade plain_chain wallet_seen pool_address
      (at_router bob 20)
      pool_address
      1
      2
      dear_call
      offers
      spread
execute_spread-run_example =
    execute_spread-run plain_chain wallet_seen pool_address (at_router bob 20) pool_address 1 2
      dear_call offers spread spread_returns

execute_spread_reverts_example :
    (execute_spread
        (one_pool plain_chain wallet_seen pool_address)
        (at_router bob 20)
        zero_address
        dear_call
        1
        offers
      ≡ revert invalid_pool_address)
    × (execute_spread
          (one_pool plain_chain wallet_seen pool_address)
          (at_router bob 20)
          pool_address
          dear_call
          0
          offers
        ≡ revert invalid_buy_option_id)
    × ((◌≢◌ {A = ℕ} 1 0)
        → answer (write_option plain_chain (at bob 20) 0 (3 * 10 ^ 18) 110 1000 90 offers) ≡ none
        → execute_spread
            (one_pool plain_chain wallet_seen pool_address)
            (at_router bob 20)
            pool_address
            dear_call
            1
            offers
          ≡ revert write_leg_failed)
    × ((◌≢◌ {A = ℕ} 1 0)
        → (id : ℕ) (t : PoolState Balances)
        → write_option plain_chain (at bob 20) 0 (3 * 10 ^ 18) 110 1000 90 offers ≡ ok (id, t)
        → answer (buy_option plain_chain (at bob 20) 1 t) ≡ none
        → execute_spread
            (one_pool plain_chain wallet_seen pool_address)
            (at_router bob 20)
            pool_address
            dear_call
            1
            offers
          ≡ revert buy_leg_failed)
execute_spread_reverts_example =
    execute_spread_reverts plain_chain wallet_seen pool_address (at_router bob 20) 1 dear_call
      offers (omega arith)

dual_returns :
    execute_dual_write
      (one_pool plain_chain wallet_seen pool_address)
      (at_router alice 10)
      pool_address
      dear_call
      dear_call
      fresh_pool
    ≡ ok (0, offers)
unfolding offers
dual_returns = refl
