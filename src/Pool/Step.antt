-- ===== src/Pool/Step.antt =====
-- The calls of a pool as data, and a history of calls: a call that reverts leaves no trace.
use frogop_pub.Prelude.{ℕ, List, [], ◌∷◌}
use frogop_pub.Runtime.{Runtime, Env, Action, after, pure, ◌>>=◌}
use frogop_pub.Pool.State.{PoolState}
use frogop_pub.Pool.Base.{register_btc_pubkey, update_fee_recipient}
use frogop_pub.Pool.Write.{write_option}
use frogop_pub.Pool.Trade.{buy_option, transfer_option}
use frogop_pub.Pool.Close.{cancel_option, exercise, settle}
use frogop_pub.Pool.Roll.{roll_option}
use frogop_pub.Pool.Batch.{batch_cancel, batch_settle}

-- A state-changing call, with what it reads from the calldata.
pub data Call : Type 0 where
  writes : (option_type strike_price expiry_block underlying_amount premium : ℕ) → Call
  cancels buys exercises settles : ℕ → Call
  transfers : (option_id new_buyer : ℕ) → Call
  rolls : (option_id new_strike_price new_expiry_block new_premium : ℕ) → Call
  cancels_batch settles_batch : ℕ → List ℕ → Call
  registers : List ℕ → Call
  updates_recipient : ℕ → Call

module _ (rt : Runtime) where
  open rt use {Ledger}

  unfoldable pub perform : Env → Call → Action (PoolState Ledger) (Unit {0})
  perform env (writes ty strike expiry amount premium) =
      write_option rt env ty strike expiry amount premium >>= λ _. pure tt
  perform env (cancels id) = cancel_option rt env id >>= λ _. pure tt
  perform env (buys id) = buy_option rt env id >>= λ _. pure tt
  perform env (exercises id) = exercise rt env id >>= λ _. pure tt
  perform env (settles id) = settle rt env id >>= λ _. pure tt
  perform env (transfers id to) = transfer_option rt env id to >>= λ _. pure tt
  perform env (rolls id strike expiry premium) =
      roll_option rt env id strike expiry premium >>= λ _. pure tt
  perform env (cancels_batch count ids) = batch_cancel rt env count ids >>= λ _. pure tt
  perform env (settles_batch count ids) = batch_settle rt env count ids >>= λ _. pure tt
  perform env (registers pubkey) = register_btc_pubkey rt env pubkey >>= λ _. pure tt
  perform env (updates_recipient to) = update_fee_recipient rt env to >>= λ _. pure tt

  unfoldable pub step : Env → Call → PoolState Ledger → PoolState Ledger
  step env c s = after s (perform env c s)

  unfoldable pub run : List (Env × Call) → PoolState Ledger → PoolState Ledger
  run [] s = s
  run ((env, c) ∷ cs) s = run cs (step env c s)
