-- ===== src/BtcPool/Step.antt =====
-- The calls of a type 2 pool as data, and histories of calls, each with the outputs of the Bitcoin
-- transaction that carries it.
use frogop_pub.Prelude.{ℕ, List, [], ◌∷◌}
use frogop_pub.Runtime.{Runtime, Env, Action, after, pure, ◌>>=◌}
use frogop_pub.Bridge.Bitcoin.{Output}
use frogop_pub.QuotePool.State.{BridgeCalls}
use frogop_pub.BtcPool.Handlers.{
  write_option_btc, buy_option, exercise, cancel_option, settle, register_btc_pubkey,
  update_fee_recipient,
}
use frogop_pub.BtcPool.Security.{Pool}

-- A state-changing call, with its calldata.
pub data Call : Type 0 where
  writes_btc : (option_type strike_price expiry_block underlying_amount premium : ℕ) → Call
  buys exercises cancels settles : ℕ → Call
  registers : List ℕ → Call
  updates_recipient : ℕ → Call

module _ (rt : Runtime) (br : BridgeCalls) where
  unfoldable pub perform : Env → List Output → Call → Action (Pool rt br) (Unit {0})
  perform env outputs (writes_btc ty strike expiry amount premium) =
      write_option_btc rt br env outputs ty strike expiry amount premium >>= λ _. pure tt
  perform env outputs (buys id) = buy_option rt br env id >>= λ _. pure tt
  perform env outputs (exercises id) = exercise rt br env outputs id >>= λ _. pure tt
  perform env outputs (cancels id) = cancel_option rt br env id >>= λ _. pure tt
  perform env outputs (settles id) = settle rt br env id >>= λ _. pure tt
  perform env outputs (registers key) = register_btc_pubkey rt br env key >>= λ _. pure tt
  perform env outputs (updates_recipient to) = update_fee_recipient rt br env to >>= λ _. pure tt

  unfoldable pub step : Env → List Output → Call → Pool rt br → Pool rt br
  step env outputs c s = after s (perform env outputs c s)

  unfoldable pub run : List (Env × List Output × Call) → Pool rt br → Pool rt br
  run [] s = s
  run ((env, outputs, c) ∷ cs) s = run cs (step env outputs c s)
