-- ===== src/QuotePool/Step.antt =====
-- The calls of a type 1 pool as data, and histories of calls, each with the outputs of the Bitcoin
-- transaction that carries it.
use frogop_pub.Prelude.{ℕ, Bool, List, [], ◌∷◌}
use frogop_pub.Runtime.{Runtime, Env, Action, after, pure, ◌>>=◌}
use frogop_pub.Bridge.Bitcoin.{Output}
use frogop_pub.QuotePool.State.{BridgeCalls}
use frogop_pub.QuotePool.Handlers.{
  State, write_option, cancel_option, settle, reserve_option, execute_reservation,
  cancel_reservation, exercise, register_btc_pubkey, update_fee_recipient,
}

-- A state-changing call, with its calldata.
pub data Call : Type 0 where
  writes : (option_type strike_price expiry_block underlying_amount premium : ℕ) → Call
  cancels settles exercises : ℕ → Call
  reserves executes_reservation cancels_reservation : ℕ → Call
  registers : List ℕ → Call
  updates_recipient : ℕ → Call

module _ (rt : Runtime) (br : BridgeCalls) (zero_present : Bool) where
  abbrev pub Pool : Type 0
  Pool = State rt br zero_present

  unfoldable pub perform : Env → List Output → Call → Action Pool (Unit {0})
  perform env outputs (writes ty strike expiry amount premium) =
      write_option rt br zero_present env ty strike expiry amount premium >>= λ _. pure tt
  perform env outputs (cancels id) = cancel_option rt br zero_present env id >>= λ _. pure tt
  perform env outputs (settles id) = settle rt br zero_present env id >>= λ _. pure tt
  perform env outputs (exercises id) = exercise rt br zero_present env outputs id >>= λ _. pure tt
  perform env outputs (reserves id) = reserve_option rt br zero_present env id >>= λ _. pure tt
  perform env outputs (executes_reservation id) =
      execute_reservation rt br zero_present env outputs id >>= λ _. pure tt
  perform env outputs (cancels_reservation id) =
      cancel_reservation rt br zero_present env id >>= λ _. pure tt
  perform env outputs (registers key) =
      register_btc_pubkey rt br zero_present env key >>= λ _. pure tt
  perform env outputs (updates_recipient to) =
      update_fee_recipient rt br zero_present env to >>= λ _. pure tt

  unfoldable pub step : Env → List Output → Call → Pool → Pool
  step env outputs c s = after s (perform env outputs c s)

  unfoldable pub run : List (Env × List Output × Call) → Pool → Pool
  run [] s = s
  run ((env, outputs, c) ∷ cs) s = run cs (step env outputs c s)
