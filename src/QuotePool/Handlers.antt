-- ===== src/QuotePool/Handlers.antt =====
-- The methods of a type 1 pool, src/contracts/pool/btc-quote.ts. `writeOption`, `cancelOption` and
-- `settle` are those of contract.ts, statement by statement, and run on the fields that both pools have.
use frogop_pub.Prelude.{
  ℕ, ◌+◌, ◌%◌, Bool, true, not, Option, none, some, List, ltb, leb, ◌==◌, if◌then◌else◌, update,
  length,
}
use frogop_pub.Runtime.{
  Runtime, Env, Action, ok, revert, pure, gets, modify, or_revert, revert_if, ◌>>=◌, ◌>>◌,
  zero_address, u64_mod, bridge_zero, reservation_not_found, not_open, already_expired,
  expires_before_window, writer_cannot_buy, btc_amount_too_small, btc_amount_overflow, not_pending,
  reservation_expired, btc_output_not_found, not_yet_expired, not_purchased, not_buyer,
  grace_period_ended, strike_value_overflow, btc_strike_not_found, no_csv_hash_stored,
  bridge_price_failed, bridge_csv_failed, bridge_verify_failed,
}
use frogop_pub.Pool.State.{
  PoolState, call, status_open, status_purchased, status_exercised, status_reserved,
  exercise_fee_bps, reservation_expiry_blocks, option_reserved, reservation_was_executed,
  reservation_cancelled, option_restored, option_exercised, precision,
}
use frogop_pub.Pool.Base.{
  find_option, set_status, set_buyer, registered_pubkey, emit, grace_end, pull, pay,
}
use frogop_pub.Pool.Base as Base
use frogop_pub.Pool.Fees.{add, sub, mul, div, strike_value, ceil_fee}
use frogop_pub.Pool.Write as Write
use frogop_pub.Pool.Close as Close
use frogop_pub.Storage.Reservations.{
  Reservation, reservation_pending, reservation_executed, cleared, with_status,
}
use frogop_pub.Bridge.Bitcoin.{Output}
use frogop_pub.QuotePool.State.{QuoteState, BridgeCalls}

-- What runs on the fields of `OptionsPoolBase`.
abbrev pub on_pool : {L B A : Type 0} → Action (PoolState L) A → Action (QuoteState L B) A
on_pool m s = elim (m s.pool) [ revert e ↦ revert e | ok (a, p) ↦ ok (a, record s { pool = p }) ]

-- `this.reservations.set` and `clear`. `zero_present` is what `hasStorageAt` says of a slot into
-- which 32 zero bytes were written; it decides whether such a reservation is there.
abbrev pub kept_reservation : Bool → Reservation → Option Reservation
kept_reservation zero_present r =
    if r.option_id == 0 then (if zero_present then some r else none) else some r

abbrev pub cleared_reservation : Bool → ℕ → Option Reservation
cleared_reservation zero_present id = if zero_present then some (cleared id) else none

module _ (rt : Runtime) (br : BridgeCalls) (zero_present : Bool) where
  open rt use {Ledger}
  open br use {Bridge, price, csv_hash, verify}

  abbrev pub State : Type 0
  State = QuoteState Ledger Bridge

  -- `queryBtcPrice`
  unfoldable pub query_btc_price : Env → ℕ → Action State ℕ
  query_btc_price env token s = elim (price env token s.bridge) [
    | none ↦ revert bridge_price_failed
    | some (p, b) ↦ ok (p, record s { bridge = b })
  ]

  -- `queryCsvScriptHash`
  unfoldable pub query_csv_script_hash : List ℕ → ℕ → Action State (List ℕ)
  query_csv_script_hash pubkey csv_blocks s =
      or_revert (csv_hash pubkey csv_blocks s.bridge) bridge_csv_failed s

  -- `queryVerifyBtcOutput`
  unfoldable pub query_verify_btc_output : List Output → List ℕ → ℕ → Action State Bool
  query_verify_btc_output outputs hash amount s = elim (verify outputs hash amount s.bridge) [
    | none ↦ revert bridge_verify_failed
    | some (v, b) ↦ ok (v, record s { bridge = b })
  ]

  -- `getCsvScriptHashForOption`
  unfoldable pub get_csv_script_hash_for_option : ℕ → Action State (List ℕ)
  get_csv_script_hash_for_option option_id = do
    hash ← gets λ s. s.csv_hashes option_id
    revert_if (length hash == 0) no_csv_hash_stored
    pure hash

  -- `reservations.exists` and `reservations.get`, with the revert between them
  unfoldable pub find_reservation : ℕ → Action State Reservation
  find_reservation id s = or_revert (s.reservations id) reservation_not_found s

  unfoldable pub set_reservation : ℕ → Option Reservation → Action State (Unit {0})
  set_reservation id r = modify λ s. record s { reservations = update s.reservations id r }

  unfoldable pub on_deployment :
      (underlying premium_token fee_recipient grace_period bridge : ℕ) → Action State (Unit {0})
  on_deployment underlying premium_token fee_recipient grace_period bridge = do
    on_pool (Base.on_deployment rt underlying premium_token fee_recipient grace_period)
    revert_if (bridge == zero_address) bridge_zero
    modify λ s. record s { bridge_address = bridge }

  unfoldable pub get_bridge : Action State ℕ
  get_bridge = gets λ s. s.bridge_address

  unfoldable pub get_reservation : ℕ → Action State Reservation
  get_reservation = find_reservation

  unfoldable pub write_option :
      Env → (option_type strike_price expiry_block underlying_amount premium : ℕ) → Action State ℕ
  write_option env option_type strike_price expiry_block underlying_amount premium =
      on_pool
        (Write.write_option rt env option_type strike_price expiry_block underlying_amount premium)

  unfoldable pub cancel_option : Env → ℕ → Action State Bool
  cancel_option env option_id = on_pool (Close.cancel_option rt env option_id)

  unfoldable pub settle : Env → ℕ → Action State Bool
  settle env option_id = on_pool (Close.settle rt env option_id)

  -- `nextReservationId`, read and counted on
  unfoldable pub fresh_reservation_id : Action State ℕ
  unfolding add
  fresh_reservation_id = do
    id ← gets λ s. s.next_reservation_id
    next ← add rt id 1
    modify λ s. record s { next_reservation_id = next }
    pure id

  -- the premium in satoshis: `btcAmount`
  unfoldable pub btc_amount_of : ℕ → ℕ → Action State ℕ
  unfolding mul div
  btc_amount_of premium btc_price = do product ← mul rt premium btc_price; div rt product precision

  unfoldable pub reserve_option : Env → ℕ → Action State ℕ
  unfolding find_option set_status registered_pubkey emit query_btc_price query_csv_script_hash
      set_reservation fresh_reservation_id btc_amount_of
  reserve_option env option_id = do
    option ← on_pool (find_option option_id)
    revert_if (not (option.status == status_open)) not_open
    revert_if (leb option.expiry_block env.block) already_expired
    let window_end = (env.block + reservation_expiry_blocks) % u64_mod
    revert_if (leb option.expiry_block window_end) expires_before_window
    revert_if (env.sender == option.writer) writer_cannot_buy
    premium_token ← gets λ s. s.pool.premium_token
    btc_price ← query_btc_price env premium_token
    btc_amount ← btc_amount_of option.premium btc_price
    revert_if (btc_amount == 0) btc_amount_too_small
    revert_if (leb u64_mod btc_amount) btc_amount_overflow
    writer_pubkey ← on_pool (registered_pubkey rt option.writer)
    csv_script_hash ← query_csv_script_hash writer_pubkey 6
    on_pool (set_status option_id status_reserved)
    reservation_id ← fresh_reservation_id
    set_reservation reservation_id (
        kept_reservation zero_present (record {
          id = reservation_id;
          option_id = option_id;
          buyer = env.sender;
          btc_amount = btc_amount;
          csv_script_hash = csv_script_hash;
          expiry_block = window_end;
          status = reservation_pending;
        }))
    on_pool (
        emit (
          option_reserved reservation_id option_id env.sender btc_amount csv_script_hash
            window_end))
    pure reservation_id

  unfoldable pub execute_reservation : Env → List Output → ℕ → Action State Bool
  unfolding set_status set_buyer emit find_reservation query_verify_btc_output set_reservation
  execute_reservation env outputs reservation_id = do
    reservation ← find_reservation reservation_id
    revert_if (not (reservation.status == reservation_pending)) not_pending
    revert_if (leb reservation.expiry_block env.block) reservation_expired
    revert_if (leb u64_mod reservation.btc_amount) btc_amount_overflow
    verified ← query_verify_btc_output outputs reservation.csv_script_hash reservation.btc_amount
    revert_if (not verified) btc_output_not_found
    on_pool (set_buyer reservation.option_id reservation.buyer)
    on_pool (set_status reservation.option_id status_purchased)
    modify λ s. record s {
      csv_hashes = update s.csv_hashes reservation.option_id reservation.csv_script_hash;
    }
    modify λ s. record s {
      reservations =
          update s.reservations reservation_id
            (with_status reservation_executed (s.reservations reservation_id));
    }
    on_pool (emit (reservation_was_executed reservation_id reservation.option_id reservation.buyer))
    pure true

  unfoldable pub cancel_reservation : Env → ℕ → Action State Bool
  unfolding set_status emit find_reservation set_reservation
  cancel_reservation env reservation_id = do
    reservation ← find_reservation reservation_id
    revert_if (not (reservation.status == reservation_pending)) not_pending
    revert_if (ltb env.block reservation.expiry_block) not_yet_expired
    on_pool (set_status reservation.option_id status_open)
    set_reservation reservation_id (cleared_reservation zero_present reservation_id)
    on_pool (emit (reservation_cancelled reservation_id reservation.option_id))
    on_pool (emit (option_restored reservation.option_id))
    pure true

  -- the payments of `exercise` for a call: the strike in BTC, the underlying less the fee
  unfoldable pub exercise_call :
      Env → List Output → (option_id underlying_amount value : ℕ) → Action State ℕ
  unfolding get_csv_script_hash_for_option query_verify_btc_output ceil_fee sub pay
  exercise_call env outputs option_id underlying_amount value = do
    csv_script_hash ← get_csv_script_hash_for_option option_id
    revert_if (leb u64_mod value) strike_value_overflow
    verified ← query_verify_btc_output outputs csv_script_hash value
    revert_if (not verified) btc_strike_not_found
    exercise_fee ← ceil_fee rt underlying_amount exercise_fee_bps
    buyer_receives ← sub rt underlying_amount exercise_fee
    underlying ← gets λ s. s.pool.underlying
    fee_recipient ← gets λ s. s.pool.fee_recipient
    on_pool (pay rt env underlying env.sender buyer_receives)
    on_pool (pay rt env underlying fee_recipient exercise_fee)
    pure exercise_fee

  -- the payments of `exercise` for a put
  unfoldable pub exercise_put : Env → (writer underlying_amount value : ℕ) → Action State ℕ
  unfolding ceil_fee sub pay pull
  exercise_put env writer underlying_amount value = do
    exercise_fee ← ceil_fee rt value exercise_fee_bps
    buyer_receives ← sub rt value exercise_fee
    underlying ← gets λ s. s.pool.underlying
    premium_token ← gets λ s. s.pool.premium_token
    fee_recipient ← gets λ s. s.pool.fee_recipient
    on_pool (pull rt env underlying env.sender writer underlying_amount)
    on_pool (pay rt env premium_token env.sender buyer_receives)
    on_pool (pay rt env premium_token fee_recipient exercise_fee)
    pure exercise_fee

  unfoldable pub exercise : Env → List Output → ℕ → Action State Bool
  unfolding find_option set_status emit grace_end
  exercise env outputs option_id = do
    option ← on_pool (find_option option_id)
    revert_if (not (option.status == status_purchased)) not_purchased
    revert_if (not (env.sender == option.buyer)) not_buyer
    revert_if (ltb env.block option.expiry_block) not_yet_expired
    end ← on_pool (grace_end option)
    revert_if (leb end env.block) grace_period_ended
    on_pool (set_status option_id status_exercised)
    value ← strike_value rt option.strike_price option.underlying_amount
    exercise_fee ←
        if option.option_type == call
        then exercise_call env outputs option_id option.underlying_amount value
        else exercise_put env option.writer option.underlying_amount value
    on_pool (
        emit (
          option_exercised option_id option.buyer option.writer option.option_type
            option.underlying_amount value exercise_fee))
    pure true

  -- the inherited methods
  unfoldable pub register_btc_pubkey : Env → List ℕ → Action State Bool
  register_btc_pubkey env pubkey = on_pool (Base.register_btc_pubkey rt env pubkey)

  unfoldable pub update_fee_recipient : Env → ℕ → Action State Bool
  update_fee_recipient env to = on_pool (Base.update_fee_recipient rt env to)
