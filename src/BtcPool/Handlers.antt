-- ===== src/BtcPool/Handlers.antt =====
-- The methods of a type 2 pool, src/contracts/pool/btc-underlying.ts. `buyOption` is that of
-- contract.ts, statement by statement, and runs on the fields that both pools have.
use frogop_pub.Prelude.{
  ℕ, ◌+◌, ◌%◌, Bool, true, not, ◌||◌, none, some, List, ◌∷◌, ltb, leb, ◌==◌, if◌then◌else◌, update,
  length,
}
use frogop_pub.Runtime.{
  Runtime, Env, Action, ok, revert, pure, gets, modify, or_revert, revert_if, ◌>>=◌, ◌>>◌,
  zero_address, u64_mod, bridge_zero, invalid_option_type, values_must_be_positive, expiry_in_past,
  expiry_too_far, underlying_amount_overflow, invalid_writer_pubkey_length,
  btc_collateral_not_found, btc_underlying_not_found, not_purchased, not_buyer, not_yet_expired,
  grace_period_ended, grace_period_not_ended, not_writer, not_open, bridge_escrow_failed,
  bridge_csv_failed, bridge_verify_failed,
}
use frogop_pub.Pool.State.{
  PoolState, OptionRecord, call, status_open, status_purchased, status_exercised, status_expired,
  status_cancelled, exercise_fee_bps, max_expiry_blocks, option_written, option_written_btc,
  option_exercised, option_cancelled, option_expired, btc_claimable, option_cancelled_btc,
  option_expired_btc,
}
use frogop_pub.Pool.Base.{
  find_option, set_option, set_status, registered_pubkey, emit, grace_end, pull, pay,
}
use frogop_pub.Pool.Base as Base
use frogop_pub.Pool.Fees.{sub, strike_value, ceil_fee, cancel_fee}
use frogop_pub.Pool.Write.{fresh_id}
use frogop_pub.Pool.Trade as Trade
use frogop_pub.Storage.Bytes.{zeros}
use frogop_pub.Bridge.Bitcoin.{Output}
use frogop_pub.QuotePool.State.{BridgeCalls}
use frogop_pub.BtcPool.State.{BtcState}

-- What runs on the fields of `OptionsPoolBase`.
abbrev pub shared : {L B A : Type 0} → Action (PoolState L) A → Action (BtcState L B) A
shared m s = elim (m s.pool) [ revert e ↦ revert e | ok (a, p) ↦ ok (a, record s { pool = p }) ]

-- `placeholderBuyer`: 33 bytes, the first of them 0x02
abbrev pub placeholder_buyer : List ℕ
placeholder_buyer = 0x02 ∷ zeros 32

-- The option that `writeOptionBtc` stores.
abbrev pub btc_option :
    Env → (id option_type strike_price expiry_block underlying_amount premium : ℕ) → OptionRecord
btc_option env id option_type strike_price expiry_block underlying_amount premium = record {
  id = id;
  writer = env.sender;
  buyer = zero_address;
  strike_price = strike_price;
  underlying_amount = underlying_amount;
  premium = premium;
  expiry_block = expiry_block;
  created_block = env.block;
  option_type = option_type;
  status = status_open;
}

module _ (rt : Runtime) (br : BridgeCalls) where
  open rt use {Ledger}
  open br use {Bridge, escrow_hash, csv_hash, verify}

  abbrev pub State : Type 0
  State = BtcState Ledger Bridge

  -- `queryEscrowScriptHash`, `queryCsvScriptHash` and `queryVerifyBtcOutput`
  unfoldable pub query_escrow : (buyer_pub writer_pub : List ℕ) → ℕ → Action State (List ℕ)
  query_escrow buyer_pub writer_pub cltv_block s =
      or_revert (escrow_hash buyer_pub writer_pub cltv_block s.bridge) bridge_escrow_failed s

  unfoldable pub query_csv : List ℕ → ℕ → Action State (List ℕ)
  query_csv pubkey csv_blocks s =
      or_revert (csv_hash pubkey csv_blocks s.bridge) bridge_csv_failed s

  unfoldable pub query_verify : List Output → List ℕ → ℕ → Action State Bool
  query_verify outputs hash amount s = elim (verify outputs hash amount s.bridge) [
    | none ↦ revert bridge_verify_failed
    | some (v, b) ↦ ok (v, record s { bridge = b })
  ]

  unfoldable pub on_deployment :
      (underlying premium_token fee_recipient grace_period bridge : ℕ) → Action State (Unit {0})
  on_deployment underlying premium_token fee_recipient grace_period bridge = do
    shared (Base.on_deployment rt underlying premium_token fee_recipient grace_period)
    revert_if (bridge == zero_address) bridge_zero
    modify λ s. record s { bridge_address = bridge }

  unfoldable pub get_btc_bridge : Action State ℕ
  get_btc_bridge = gets λ s. s.bridge_address

  -- the registered key of a writer, which must have 33 bytes
  unfoldable pub writer_pubkey : ℕ → Action State (List ℕ)
  unfolding registered_pubkey
  writer_pubkey writer = do
    pubkey ← shared (registered_pubkey rt writer)
    revert_if (not (length pubkey == 33)) invalid_writer_pubkey_length
    pure pubkey

  -- `setBtcCollateral` and `setEscrowHash`
  unfoldable pub set_btc_collateral : ℕ → ℕ → Action State (Unit {0})
  set_btc_collateral id amount =
      modify λ s. record s { btc_collateral = update s.btc_collateral id amount }

  unfoldable pub set_escrow_hash : ℕ → List ℕ → Action State (Unit {0})
  set_escrow_hash id hash = modify λ s. record s { escrow_hashes = update s.escrow_hashes id hash }

  -- the branch of `writeOptionBtc` for a call: an output of the transaction is the collateral
  unfoldable pub write_btc_call :
      Env → List Output → (strike_price expiry_block underlying_amount premium : ℕ) → Action State ℕ
  unfolding writer_pubkey query_escrow query_verify fresh_id set_option set_btc_collateral
      set_escrow_hash emit
  write_btc_call env outputs strike_price expiry_block underlying_amount premium = do
    revert_if (leb u64_mod underlying_amount) underlying_amount_overflow
    pubkey ← writer_pubkey env.sender
    grace_period ← gets λ s. s.pool.grace_period
    escrow ← query_escrow placeholder_buyer pubkey ((expiry_block + grace_period) % u64_mod)
    verified ← query_verify outputs escrow underlying_amount
    revert_if (not verified) btc_collateral_not_found
    option_id ← shared (fresh_id rt)
    shared (
        set_option option_id
          (btc_option env option_id call strike_price expiry_block underlying_amount premium))
    set_btc_collateral option_id underlying_amount
    set_escrow_hash option_id escrow
    shared (
        emit (
          option_written_btc option_id env.sender call strike_price underlying_amount premium
            expiry_block escrow))
    pure option_id

  -- the branch for a put: the collateral is the strike value in the premium token
  unfoldable pub write_btc_put :
      Env → (option_type strike_price expiry_block underlying_amount premium : ℕ) → Action State ℕ
  unfolding fresh_id set_option pull emit
  write_btc_put env option_type strike_price expiry_block underlying_amount premium = do
    option_id ← shared (fresh_id rt)
    amount ← strike_value rt strike_price underlying_amount
    shared (
        set_option option_id (
          btc_option env option_id option_type strike_price expiry_block underlying_amount premium))
    premium_token ← gets λ s. s.pool.premium_token
    shared (pull rt env premium_token env.sender env.self amount)
    shared (
        emit (
          option_written option_id env.sender option_type strike_price underlying_amount premium
            expiry_block))
    pure option_id

  unfoldable pub write_option_btc :
      Env
      → List Output
      → (option_type strike_price expiry_block underlying_amount premium : ℕ) → Action State ℕ
  write_option_btc env outputs option_type strike_price expiry_block underlying_amount premium = do
    revert_if (ltb 1 option_type) invalid_option_type
    revert_if (strike_price == 0 || underlying_amount == 0 || premium == 0) values_must_be_positive
    revert_if (leb expiry_block env.block) expiry_in_past
    revert_if (ltb ((env.block + max_expiry_blocks) % u64_mod) expiry_block) expiry_too_far
    if option_type == call
        then write_btc_call env outputs strike_price expiry_block underlying_amount premium
        else write_btc_put env option_type strike_price expiry_block underlying_amount premium

  unfoldable pub buy_option : Env → ℕ → Action State Bool
  buy_option env option_id = shared (Trade.buy_option rt env option_id)

  -- the branch of `exercise` for a call: the buyer pays the strike, and the escrow is his to claim
  unfoldable pub exercise_btc_call : Env → OptionRecord → (option_id value : ℕ) → Action State ℕ
  unfolding sub pull emit
  exercise_btc_call env option option_id value = do
    exercise_fee ← ceil_fee rt value exercise_fee_bps
    writer_receives ← sub rt value exercise_fee
    premium_token ← gets λ s. s.pool.premium_token
    fee_recipient ← gets λ s. s.pool.fee_recipient
    shared (pull rt env premium_token env.sender option.writer writer_receives)
    shared (pull rt env premium_token env.sender fee_recipient exercise_fee)
    escrow ← gets λ s. s.escrow_hashes option_id
    btc_amount ← gets λ s. s.btc_collateral option_id
    shared (emit (btc_claimable option_id option.buyer btc_amount escrow))
    pure exercise_fee

  -- the branch for a put: the buyer pays in BTC, and gets the strike value
  unfoldable pub exercise_btc_put : Env → List Output → OptionRecord → (value : ℕ) → Action State ℕ
  unfolding writer_pubkey query_csv query_verify sub pay
  exercise_btc_put env outputs option value = do
    pubkey ← writer_pubkey option.writer
    revert_if (leb u64_mod option.underlying_amount) underlying_amount_overflow
    csv ← query_csv pubkey 6
    verified ← query_verify outputs csv option.underlying_amount
    revert_if (not verified) btc_underlying_not_found
    exercise_fee ← ceil_fee rt value exercise_fee_bps
    buyer_receives ← sub rt value exercise_fee
    premium_token ← gets λ s. s.pool.premium_token
    fee_recipient ← gets λ s. s.pool.fee_recipient
    shared (pay rt env premium_token env.sender buyer_receives)
    shared (pay rt env premium_token fee_recipient exercise_fee)
    pure exercise_fee

  unfoldable pub exercise : Env → List Output → ℕ → Action State Bool
  unfolding find_option set_status emit grace_end
  exercise env outputs option_id = do
    option ← shared (find_option option_id)
    revert_if (not (option.status == status_purchased)) not_purchased
    revert_if (not (env.sender == option.buyer)) not_buyer
    revert_if (ltb env.block option.expiry_block) not_yet_expired
    end ← shared (grace_end option)
    revert_if (leb end env.block) grace_period_ended
    value ← strike_value rt option.strike_price option.underlying_amount
    shared (set_status option_id status_exercised)
    exercise_fee ←
        if option.option_type == call
        then exercise_btc_call env option option_id value
        else exercise_btc_put env outputs option value
    shared (
        emit (
          option_exercised option_id option.buyer option.writer option.option_type
            option.underlying_amount value exercise_fee))
    pure true

  -- the branch of `cancelOption` for a put
  unfoldable pub refund_btc_put : Env → ℕ → OptionRecord → Action State (Unit {0})
  unfolding sub pay emit
  refund_btc_put env option_id option = do
    amount ← strike_value rt option.strike_price option.underlying_amount
    fee ← cancel_fee rt env option amount
    return_amount ← sub rt amount fee
    premium_token ← gets λ s. s.pool.premium_token
    fee_recipient ← gets λ s. s.pool.fee_recipient
    shared (pay rt env premium_token option.writer return_amount)
    shared (if ltb 0 fee then pay rt env premium_token fee_recipient fee else pure tt)
    shared (emit (option_cancelled option_id option.writer return_amount fee))

  unfoldable pub cancel_option : Env → ℕ → Action State Bool
  unfolding find_option set_status emit
  cancel_option env option_id = do
    option ← shared (find_option option_id)
    revert_if (not (env.sender == option.writer)) not_writer
    revert_if (not (option.status == status_open)) not_open
    shared (set_status option_id status_cancelled)
    escrow ← gets λ s. s.escrow_hashes option_id
    btc_amount ← gets λ s. s.btc_collateral option_id
    if option.option_type == call
        then shared (emit (option_cancelled_btc option_id option.writer btc_amount escrow))
        else refund_btc_put env option_id option
    pure true

  -- the branch of `settle` for a put
  unfoldable pub settle_btc_put : Env → ℕ → OptionRecord → Action State (Unit {0})
  unfolding pay emit
  settle_btc_put env option_id option = do
    amount ← strike_value rt option.strike_price option.underlying_amount
    premium_token ← gets λ s. s.pool.premium_token
    shared (pay rt env premium_token option.writer amount)
    shared (emit (option_expired option_id option.writer amount))

  unfoldable pub settle : Env → ℕ → Action State Bool
  unfolding find_option set_status emit grace_end
  settle env option_id = do
    option ← shared (find_option option_id)
    revert_if (not (option.status == status_purchased)) not_purchased
    end ← shared (grace_end option)
    revert_if (ltb env.block end) grace_period_not_ended
    shared (set_status option_id status_expired)
    escrow ← gets λ s. s.escrow_hashes option_id
    btc_amount ← gets λ s. s.btc_collateral option_id
    if option.option_type == call
        then shared (emit (option_expired_btc option_id option.writer btc_amount escrow))
        else settle_btc_put env option_id option
    pure true

  -- the inherited methods
  unfoldable pub register_btc_pubkey : Env → List ℕ → Action State Bool
  register_btc_pubkey env pubkey = shared (Base.register_btc_pubkey rt env pubkey)

  unfoldable pub update_fee_recipient : Env → ℕ → Action State Bool
  update_fee_recipient env to = shared (Base.update_fee_recipient rt env to)
