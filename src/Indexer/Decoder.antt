-- ===== src/Indexer/Decoder.antt =====
-- The decoder of events, indexer/src/decoder/index.ts.
use frogop_pub.Prelude.{
  ℕ, ◌+◌, ◌-◌, ◌<◌, ◌≡◌, ◌^◌, Bool, true, false, Option, none, some, List, [], ◌∷◌, ◌++◌, leb, ◌==◌,
  if◌then◌else◌,
}
use frogop_pub.Pool.State.{
  status_open, status_purchased, status_exercised, status_expired, status_cancelled,
  status_reserved,
}
use frogop_pub.Indexer.Tables.{
  OptionRow, FeeEventType, cancel_type, buy_type, exercise_type, Statement, insert_option,
  update_option_status, update_option_buyer, insert_fee_event, insert_option_transfer,
  insert_swap_event,
}
use frogop_pub.Indexer.Reader.{u8, u64, u256, address, Value, parse_event_data, number_at, text_at}

-- The types of events. An address is the number of its 32 bytes: `toLowerCase` brings the text to
-- one form.
pub data EventType : Type 0 where
  ev_written ev_cancelled ev_purchased ev_exercised ev_settled ev_transferred : EventType
  ev_swap_executed ev_option_reserved ev_reservation_executed ev_reservation_cancelled : EventType
  ev_option_written_btc ev_btc_claimable ev_other : EventType

pub record TxEvent : Type 0 where
  pub contract_address : ℕ
  pub type : EventType
  pub data_bytes : List ℕ

pub record BlockTx : Type 0 where
  pub id : ℕ
  pub events : List TxEvent

-- `Number` of a decimal text. It is exact below 2 ^ 53, and rounds above.
pub record Javascript : Type 0 where
  pub to_number : ℕ → ℕ
  pub to_number_exact : (n : ℕ) → n < 2 ^ 53 → to_number n ≡ n

abbrev pub default_grace_period_blocks : ℕ
default_grace_period_blocks = 144

-- `poolGracePeriods.get(…) ?? DEFAULT_GRACE_PERIOD_BLOCKS`
abbrev pub grace_or_default : Option ℕ → ℕ
grace_or_default none = default_grace_period_blocks
grace_or_default (some n) = n

-- A fee is recorded where it is not 0.
abbrev pub fee_statements : FeeEventType → (pool option_id fee block tx : ℕ) → List Statement
fee_statements type pool option_id fee block tx =
    if fee == 0
    then []
    else insert_fee_event (record {
      pool_address = pool;
      option_id = option_id;
      event_type = type;
      fee_recipient = pool;
      amount = fee;
      block_number = block;
      tx_id = tx;
    })
      ∷ []

-- `if (!f) return [];`
abbrev pub with_fields : Option (List Value) → (List Value → List Statement) → List Statement
with_fields none k = []
with_fields (some f) k = k f

-- `normalizedEvent.type === EV_SWAP_EXECUTED`
unfoldable pub is_swap : EventType → Bool
is_swap ev_swap_executed = true
is_swap ev_other = false
is_swap ev_written = false
is_swap ev_cancelled = false
is_swap ev_purchased = false
is_swap ev_exercised = false
is_swap ev_settled = false
is_swap ev_transferred = false
is_swap ev_option_reserved = false
is_swap ev_reservation_executed = false
is_swap ev_reservation_cancelled = false
is_swap ev_option_written_btc = false
is_swap ev_btc_claimable = false

module _ (js : Javascript) where
  open js use {to_number}

  -- the row of an option that was written, from its first seven fields
  abbrev pub written_row : (pool block tx grace_period : ℕ) → List Value → OptionRow
  written_row pool block tx grace_period f = record {
    pool_address = pool;
    option_id = to_number (number_at 0 f);
    writer = text_at 1 f;
    buyer = none;
    option_type = number_at 2 f;
    strike_price = number_at 3 f;
    underlying_amt = number_at 4 f;
    premium = number_at 5 f;
    expiry_block = to_number (number_at 6 f);
    grace_end_block = to_number (to_number (number_at 6 f) + grace_period);
    status = status_open;
    created_block = block;
    created_tx = tx;
    updated_block = none;
    updated_tx = none;
  }

  module _ (pool block tx : ℕ) (bytes : List ℕ) where
    unfoldable pub handle_written : ℕ → List Statement
    handle_written grace_period =
        with_fields (parse_event_data bytes (u256 ∷ address ∷ u8 ∷ u256 ∷ u256 ∷ u256 ∷ u64 ∷ []))
          λ f. insert_option (written_row pool block tx grace_period f) ∷ []

    unfoldable pub handle_cancelled : List Statement
    handle_cancelled = with_fields (parse_event_data bytes (u256 ∷ address ∷ u256 ∷ u256 ∷ [])) λ f.
        update_option_status pool (to_number (number_at 0 f)) status_cancelled none block tx
        ∷ fee_statements cancel_type pool (to_number (number_at 0 f)) (number_at 3 f) block tx

    unfoldable pub handle_purchased : List Statement
    handle_purchased =
        with_fields (parse_event_data bytes (u256 ∷ address ∷ address ∷ u256 ∷ u256 ∷ u64 ∷ []))
          λ f.
            update_option_status pool (to_number (number_at 0 f)) status_purchased
              (some (text_at 1 f)) block tx
            ∷ fee_statements buy_type pool (to_number (number_at 0 f))
                (if leb (number_at 4 f) (number_at 3 f) then number_at 3 f - number_at 4 f else 0)
                block tx

    unfoldable pub handle_exercised : List Statement
    handle_exercised =
        with_fields
          (parse_event_data bytes (u256 ∷ address ∷ address ∷ u8 ∷ u256 ∷ u256 ∷ u256 ∷ []))
          λ f.
            update_option_status pool (to_number (number_at 0 f)) status_exercised none block tx
            ∷ fee_statements exercise_type pool (to_number (number_at 0 f)) (number_at 6 f) block tx

    unfoldable pub handle_settled : List Statement
    handle_settled =
        with_fields (parse_event_data bytes (u256 ∷ address ∷ u256 ∷ [])) λ f.
          update_option_status pool (to_number (number_at 0 f)) status_expired none block tx ∷ []

    unfoldable pub handle_transferred : List Statement
    handle_transferred = with_fields (parse_event_data bytes (u256 ∷ address ∷ address ∷ [])) λ f.
        update_option_buyer pool (to_number (number_at 0 f)) (text_at 2 f) block tx
        ∷ insert_option_transfer (record {
          pool_address = pool;
          option_id = to_number (number_at 0 f);
          from_address = text_at 1 f;
          to_address = text_at 2 f;
          block_number = block;
          tx_id = tx;
        })
        ∷ []

    unfoldable pub handle_option_reserved : List Statement
    handle_option_reserved =
        with_fields (parse_event_data bytes (u256 ∷ u256 ∷ address ∷ u256 ∷ address ∷ u64 ∷ []))
          λ f.
            update_option_status pool (to_number (number_at 1 f)) status_reserved none block tx ∷ []

    unfoldable pub handle_reservation_executed : List Statement
    handle_reservation_executed =
        with_fields (parse_event_data bytes (u256 ∷ u256 ∷ address ∷ [])) λ f.
          update_option_status pool (to_number (number_at 1 f)) status_purchased
            (some (text_at 2 f)) block tx
          ∷ update_option_buyer pool (to_number (number_at 1 f)) (text_at 2 f) block tx
          ∷ []

    unfoldable pub handle_reservation_cancelled : List Statement
    handle_reservation_cancelled =
        with_fields (parse_event_data bytes (u256 ∷ u256 ∷ []))
          λ f. update_option_status pool (to_number (number_at 1 f)) status_open none block tx ∷ []

    unfoldable pub handle_written_btc : ℕ → List Statement
    handle_written_btc grace_period =
        with_fields
          (parse_event_data bytes
            (u256 ∷ address ∷ u8 ∷ u256 ∷ u256 ∷ u256 ∷ u64 ∷ u256 ∷ address ∷ []))
          λ f. insert_option (written_row pool block tx grace_period f) ∷ []

    -- `handleSwapExecuted`
    unfoldable pub handle_swap_executed : ℕ → List Statement
    handle_swap_executed token =
        with_fields (parse_event_data bytes (address ∷ u64 ∷ u256 ∷ u256 ∷ [])) λ f.
          insert_swap_event (record {
            token = token;
            block_number = block;
            tx_id = tx;
            buyer = text_at 0 f;
            sats_in = number_at 1 f;
            tokens_out = number_at 2 f;
            fees = number_at 3 f;
          })
          ∷ []

    -- `decodeEvent`
    unfoldable pub decode_event : EventType → (grace_period : ℕ) → List Statement
    decode_event ev_written g = handle_written g
    decode_event ev_cancelled g = handle_cancelled
    decode_event ev_purchased g = handle_purchased
    decode_event ev_exercised g = handle_exercised
    decode_event ev_settled g = handle_settled
    decode_event ev_transferred g = handle_transferred
    decode_event ev_option_reserved g = handle_option_reserved
    decode_event ev_reservation_executed g = handle_reservation_executed
    decode_event ev_reservation_cancelled g = handle_reservation_cancelled
    decode_event ev_option_written_btc g = handle_written_btc g
    decode_event ev_btc_claimable g = []
    decode_event ev_swap_executed g = []
    decode_event ev_other g = []

  -- What the poller hands to the decoder: the tracked pools, the labels of the swap contracts and
  -- the grace periods that it knows.
  module _ (tracked : ℕ → Bool) (labels grace_periods : ℕ → Option ℕ) (block : ℕ) where
    -- a pass of the inner loop of `decodeBlock`
    unfoldable pub decode_one : ℕ → TxEvent → List Statement
    unfolding decode_event is_swap
    decode_one tx event =
        let pool = event.contract_address in
        let grace = grace_or_default (grace_periods pool) in
        let of_pool =
          if tracked pool
          then decode_event pool block tx event.data_bytes event.type grace
          else [] in
        elim (labels pool) [
          | some label ↦
              if is_swap event.type
              then handle_swap_executed pool block tx event.data_bytes label
              else of_pool
          | none ↦ of_pool
        ]

    unfoldable pub decode_tx : ℕ → List TxEvent → List Statement
    decode_tx tx [] = []
    decode_tx tx (event ∷ events) = decode_one tx event ++ decode_tx tx events

    unfoldable pub decode_block : List BlockTx → List Statement
    decode_block [] = []
    decode_block (tx ∷ txs) = decode_tx tx.id tx.events ++ decode_block txs
