-- ===== src/Pool/State.antt =====
-- The constants (src/contracts/pool/constants.ts), the stored option (storage.ts), the events
-- (events.ts) and the state of a pool (base.ts).
use frogop_pub.Prelude.{ℕ, Option, List}

-- optionType
abbrev pub call : ℕ
call = 0

abbrev pub put : ℕ
put = 1

-- status
abbrev pub status_open : ℕ
status_open = 0

abbrev pub status_purchased : ℕ
status_purchased = 1

abbrev pub status_exercised : ℕ
status_exercised = 2

abbrev pub status_expired : ℕ
status_expired = 3

abbrev pub status_cancelled : ℕ
status_cancelled = 4

abbrev pub status_reserved : ℕ
status_reserved = 5

abbrev pub min_grace_period_blocks : ℕ
min_grace_period_blocks = 6

abbrev pub max_grace_period_blocks : ℕ
max_grace_period_blocks = 4320

abbrev pub max_expiry_blocks : ℕ
max_expiry_blocks = 52560

abbrev pub cancel_fee_bps : ℕ
cancel_fee_bps = 100

abbrev pub buy_fee_bps : ℕ
buy_fee_bps = 100

abbrev pub exercise_fee_bps : ℕ
exercise_fee_bps = 10

abbrev pub max_batch_size : ℕ
max_batch_size = 5

abbrev pub reservation_expiry_blocks : ℕ
reservation_expiry_blocks = 144

abbrev pub precision : ℕ
precision = 1_000_000_000_000_000_000

-- class Option
pub record OptionRecord : Type 0 where
  pub id : ℕ
  pub writer : ℕ
  pub buyer : ℕ
  pub strike_price : ℕ
  pub underlying_amount : ℕ
  pub premium : ℕ
  pub expiry_block : ℕ
  pub created_block : ℕ
  pub option_type : ℕ
  pub status : ℕ

-- The events of a pool, with the fields in the order in which they are written.
pub data Event : Type 0 where
  option_written : (id writer option_type strike_price underlying_amount premium expiry : ℕ) → Event
  option_cancelled : (id writer return_amount fee : ℕ) → Event
  option_purchased : (id buyer writer premium writer_amount block : ℕ) → Event
  option_exercised :
      (id buyer writer option_type underlying_amount strike_value exercise_fee : ℕ) → Event
  option_expired : (id writer collateral_amount : ℕ) → Event
  option_transferred : (id buyer new_buyer : ℕ) → Event
  option_rolled : (id new_id caller strike_price expiry premium : ℕ) → Event
  fee_recipient_updated : (caller new_recipient : ℕ) → Event
  option_reserved :
      (id option_id buyer btc_amount : ℕ) (csv_script_hash : List ℕ) (expiry : ℕ) → Event
  reservation_was_executed : (id option_id buyer : ℕ) → Event
  reservation_cancelled : (id option_id : ℕ) → Event
  option_restored : (option_id : ℕ) → Event
  option_written_btc :
      (id writer option_type strike_price underlying_amount premium expiry : ℕ)
      (escrow_hash : List ℕ)
      → Event
  btc_claimable option_cancelled_btc option_expired_btc :
      (id party btc_amount : ℕ) (escrow_hash : List ℕ) → Event

-- The stored fields of `OptionsPoolBase`, the ledgers of the token contracts (`ledger`) and the
-- events emitted so far, the latest first. `options` is what `OptionStorage` holds: `none` where
-- `exists` is false.
pub record PoolState (L : Type 0) : Type 0 where
  pub underlying : ℕ
  pub premium_token : ℕ
  pub fee_recipient : ℕ
  pub grace_period : ℕ
  pub next_id : ℕ
  pub options : ℕ → Option OptionRecord
  pub pubkeys : ℕ → Option (List ℕ)
  pub ledger : L
  pub events : List Event
