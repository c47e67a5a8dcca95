-- ===== src/Indexer/Statements.antt =====
-- What indexer/src/decoder/index.ts makes of each event that a pool of src/contracts/pool writes.
use mathlib.Core.List.{append_assoc, append-nil}
use frogop_pub.Prelude.{
  ℕ, ◌+◌, ◌-◌, ◌^◌, ◌<◌, ◌≡◌, refl, none, some, List, [], ◌∷◌, ◌++◌, length, leb, if◌then◌else◌,
  arith, ap, sym, ◌∙◌,
}
use frogop_pub.Pool.State.{
  Event, option_written, option_cancelled, option_purchased, option_exercised, option_expired,
  option_transferred, option_rolled, fee_recipient_updated, option_reserved,
  reservation_was_executed, reservation_cancelled, option_restored, option_written_btc,
  btc_claimable, option_cancelled_btc, option_expired_btc, status_open, status_purchased,
  status_exercised, status_expired, status_cancelled, status_reserved,
}
use frogop_pub.Indexer.Tables.{
  OptionRow, Statement, cancel_type, buy_type, exercise_type, insert_option, update_option_status,
  update_option_buyer, insert_option_transfer,
}
use frogop_pub.Indexer.Reader.{
  FieldType, u256, address, number, text, read_fields, read_field, parse_event_data,
}
use frogop_pub.Indexer.Decoder.{fee_statements}
use frogop_pub.Indexer.Emission.{
  BytesWriter, Field, as_u256, as_bytes, event_fields, types_of, AllFit, read_number,
  read_fields-cons, write, write_all, values_of, before, read_fields-write_all, big_endian,
}

-- The numbers that the decoder turns into floating-point numbers are exact.
abbrev pub IsExact : ℕ → Event → Type 0
IsExact grace (option_written id writer ty strike amount premium expiry) =
    (id < 2 ^ 53) × (expiry + grace < 2 ^ 53)
IsExact grace (option_written_btc id writer ty strike amount premium expiry hash) =
    (id < 2 ^ 53) × (expiry + grace < 2 ^ 53)
IsExact grace (option_cancelled id writer return_amount fee) = id < 2 ^ 53
IsExact grace (option_purchased id buyer writer premium writer_amount block) = id < 2 ^ 53
IsExact grace (option_exercised id buyer writer ty amount value fee) = id < 2 ^ 53
IsExact grace (option_expired id writer amount) = id < 2 ^ 53
IsExact grace (option_transferred id buyer new_buyer) = id < 2 ^ 53
IsExact grace (option_reserved id option_id buyer btc_amount hash expiry) = option_id < 2 ^ 53
IsExact grace (reservation_was_executed id option_id buyer) = option_id < 2 ^ 53
IsExact grace (reservation_cancelled id option_id) = option_id < 2 ^ 53
IsExact grace (option_cancelled_btc id writer btc_amount hash) = id < 2 ^ 53
IsExact grace (option_expired_btc id writer btc_amount hash) = id < 2 ^ 53
IsExact grace (option_rolled id new_id caller strike expiry premium) = Unit
IsExact grace (fee_recipient_updated caller to) = Unit
IsExact grace (option_restored option_id) = Unit
IsExact grace (btc_claimable id buyer btc_amount hash) = Unit

-- An event whose fields fit their types, with exact numbers.
abbrev pub IsReadable : ℕ → Event → Type 0
unfolding event_fields
IsReadable grace e = AllFit (event_fields e) × IsExact grace e

module _ (bw : BytesWriter) where
  open bw use {write_address}

  -- The row of an option that was written.
  abbrev pub new_row :
      (pool block tx grace id writer option_type strike_price amount premium expiry : ℕ) → OptionRow
  new_row pool block tx grace id writer option_type strike_price amount premium expiry = record {
    pool_address = pool;
    option_id = id;
    writer = write_address writer;
    buyer = none;
    option_type = option_type;
    strike_price = strike_price;
    underlying_amt = amount;
    premium = premium;
    expiry_block = expiry;
    grace_end_block = expiry + grace;
    status = status_open;
    created_block = block;
    created_tx = tx;
    updated_block = none;
    updated_tx = none;
  }

  -- The statements for an event, from its fields.
  unfoldable pub statements_of : (pool block tx grace : ℕ) → Event → List Statement
  statements_of pool block tx grace (option_written id writer ty strike amount premium expiry) =
      insert_option (new_row pool block tx grace id writer ty strike amount premium expiry) ∷ []
  statements_of pool block tx grace
        (option_written_btc id writer ty strike amount premium expiry hash) =
      insert_option (new_row pool block tx grace id writer ty strike amount premium expiry) ∷ []
  statements_of pool block tx grace (option_cancelled id writer return_amount fee) =
      update_option_status pool id status_cancelled none block tx
      ∷ fee_statements cancel_type pool id fee block tx
  statements_of pool block tx grace (option_purchased id buyer writer premium writer_amount b) =
      update_option_status pool id status_purchased (some (write_address buyer)) block tx
      ∷ fee_statements buy_type pool id
          (if leb writer_amount premium then premium - writer_amount else 0) block tx
  statements_of pool block tx grace (option_exercised id buyer writer ty amount value fee) =
      update_option_status pool id status_exercised none block tx
      ∷ fee_statements exercise_type pool id fee block tx
  statements_of pool block tx grace (option_expired id writer amount) =
      update_option_status pool id status_expired none block tx ∷ []
  statements_of pool block tx grace (option_transferred id buyer new_buyer) =
      update_option_buyer pool id (write_address new_buyer) block tx
      ∷ insert_option_transfer (record {
        pool_address = pool;
        option_id = id;
        from_address = write_address buyer;
        to_address = write_address new_buyer;
        block_number = block;
        tx_id = tx;
      })
      ∷ []
  statements_of pool block tx grace (option_reserved id option_id buyer btc_amount hash expiry) =
      update_option_status pool option_id status_reserved none block tx ∷ []
  statements_of pool block tx grace (reservation_was_executed id option_id buyer) =
      update_option_status pool option_id status_purchased (some (write_address buyer)) block tx
      ∷ update_option_buyer pool option_id (write_address buyer) block tx
      ∷ []
  statements_of pool block tx grace (reservation_cancelled id option_id) =
      update_option_status pool option_id status_open none block tx ∷ []
  -- a fee of the amount that the bytes of the escrow hash spell
  statements_of pool block tx grace (option_cancelled_btc id writer btc_amount hash) =
      update_option_status pool id status_cancelled none block tx
      ∷ fee_statements cancel_type pool id (big_endian 0 hash) block tx
  statements_of pool block tx grace (option_expired_btc id writer btc_amount hash) =
      update_option_status pool id status_expired none block tx ∷ []
  statements_of pool block tx grace (option_rolled id new_id caller strike expiry premium) = []
  statements_of pool block tx grace (fee_recipient_updated caller to) = []
  statements_of pool block tx grace (option_restored option_id) = []
  statements_of pool block tx grace (btc_claimable id buyer btc_amount hash) = []

  parse_some :
      (xs ys : List ℕ) (ts : List FieldType)
      → length xs ≡ 32
      → parse_event_data (xs ++ ys) ts ≡ read_fields ts (xs ++ ys)
  unfolding parse_event_data
  parse_some [] ys ts len = absurd (omega (arith, len))
  parse_some (x ∷ xs) ys ts len = refl

  write_all-append :
      (fs gs : List Field) → write_all bw (fs ++ gs) ≡ write_all bw fs ++ write_all bw gs
  unfolding write_all
  write_all-append [] gs = refl
  write_all-append (f ∷ fs) gs =
      ap (λ zs. write bw f ++ zs) (write_all-append fs gs)
      ∙ sym (append_assoc (write bw f) (write_all bw fs) (write_all bw gs))

  -- An identifier and more fields are read back, and then what is asked for beyond them.
  pub parse_all :
      (id : ℕ) (fs gs : List Field) (more : List FieldType)
      → AllFit (as_u256 id ∷ fs)
      → parse_event_data
          (write_all bw ((as_u256 id ∷ fs) ++ gs))
          (types_of (as_u256 id ∷ fs) ++ more)
        ≡ before bw (values_of bw (as_u256 id ∷ fs)) (read_fields more (write_all bw gs))
  parse_all id fs gs more h =
      let some_bytes : write_all bw ((as_u256 id ∷ fs) ++ gs)
          ≡ bw.write_u256 id ++ write_all bw (fs ++ gs) =
        unfold write_all in refl in
      ap (λ bytes. parse_event_data bytes (types_of (as_u256 id ∷ fs) ++ more)) some_bytes
      ∙ parse_some (bw.write_u256 id) (write_all bw (fs ++ gs)) (types_of (as_u256 id ∷ fs) ++ more)
          (bw.length-write_u256 id)
      ∙ ap (read_fields (types_of (as_u256 id ∷ fs) ++ more))
          (sym some_bytes ∙ write_all-append (as_u256 id ∷ fs) gs)
      ∙ read_fields-write_all bw (as_u256 id ∷ fs) more (write_all bw gs) h

  -- All the fields of an event are read back.
  pub parse_exact :
      (id : ℕ) (fs : List Field)
      → AllFit (as_u256 id ∷ fs)
      → parse_event_data (write_all bw (as_u256 id ∷ fs)) (types_of (as_u256 id ∷ fs))
        ≡ some (values_of bw (as_u256 id ∷ fs))
  unfolding read_fields
  parse_exact id fs h =
      rw (append-nil fs, append-nil (types_of fs), append-nil (values_of bw fs)) at
        (parse_all id fs [] [] h)

  -- Bytes behind the fields, read as a number, or as a number and an address.
  pub read_hash :
      (hash : List ℕ)
      → length hash ≡ 32
      → (read_fields (u256 ∷ []) (write_all bw (as_bytes hash ∷ []))
          ≡ some (number (big_endian 0 hash) ∷ []))
        × (read_fields (u256 ∷ address ∷ []) (write_all bw (as_bytes hash ∷ []))
            ≡ some (number (big_endian 0 hash) ∷ text [] ∷ []))
  unfolding read_fields read_field write_all
  read_hash hash len =
      let read = read_number bw 32 (big_endian 0 hash) hash [] len refl in
      (
        read_fields-cons bw u256 [] (hash ++ []) [] (number (big_endian 0 hash)) read,
        read_fields-cons bw u256 (address ∷ []) (hash ++ []) [] (number (big_endian 0 hash)) read,
      )
