-- ===== src/Indexer/Emission.antt =====
-- The data of the events as src/contracts/pool writes them with BytesWriter, and what the reader of
-- indexer/src/decoder/index.ts makes of them.
use frogop_pub.Prelude.{
  ℕ, ◌+◌, ◌*◌, ◌<◌, ◌≡◌, refl, Option, none, some, List, [], ◌∷◌, ◌++◌, take, length, arith, ap,
  ◌∙◌, inl, inr, Option-cases,
}
use mathlib.Core.List.{append_assoc}
use frogop_pub.Runtime.{u64_mod, u256_mod}
use frogop_pub.Pool.State.{
  Event, option_written, option_cancelled, option_purchased, option_exercised, option_expired,
  option_transferred, option_rolled, fee_recipient_updated, option_reserved,
  reservation_was_executed, reservation_cancelled, option_restored, option_written_btc,
  btc_claimable, option_cancelled_btc, option_expired_btc,
}
use frogop_pub.Storage.Bytes.{drop}
use frogop_pub.Indexer.Reader.{
  FieldType, u8, u64, u256, address, Value, number, text, read_big, read_field, read_fields,
  number_read,
}
use frogop_pub.Indexer.Decoder.{
  EventType, ev_written, ev_cancelled, ev_purchased, ev_exercised, ev_settled, ev_transferred,
  ev_option_reserved, ev_reservation_executed, ev_reservation_cancelled, ev_option_written_btc,
  ev_btc_claimable, ev_other, TxEvent,
}

-- The number that bytes stand for, the highest first.
unfoldable pub big_endian : ℕ → List ℕ → ℕ
big_endian v [] = v
big_endian v (b ∷ bs) = big_endian (v * 256 + b) bs

-- BytesWriter of @btc-vision/btc-runtime: big-endian, without padding.
pub record BytesWriter : Type 0 where
  pub write_u8 : ℕ → List ℕ
  pub write_u64 : ℕ → List ℕ
  pub write_u256 : ℕ → List ℕ
  pub write_address : ℕ → List ℕ
  pub length-write_u8 : (n : ℕ) → length (write_u8 n) ≡ 1
  pub length-write_u64 : (n : ℕ) → length (write_u64 n) ≡ 8
  pub length-write_u256 : (n : ℕ) → length (write_u256 n) ≡ 32
  pub length-write_address : (n : ℕ) → length (write_address n) ≡ 32
  pub write_u8_exact : (n : ℕ) → n < 256 → big_endian 0 (write_u8 n) ≡ n
  pub write_u64_exact : (n : ℕ) → n < u64_mod → big_endian 0 (write_u64 n) ≡ n
  pub write_u256_exact : (n : ℕ) → n < u256_mod → big_endian 0 (write_u256 n) ≡ n

-- A call of `writeU8`, `writeU64`, `writeU256`, `writeAddress` or `writeBytes` on an event.
pub data Field : Type 0 where
  as_u8 as_u64 as_u256 as_address : ℕ → Field
  as_bytes : List ℕ → Field

-- The fields of an event in the order in which the contracts write them.
unfoldable pub event_fields : Event → List Field
event_fields (option_written id writer ty strike amount premium expiry) =
    as_u256 id
    ∷ as_address writer
    ∷ as_u8 ty
    ∷ as_u256 strike
    ∷ as_u256 amount
    ∷ as_u256 premium
    ∷ as_u64 expiry
    ∷ []
event_fields (option_cancelled id writer return_amount fee) =
    as_u256 id ∷ as_address writer ∷ as_u256 return_amount ∷ as_u256 fee ∷ []
event_fields (option_purchased id buyer writer premium writer_amount block) =
    as_u256 id
    ∷ as_address buyer
    ∷ as_address writer
    ∷ as_u256 premium
    ∷ as_u256 writer_amount
    ∷ as_u64 block
    ∷ []
event_fields (option_exercised id buyer writer ty amount value fee) =
    as_u256 id
    ∷ as_address buyer
    ∷ as_address writer
    ∷ as_u8 ty
    ∷ as_u256 amount
    ∷ as_u256 value
    ∷ as_u256 fee
    ∷ []
event_fields (option_expired id writer amount) =
    as_u256 id ∷ as_address writer ∷ as_u256 amount ∷ []
event_fields (option_transferred id buyer new_buyer) =
    as_u256 id ∷ as_address buyer ∷ as_address new_buyer ∷ []
event_fields (option_rolled id new_id caller strike expiry premium) =
    as_u256 id
    ∷ as_u256 new_id
    ∷ as_address caller
    ∷ as_u256 strike
    ∷ as_u64 expiry
    ∷ as_u256 premium
    ∷ []
event_fields (fee_recipient_updated caller to) = as_address caller ∷ as_address to ∷ []
event_fields (option_reserved id option_id buyer btc_amount hash expiry) =
    as_u256 id
    ∷ as_u256 option_id
    ∷ as_address buyer
    ∷ as_u256 btc_amount
    ∷ as_bytes hash
    ∷ as_u64 expiry
    ∷ []
event_fields (reservation_was_executed id option_id buyer) =
    as_u256 id ∷ as_u256 option_id ∷ as_address buyer ∷ []
event_fields (reservation_cancelled id option_id) = as_u256 id ∷ as_u256 option_id ∷ []
event_fields (option_restored option_id) = as_u256 option_id ∷ []
event_fields (option_written_btc id writer ty strike amount premium expiry hash) =
    as_u256 id
    ∷ as_address writer
    ∷ as_u8 ty
    ∷ as_u256 strike
    ∷ as_u256 amount
    ∷ as_u256 premium
    ∷ as_u64 expiry
    ∷ as_bytes hash
    ∷ []
event_fields (btc_claimable id buyer btc_amount hash) =
    as_u256 id ∷ as_address buyer ∷ as_u256 btc_amount ∷ as_bytes hash ∷ []
event_fields (option_cancelled_btc id writer btc_amount hash) =
    as_u256 id ∷ as_address writer ∷ as_u256 btc_amount ∷ as_bytes hash ∷ []
event_fields (option_expired_btc id writer btc_amount hash) =
    as_u256 id ∷ as_address writer ∷ as_u256 btc_amount ∷ as_bytes hash ∷ []

-- The names with which events.ts calls `super`.
unfoldable pub event_type : Event → EventType
event_type (option_written id writer ty strike amount premium expiry) = ev_written
event_type (option_cancelled id writer return_amount fee) = ev_cancelled
event_type (option_purchased id buyer writer premium writer_amount block) = ev_purchased
event_type (option_exercised id buyer writer ty amount value fee) = ev_exercised
event_type (option_expired id writer amount) = ev_settled
event_type (option_transferred id buyer new_buyer) = ev_transferred
event_type (option_rolled id new_id caller strike expiry premium) = ev_other
event_type (fee_recipient_updated caller to) = ev_other
event_type (option_reserved id option_id buyer btc_amount hash expiry) = ev_option_reserved
event_type (reservation_was_executed id option_id buyer) = ev_reservation_executed
event_type (reservation_cancelled id option_id) = ev_reservation_cancelled
event_type (option_restored option_id) = ev_other
event_type (option_written_btc id writer ty strike amount premium expiry hash) =
    ev_option_written_btc
event_type (btc_claimable id buyer btc_amount hash) = ev_btc_claimable
event_type (option_cancelled_btc id writer btc_amount hash) = ev_cancelled
event_type (option_expired_btc id writer btc_amount hash) = ev_settled

-- The type with which the decoder reads a field.
abbrev pub type_of : Field → FieldType
type_of (as_u8 n) = u8
type_of (as_u64 n) = u64
type_of (as_u256 n) = u256
type_of (as_address n) = address
type_of (as_bytes bytes) = address

-- A field fits its type.
abbrev pub Fits : Field → Type 0
Fits (as_u8 n) = n < 256
Fits (as_u64 n) = n < u64_mod
Fits (as_u256 n) = n < u256_mod
Fits (as_address n) = Unit
Fits (as_bytes bytes) = length bytes ≡ 32

abbrev pub AllFit : List Field → Type 0
AllFit [] = Unit
AllFit (f ∷ fs) = Fits f × AllFit fs

abbrev pub types_of : List Field → List FieldType
types_of [] = []
types_of (f ∷ fs) = type_of f ∷ types_of fs

read_big-append :
    (xs rest : List ℕ) (v : ℕ) → read_big (length xs) v (xs ++ rest) ≡ some (big_endian v xs, rest)
unfolding read_big big_endian
read_big-append [] rest v = refl
read_big-append (x ∷ xs) rest v = read_big-append xs rest (v * 256 + x)

take-append : (xs rest : List ℕ) → take (length xs) (xs ++ rest) ≡ xs
take-append [] rest = refl
take-append (x ∷ xs) rest = rw (take-append xs rest) refl

drop-append : (xs rest : List ℕ) → drop (length xs) (xs ++ rest) ≡ rest
drop-append [] rest = refl
drop-append (x ∷ xs) rest = drop-append xs rest

module _ (bw : BytesWriter) where
  open bw use {write_u8, write_u64, write_u256, write_address}

  -- What a field adds to the buffer.
  abbrev pub write : Field → List ℕ
  write (as_u8 n) = write_u8 n
  write (as_u64 n) = write_u64 n
  write (as_u256 n) = write_u256 n
  write (as_address n) = write_address n
  write (as_bytes bytes) = bytes

  unfoldable pub write_all : List Field → List ℕ
  write_all [] = []
  write_all (f ∷ fs) = write f ++ write_all fs

  -- The value that the decoder gets for a field.
  abbrev pub value_of : Field → Value
  value_of (as_u8 n) = number n
  value_of (as_u64 n) = number n
  value_of (as_u256 n) = number n
  value_of (as_address n) = text (write_address n)
  value_of (as_bytes bytes) = text bytes

  -- An event as it stands in a block.
  unfoldable pub tx_event : ℕ → Event → TxEvent
  unfolding event_fields event_type write_all
  tx_event pool e = record {
    contract_address = pool;
    type = event_type e;
    data_bytes = write_all (event_fields e);
  }

  pub read_number :
      (rounds n : ℕ) (xs rest : List ℕ)
      → length xs ≡ rounds
      → big_endian 0 xs ≡ n
      → number_read (read_big rounds 0 (xs ++ rest)) ≡ some (number n, rest)
  read_number rounds n xs rest len value = rw (← len, read_big-append xs rest 0, value) refl

  read_text :
      (xs rest : List ℕ) → length xs ≡ 32 → read_field address (xs ++ rest) ≡ some (text xs, rest)
  unfolding read_field
  read_text xs rest len = rw (← len, take-append xs rest, drop-append xs rest) refl

  read_field-write :
      (f : Field) (rest : List ℕ)
      → Fits f
      → read_field (type_of f) (write f ++ rest) ≡ some (value_of f, rest)
  unfolding read_field
  read_field-write (as_u8 n) rest h =
      read_number 1 n (write_u8 n) rest (bw.length-write_u8 n) (bw.write_u8_exact n h)
  read_field-write (as_u64 n) rest h =
      read_number 8 n (write_u64 n) rest (bw.length-write_u64 n) (bw.write_u64_exact n h)
  read_field-write (as_u256 n) rest h =
      read_number 32 n (write_u256 n) rest (bw.length-write_u256 n) (bw.write_u256_exact n h)
  read_field-write (as_address n) rest h =
      read_text (write_address n) rest (bw.length-write_address n)
  read_field-write (as_bytes bytes) rest h = read_text bytes rest h

  -- Values in front of those that are read.
  abbrev pub before : List Value → Option (List Value) → Option (List Value)
  before vs none = none
  before vs (some ws) = some (vs ++ ws)

  abbrev pub values_of : List Field → List Value
  values_of [] = []
  values_of (f ∷ fs) = value_of f ∷ values_of fs

  prefixed :
      (v : Value) (vs : List Value) (r : Option (List Value))
      → before (v ∷ []) (before vs r) ≡ before (v ∷ vs) r
  prefixed v vs none = refl
  prefixed v vs (some ws) = refl

  pub read_fields-cons :
      (t : FieldType) (ts : List FieldType) (bytes rest : List ℕ) (v : Value)
      → read_field t bytes ≡ some (v, rest)
      → read_fields (t ∷ ts) bytes ≡ before (v ∷ []) (read_fields ts rest)
  unfolding read_fields
  read_fields-cons t ts bytes rest v e = elim (Option-cases (read_fields ts rest)) [
    | inl fails ↦ ground (arith, e, fails)
    | inr (vs, reads) ↦ ground (arith, e, reads)
  ]

  -- Fields that fit are read back, in front of whatever follows them.
  pub read_fields-write_all :
      (fs : List Field) (more : List FieldType) (rest : List ℕ)
      → AllFit fs
      → read_fields (types_of fs ++ more) (write_all fs ++ rest)
        ≡ before (values_of fs) (read_fields more rest)
  unfolding write_all read_fields
  read_fields-write_all [] more rest h = ground arith
  read_fields-write_all (f ∷ fs) more rest h =
      ap (read_fields (types_of (f ∷ fs) ++ more)) (append_assoc (write f) (write_all fs) rest)
      ∙ read_fields-cons (type_of f) (types_of fs ++ more) (write f ++ (write_all fs ++ rest))
          (write_all fs ++ rest) (value_of f) (read_field-write f (write_all fs ++ rest) h.0)
      ∙ ap (before (value_of f ∷ [])) (read_fields-write_all fs more rest h.1)
      ∙ prefixed (value_of f) (values_of fs) (read_fields more rest)
