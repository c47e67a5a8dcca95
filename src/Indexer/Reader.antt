-- ===== src/Indexer/Reader.antt =====
-- The binary reader of indexer/src/decoder/index.ts.
use frogop_pub.Prelude.{ℕ, zero, suc, ◌+◌, ◌*◌, Option, none, some, List, [], ◌∷◌, take}
use frogop_pub.Storage.Bytes.{drop}

-- type FieldType
pub data FieldType : Type 0 where
  u8 u64 u256 address : FieldType

-- The value of a field: a number, in decimal, or bytes, as `0x` and two digits for each.
pub data Value : Type 0 where
  number : ℕ → Value
  text : List ℕ → Value

-- `v = (v << 8n) | BigInt(this.next())`, so many times; `next` throws (`none`) behind the last byte
unfoldable pub read_big : (rounds v : ℕ) → List ℕ → Option (ℕ × List ℕ)
read_big zero v bytes = some (v, bytes)
read_big (suc rounds) v [] = none
read_big (suc rounds) v (b ∷ bytes) = read_big rounds (v * 256 + b) bytes

abbrev pub number_read : Option (ℕ × List ℕ) → Option (Value × List ℕ)
number_read none = none
number_read (some (v, rest)) = some (number v, rest)

-- `readU8`, `readU64`, `readU256` and `readAddress`; a `slice` that reaches behind the last byte is
-- shorter, and does not throw
unfoldable pub read_field : FieldType → List ℕ → Option (Value × List ℕ)
unfolding read_big
read_field u8 bytes = number_read (read_big 1 0 bytes)
read_field u64 bytes = number_read (read_big 8 0 bytes)
read_field u256 bytes = number_read (read_big 32 0 bytes)
read_field address bytes = some (text (take 32 bytes), drop 32 bytes)

-- the loop of `parseEventData` over the fields
unfoldable pub read_fields : List FieldType → List ℕ → Option (List Value)
unfolding read_field
read_fields [] bytes = some []
read_fields (f ∷ fs) bytes = elim (read_field f bytes) [
  | none ↦ none
  | some (v, rest) ↦ elim (read_fields fs rest) [ none ↦ none | some vs ↦ some (v ∷ vs) ]
]

-- `parseEventData`, on the bytes that the data encodes; no data gives no fields
unfoldable pub parse_event_data : List ℕ → List FieldType → Option (List Value)
unfolding read_fields
parse_event_data [] fields = none
parse_event_data (b ∷ bytes) fields = read_fields fields (b ∷ bytes)

-- The value of a field by its place among the fields.
abbrev pub number_at : ℕ → List Value → ℕ
number_at i [] = 0
number_at zero (number n ∷ vs) = n
number_at zero (text bytes ∷ vs) = 0
number_at (suc i) (v ∷ vs) = number_at i vs

abbrev pub text_at : ℕ → List Value → List ℕ
text_at i [] = []
text_at zero (number n ∷ vs) = []
text_at zero (text bytes ∷ vs) = bytes
text_at (suc i) (v ∷ vs) = text_at i vs
