-- ===== src/Storage/Options.antt =====
-- `OptionStorage` of src/contracts/pool/storage.ts.
use frogop_pub.Prelude.{ℕ, Bool, List, [], ◌∷◌, ◌++◌, take}
use frogop_pub.Pool.State.{OptionRecord}
use frogop_pub.Storage.Bytes.{zeros, byte_at, drop, write_u64, read_u64}
use frogop_pub.Storage.Host.{HostStorage}

-- `packBlocks`
unfoldable pub pack_blocks : (expiry_block created_block : ℕ) → List ℕ
pack_blocks expiry_block created_block =
    zeros 16 ++ (write_u64 8 expiry_block ++ write_u64 8 created_block)

-- `packTypeAndStatus`
unfoldable pub pack_type_and_status : (option_type status : ℕ) → List ℕ
pack_type_and_status option_type status = zeros 30 ++ (option_type ∷ status ∷ [])

module _ (host : HostStorage) (base_pointer : ℕ) where
  open host use {Cells, key, get_storage_at, has_storage_at, set_storage_at, bytes_of, number_of}

  -- `Blockchain.getStorageAt(this.getKey(optionId, slot))`
  unfoldable pub slot_of : ℕ → ℕ → Cells → List ℕ
  slot_of option_id slot c = get_storage_at (key base_pointer option_id slot) c

  -- `Blockchain.setStorageAt(this.getKey(optionId, slot), word)`
  unfoldable pub put_slot : ℕ → ℕ → List ℕ → Cells → Cells
  put_slot option_id slot word = set_storage_at (key base_pointer option_id slot) word

  unfoldable pub set_writer : ℕ → ℕ → Cells → Cells
  set_writer option_id writer = put_slot option_id 0 (bytes_of writer)

  unfoldable pub get_writer : ℕ → Cells → ℕ
  get_writer option_id c = number_of (slot_of option_id 0 c)

  unfoldable pub set_buyer_slot : ℕ → ℕ → Cells → Cells
  set_buyer_slot option_id buyer = put_slot option_id 1 (bytes_of buyer)

  unfoldable pub get_buyer : ℕ → Cells → ℕ
  get_buyer option_id c = number_of (slot_of option_id 1 c)

  unfoldable pub set_strike_price : ℕ → ℕ → Cells → Cells
  set_strike_price option_id value = put_slot option_id 2 (bytes_of value)

  unfoldable pub get_strike_price : ℕ → Cells → ℕ
  get_strike_price option_id c = number_of (slot_of option_id 2 c)

  unfoldable pub set_underlying_amount : ℕ → ℕ → Cells → Cells
  set_underlying_amount option_id value = put_slot option_id 3 (bytes_of value)

  unfoldable pub get_underlying_amount : ℕ → Cells → ℕ
  get_underlying_amount option_id c = number_of (slot_of option_id 3 c)

  unfoldable pub set_premium : ℕ → ℕ → Cells → Cells
  set_premium option_id value = put_slot option_id 4 (bytes_of value)

  unfoldable pub get_premium : ℕ → Cells → ℕ
  get_premium option_id c = number_of (slot_of option_id 4 c)

  unfoldable pub set_expiry_and_created_block :
      (option_id expiry_block created_block : ℕ) → Cells → Cells
  set_expiry_and_created_block option_id expiry_block created_block =
      put_slot option_id 5 (pack_blocks expiry_block created_block)

  unfoldable pub get_expiry_block : ℕ → Cells → ℕ
  get_expiry_block option_id c = read_u64 0 (take 8 (drop 16 (slot_of option_id 5 c)))

  unfoldable pub get_created_block : ℕ → Cells → ℕ
  get_created_block option_id c = read_u64 0 (take 8 (drop 24 (slot_of option_id 5 c)))

  unfoldable pub set_expiry_block : ℕ → ℕ → Cells → Cells
  set_expiry_block option_id block_num c =
      put_slot option_id 5 (pack_blocks block_num (get_created_block option_id c)) c

  unfoldable pub set_created_block : ℕ → ℕ → Cells → Cells
  set_created_block option_id block_num c =
      put_slot option_id 5 (pack_blocks (get_expiry_block option_id c) block_num) c

  unfoldable pub get_option_type : ℕ → Cells → ℕ
  get_option_type option_id c = byte_at (slot_of option_id 6 c) 30

  unfoldable pub get_status : ℕ → Cells → ℕ
  get_status option_id c = byte_at (slot_of option_id 6 c) 31

  unfoldable pub set_option_type : ℕ → ℕ → Cells → Cells
  set_option_type option_id option_type c =
      put_slot option_id 6 (pack_type_and_status option_type (get_status option_id c)) c

  unfoldable pub set_status_byte : ℕ → ℕ → Cells → Cells
  set_status_byte option_id status c =
      put_slot option_id 6 (pack_type_and_status (get_option_type option_id c) status) c

  -- `exists`
  unfoldable pub exists_option : ℕ → Cells → Bool
  exists_option option_id c = has_storage_at (key base_pointer option_id 0) c

  -- `get`
  unfoldable pub read_option : ℕ → Cells → OptionRecord
  read_option option_id c = record {
    id = option_id;
    writer = get_writer option_id c;
    buyer = get_buyer option_id c;
    strike_price = get_strike_price option_id c;
    underlying_amount = get_underlying_amount option_id c;
    premium = get_premium option_id c;
    expiry_block = get_expiry_block option_id c;
    created_block = get_created_block option_id c;
    option_type = get_option_type option_id c;
    status = get_status option_id c;
  }

  -- `set`
  unfoldable pub store_option : ℕ → OptionRecord → Cells → Cells
  store_option option_id option c =
      let c1 = set_writer option_id option.writer c in
      let c2 = set_buyer_slot option_id option.buyer c1 in
      let c3 = set_strike_price option_id option.strike_price c2 in
      let c4 = set_underlying_amount option_id option.underlying_amount c3 in
      let c5 = set_premium option_id option.premium c4 in
      let c6 = set_expiry_and_created_block option_id option.expiry_block option.created_block c5 in
      put_slot option_id 6 (pack_type_and_status option.option_type option.status) c6
