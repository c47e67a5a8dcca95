-- ===== src/Storage/OptionCells.antt =====
-- `OptionStorage` of src/contracts/pool/storage.ts keeps a map from identifiers to options: what a
-- handler stores is what a later one reads.
use frogop_pub.Prelude.{
  ℕ, ◌<◌, ◌≡◌, ◌&&◌, Option, none, some, List, ◌==◌, if◌then◌else◌, arith, update, ◌∙◌, fun_ext,
  take,
}
use frogop_pub.Runtime.{u256_mod, u64_mod}
use frogop_pub.Pool.State.{OptionRecord}
use frogop_pub.Pool.Base.{change}
use frogop_pub.Storage.Bytes.{==_self, read_u64, read_u64-write_u64, write_u64, drop}
use frogop_pub.Storage.Host.{HostStorage}
use frogop_pub.Storage.Options.{
  pack_blocks, pack_type_and_status, slot_of, put_slot, set_writer, set_buyer_slot,
  set_strike_price, set_underlying_amount, set_premium, set_expiry_and_created_block, get_writer,
  get_buyer, get_strike_price, get_underlying_amount, get_premium, get_expiry_block,
  get_created_block, get_option_type, get_status, set_status_byte, exists_option, read_option,
  store_option,
}

-- The fields fit their types, and the writer is not the zero address.
pub record IsStorable (o : OptionRecord) : Type 0 where
  pub writer : o.writer < u256_mod
  pub someone : 0 < o.writer
  pub buyer : o.buyer < u256_mod
  pub strike_price : o.strike_price < u256_mod
  pub underlying_amount : o.underlying_amount < u256_mod
  pub premium : o.premium < u256_mod
  pub expiry_block : o.expiry_block < u64_mod
  pub created_block : o.created_block < u64_mod

pack_blocks-expiry : (e c : ℕ) → e < u64_mod → read_u64 0 (take 8 (drop 16 (pack_blocks e c))) ≡ e
unfolding pack_blocks write_u64
pack_blocks-expiry e c h = unfold write_u64 in read_u64-write_u64 e h

pack_blocks-created : (e c : ℕ) → c < u64_mod → read_u64 0 (take 8 (drop 24 (pack_blocks e c))) ≡ c
unfolding pack_blocks write_u64
pack_blocks-created e c h = unfold write_u64 in read_u64-write_u64 c h

module _ (host : HostStorage) (base : ℕ) where
  open host use {
    Cells, bytes_of, number_of, number_of-bytes_of, present, present-bytes_of, get-set, has-set,
  }

  slot_of-put_slot :
      (i n i' n' : ℕ) (v : List ℕ) (c : Cells)
      → slot_of host base i' n' (put_slot host base i n v c)
        ≡ (if (i == i') && (n == n') then v else slot_of host base i' n' c)
  unfolding slot_of put_slot
  slot_of-put_slot i n i' n' v c = get-set base i n base i' n' v c ∙ rw (==_self base)

  exists_option-put_slot :
      (i n i' : ℕ) (v : List ℕ) (c : Cells)
      → exists_option host base i' (put_slot host base i n v c)
        ≡ (if (i == i') && (n == 0) then present v else exists_option host base i' c)
  unfolding exists_option put_slot
  exists_option-put_slot i n i' v c = has-set base i n base i' 0 v c ∙ rw (==_self base)

  abbrev word_of : OptionRecord → ℕ → List ℕ
  word_of o n =
      if n == 0
      then bytes_of o.writer
      else (if n == 1
          then bytes_of o.buyer
          else (if n == 2
              then bytes_of o.strike_price
              else (if n == 3
                  then bytes_of o.underlying_amount
                  else (if n == 4
                      then bytes_of o.premium
                      else (if n == 5
                          then pack_blocks o.expiry_block o.created_block
                          else pack_type_and_status o.option_type o.status)))))

  slot_of-store_option :
      (i i' n : ℕ) (o : OptionRecord) (c : Cells)
      → n < 7
      → slot_of host base i' n (store_option host base i o c)
        ≡ (if i == i' then word_of o n else slot_of host base i' n c)
  unfolding store_option set_writer set_buyer_slot set_strike_price set_underlying_amount
      set_premium set_expiry_and_created_block
  slot_of-store_option i i' n o c h = simp slot_of-put_slot (ground arith)

  exists_option-store_option :
      (i i' : ℕ) (o : OptionRecord) (c : Cells)
      → exists_option host base i' (store_option host base i o c)
        ≡ (if i == i' then present (bytes_of o.writer) else exists_option host base i' c)
  unfolding store_option set_writer set_buyer_slot set_strike_price set_underlying_amount
      set_premium set_expiry_and_created_block
  exists_option-store_option i i' o c = simp exists_option-put_slot (ground arith)

  -- What `get` reads after `set`.
  pub read_option-store_option :
      (i i' : ℕ) (o : OptionRecord) (c : Cells)
      → IsStorable o
      → read_option host base i' (store_option host base i o c)
        ≡ (if i == i' then record o { id = i' } else read_option host base i' c)
  unfolding read_option get_writer get_buyer get_strike_price get_underlying_amount get_premium
      get_expiry_block get_created_block get_option_type get_status pack_type_and_status
  read_option-store_option i i' o c h = ground (
    arith,
    slot_of-store_option i i' 0 o c,
    slot_of-store_option i i' 1 o c,
    slot_of-store_option i i' 2 o c,
    slot_of-store_option i i' 3 o c,
    slot_of-store_option i i' 4 o c,
    slot_of-store_option i i' 5 o c,
    slot_of-store_option i i' 6 o c,
    number_of-bytes_of o.writer,
    number_of-bytes_of o.buyer,
    number_of-bytes_of o.strike_price,
    number_of-bytes_of o.underlying_amount,
    number_of-bytes_of o.premium,
    pack_blocks-expiry o.expiry_block o.created_block,
    pack_blocks-created o.expiry_block o.created_block,
  )

  -- The map that the cells stand for.
  abbrev pub view : Cells → ℕ → Option OptionRecord
  view c id = if exists_option host base id c then some (read_option host base id c) else none

  -- `set` of an option whose fields fit, with a writer other than the zero address, under its own
  -- identifier replaces that option of the map and leaves the others.
  pub view-store_option :
      (id : ℕ) (o : OptionRecord) (c : Cells)
      → IsStorable o
      → o.id ≡ id
      → view (store_option host base id o c) ≡ update (view c) id (some o)
  view-store_option id o c h same = fun_ext λ i. ground (
    arith,
    read_option-store_option id i o c h,
    exists_option-store_option id i o c,
    present-bytes_of o.writer,
  )

  -- `setStatus` changes the status of one option of the map, if it is there, and nothing else.
  pub view-set_status_byte :
      (id status : ℕ) (c : Cells)
      → view (set_status_byte host base id status c)
        ≡ update (view c) id (change (λ o. record o { status = status }) (view c id))
  unfolding read_option get_writer get_buyer get_strike_price get_underlying_amount get_premium
      get_expiry_block get_created_block get_option_type get_status pack_type_and_status
      set_status_byte
  view-set_status_byte id status c = fun_ext λ i.
      let word = pack_type_and_status (get_option_type host base id c) status in
      let at = λ (n : ℕ). slot_of-put_slot id 6 i n word c in
      ground (arith, at 0, at 1, at 2, at 3, at 4, at 5, at 6, exists_option-put_slot id 6 i word c)

  -- `setBuyer` changes the buyer of one option of the map, if it is there, and nothing else.
  pub view-set_buyer_slot :
      (id buyer : ℕ) (c : Cells)
      → buyer < u256_mod
      → view (set_buyer_slot host base id buyer c)
        ≡ update (view c) id (change (λ o. record o { buyer = buyer }) (view c id))
  unfolding read_option get_writer get_buyer get_strike_price get_underlying_amount get_premium
      get_expiry_block get_created_block get_option_type get_status set_buyer_slot
  view-set_buyer_slot id buyer c h = fun_ext λ i.
      let word = bytes_of buyer in
      let at = λ (n : ℕ). slot_of-put_slot id 1 i n word c in
      ground (
        arith,
        at 0,
        at 1,
        at 2,
        at 3,
        at 4,
        at 5,
        at 6,
        exists_option-put_slot id 1 i word c,
        number_of-bytes_of buyer,
      )
