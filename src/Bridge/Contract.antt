-- ===== src/Bridge/Contract.antt =====
-- The methods of `NativeSwapBridge` of src/contracts/bridge/contract.ts.
use frogop_pub.Prelude.{
  ℕ, zero, suc, ◌+◌, ◌-◌, ◌%◌, Bool, true, false, not, ◌&&◌, ◌||◌, Option, none, some, List, [],
  ◌∷◌, ◌++◌, ltb, leb, ◌==◌, if◌then◌else◌, update, length,
}
use frogop_pub.Runtime.{
  Env, Action, ok, pure, gets, modify, or_revert, revert_if, ◌>>=◌, ◌>>◌, zero_address, u256_mod,
  native_swap_zero, get_quote_failed, zero_price, csv_blocks_zero, csv_blocks_too_large,
  cltv_block_zero, buyer_pubkey_length, writer_pubkey_length,
}
use frogop_pub.Storage.Bytes.{byte_at, drop}
use frogop_pub.Bridge.Bitcoin.{Bitcoin, Output}
use frogop_pub.Bridge.Scripts.{encode_script_number, i64_negative, i64_abs}
use frogop_pub.Bridge.State.{BridgeState}

abbrev pub max_price_staleness : ℕ
max_price_staleness = 6

-- equality of byte lists, of which the keys of the registry are made
unfoldable pub same_hash : List ℕ → List ℕ → Bool
same_hash [] [] = true
same_hash [] (y ∷ ys) = false
same_hash (x ∷ xs) [] = false
same_hash (x ∷ xs) (y ∷ ys) = x == y && same_hash xs ys

-- `spk[2 + j] == expectedHash[j]` for the first `n` bytes; `spk` starts at its byte 2
unfoldable pub same_bytes : (n : ℕ) → List ℕ → List ℕ → Bool
same_bytes zero xs ys = true
same_bytes (suc n) xs ys = byte_at xs n == byte_at ys n && same_bytes n xs ys

-- an output with a P2WSH script of this hash
unfoldable pub pays_to : List ℕ → Option (List ℕ) → Bool
unfolding same_bytes
pays_to hash none = false
pays_to hash (some spk) =
    length spk == 34
    && (byte_at spk 0 == 0x00 && (byte_at spk 1 == 0x20 && same_bytes 32 (drop 2 spk) hash))

module _ {W : Type 0} where
  -- the guards of the loop of `verifyBtcOutput`, all passed
  abbrev pub usable : BridgeState W → List ℕ → ℕ → Output → Bool
  usable s hash amount output =
      pays_to hash output.script && (leb amount output.value && not (s.consumed hash output.value))

  -- the registry with one more output
  unfoldable pub consume : List ℕ → ℕ → Action (BridgeState W) (Unit {0})
  consume hash value =
      modify λ s. record s { consumed = λ h v. (v == value && same_hash h hash) || s.consumed h v }

  -- the loop of `verifyBtcOutput` over the outputs that are left
  unfoldable pub verify_outputs : List Output → List ℕ → ℕ → Action (BridgeState W) Bool
  unfolding consume
  verify_outputs [] hash amount s = ok (false, s)
  verify_outputs (output ∷ outputs) hash amount s =
      let rest = verify_outputs outputs hash amount s in
      if usable s hash amount output then (consume hash output.value >> pure true) s else rest

  unfoldable pub verify_btc_output : List Output → List ℕ → ℕ → Action (BridgeState W) Bool
  verify_btc_output outputs expected_hash expected_amount =
      verify_outputs outputs expected_hash expected_amount

module _ (bitcoin : Bitcoin) where
  open bitcoin use {Swap, sha256, csv_timelock, get_quote}

  unfoldable pub on_deployment : ℕ → Action (BridgeState Swap) (Unit {0})
  on_deployment native_swap = do
    revert_if (native_swap == zero_address) native_swap_zero
    modify λ s. record s { native_swap = native_swap }

  -- `u256.sub` wraps
  abbrev pub is_cached : BridgeState Swap → (token block : ℕ) → Bool
  is_cached s token block =
      not (s.cached_block token == 0)
      && leb ((block + u256_mod - s.cached_block token) % u256_mod) max_price_staleness

  -- the part of `getBtcPrice` that asks NativeSwap
  unfoldable pub query_price : Env → ℕ → Action (BridgeState Swap) ℕ
  query_price env token = do
    s ← gets λ s. s
    (price, swap) ← or_revert (get_quote s.native_swap token 100_000 s.swap) get_quote_failed
    modify λ s. record s { swap = swap }
    revert_if (price == 0) zero_price
    modify λ s. record s { cached_price = update s.cached_price token price }
    modify λ s. record s { cached_block = update s.cached_block token env.block }
    pure price

  unfoldable pub get_btc_price : Env → ℕ → Action (BridgeState Swap) ℕ
  get_btc_price env token = do
    cached ← gets λ s. is_cached s token env.block
    if cached then (gets λ s. s.cached_price token) else query_price env token

  unfoldable pub generate_csv_script_hash : List ℕ → ℕ → Action (BridgeState Swap) (List ℕ)
  generate_csv_script_hash pubkey csv_blocks = do
    revert_if (csv_blocks == 0) csv_blocks_zero
    revert_if (ltb 65535 csv_blocks) csv_blocks_too_large
    pure (sha256 (csv_timelock pubkey csv_blocks))

  -- the script that `generateEscrowScriptHash` writes
  unfoldable pub escrow_script : List ℕ → List ℕ → ℕ → List ℕ
  escrow_script buyer_pub writer_pub cltv_block =
      let cltv = encode_script_number (i64_negative cltv_block) (i64_abs cltv_block) in
      bitcoin.op_if
      ∷ (length buyer_pub % 256)
      ∷ (buyer_pub
          ++ (bitcoin.op_checksig
              ∷ bitcoin.op_else
              ∷ (length cltv % 256)
              ∷ (cltv
                  ++ (bitcoin.op_checklocktimeverify
                      ∷ bitcoin.op_drop
                      ∷ (length writer_pub % 256)
                      ∷ (writer_pub ++ (bitcoin.op_checksig ∷ bitcoin.op_endif ∷ []))))))

  -- `scriptSize`
  unfoldable pub script_size : List ℕ → List ℕ → ℕ → ℕ
  script_size buyer_pub writer_pub cltv_block =
      let cltv_len = length (encode_script_number (i64_negative cltv_block) (i64_abs cltv_block)) in
      1 + 1 + length buyer_pub + 1 + 1 + 1 + cltv_len + 1 + 1 + 1 + length writer_pub + 1 + 1

  unfoldable pub generate_escrow_script_hash :
      List ℕ → List ℕ → ℕ → Action (BridgeState Swap) (List ℕ)
  generate_escrow_script_hash buyer_pub writer_pub cltv_block = do
    revert_if (cltv_block == 0) cltv_block_zero
    revert_if (not (length buyer_pub == 33)) buyer_pubkey_length
    revert_if (not (length writer_pub == 33)) writer_pubkey_length
    pure (sha256 (escrow_script buyer_pub writer_pub cltv_block))

  unfoldable pub get_native_swap : Action (BridgeState Swap) ℕ
  get_native_swap = gets λ s. s.native_swap
