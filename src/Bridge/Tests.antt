-- ===== src/Bridge/Tests.antt =====
-- A Bitcoin whose hash keeps 32 bytes, and the theorems of the bridge on it.
use mathlib.Core.List.{Mem, mem-cons, not-mem-nil}
use mathlib.Core.Logic.Or
use mathlib.Core.Bool.{Bool-set}
use frogop_pub.Prelude.{
  ℕ, ◌+◌, ◌*◌, ◌^◌, ◌≤◌, ◌≡◌, ◌≢◌, refl, true, false, none, some, List, [], ◌∷◌, ◌++◌, take, update,
  arith, length, ◌==◌, ◌&&◌, ◌||◌,
}
use frogop_pub.Runtime.{Env, ok}
use frogop_pub.Storage.Bytes.{zeros}
use frogop_pub.Bridge.Bitcoin.{Bitcoin, Output}
use frogop_pub.Bridge.State.{BridgeState}
use frogop_pub.Bridge.Scripts.{encode_script_number}
use frogop_pub.Bridge.ScriptNumbers.{magnitude, is_negative, encode_script_number-magnitude}
use frogop_pub.Bridge.Contract.{
  same_hash, pays_to, same_bytes, consume, verify_outputs, verify_btc_output, get_btc_price,
  query_price,
}
use frogop_pub.Bridge.Outputs.{Verified, verify_btc_output-Verified, verify_btc_output_refuses}
use frogop_pub.Bridge.Prices.{IsPriced, get_btc_price-IsPriced}

-- A token costs two satoshis.
abbrev pub plain_bitcoin : Bitcoin
plain_bitcoin = record {
  sha256 = λ bytes. take 32 (bytes ++ zeros 32);
  csv_timelock = λ pubkey blocks. pubkey;
  op_if = 0x63;
  op_else = 0x67;
  op_endif = 0x68;
  op_checksig = 0xac;
  op_drop = 0x75;
  op_checklocktimeverify = 0xb1;
  Swap = ℕ;
  get_quote = λ swap token satoshis calls. some (2 * 10 ^ 18, calls + 1);
}

abbrev pub new_bridge : BridgeState ℕ
new_bridge = record {
  native_swap = 77;
  cached_price = λ token. 0;
  cached_block = λ token. 0;
  consumed = λ hash value. false;
  swap = 0;
}

abbrev pub key_hash : List ℕ
key_hash = 2 ∷ (zeros 31)

-- A payment of 500 satoshis to the hash, behind an output with no script.
abbrev pub payment : ℕ → List Output
payment value =
    record { script = none; value = 9 }
    ∷ record { script = some (0 ∷ 0x20 ∷ key_hash); value = value }
    ∷ []

abbrev paid_bridge : BridgeState ℕ
paid_bridge = record new_bridge {
  consumed = λ h v. (v == 500 && same_hash h key_hash) || new_bridge.consumed h v;
}

payment_verified : verify_btc_output (payment 500) key_hash 400 new_bridge ≡ ok (true, paid_bridge)
unfolding verify_btc_output verify_outputs consume pays_to same_bytes
payment_verified = refl

verify_btc_output-Verified_example : Verified (payment 500) key_hash 400 new_bridge paid_bridge
verify_btc_output-Verified_example =
    verify_btc_output-Verified (payment 500) key_hash 400 new_bridge paid_bridge payment_verified

used_up :
    (o : Output)
    → Mem o (payment 500)
    → pays_to key_hash o.script ≡ true
    → paid_bridge.consumed key_hash o.value ≡ true
unfolding pays_to same_hash
used_up o m p =
    Or.elim (Bool-set _ _) (mem-cons.0 m) (λ first. absurd (ground (arith, first)))
      (λ later.
        Or.elim (Bool-set _ _) (mem-cons.0 later) (λ second. rw second refl)
          (λ none_left. absurd (not-mem-nil none_left)))

-- The same payment, made again, is refused.
verify_btc_output_refuses_example :
    verify_btc_output (payment 500) key_hash 400 paid_bridge ≡ ok (false, paid_bridge)
verify_btc_output_refuses_example =
    verify_btc_output_refuses (payment 500) key_hash 400 paid_bridge used_up

abbrev at_block : ℕ → Env
at_block block = record { sender = 5; block = block; self = 77 }

abbrev priced_bridge : BridgeState ℕ
priced_bridge = record new_bridge {
  cached_price = update new_bridge.cached_price 502 (2 * 10 ^ 18);
  cached_block = update new_bridge.cached_block 502 10;
  swap = 1;
}

price_found :
    get_btc_price plain_bitcoin (at_block 10) 502 new_bridge ≡ ok (2 * 10 ^ 18, priced_bridge)
unfolding get_btc_price query_price
price_found = refl

get_btc_price-IsPriced_example :
    (◌≢◌ {A = ℕ} (2 * 10 ^ 18) 0) × IsPriced plain_bitcoin priced_bridge
get_btc_price-IsPriced_example =
    get_btc_price-IsPriced plain_bitcoin (at_block 10) 502 (2 * 10 ^ 18) new_bridge priced_bridge
      (λ token set. absurd (set refl)) price_found

encode_script_number-magnitude_example :
    (magnitude (encode_script_number true 800_000) ≡ 800_000)
    × (◌≢◌ {A = ℕ} 800_000 0 → is_negative (encode_script_number true 800_000) ≡ true)
    × (length (encode_script_number true 800_000) ≤ 9)
encode_script_number-magnitude_example = encode_script_number-magnitude true 800_000 (omega arith)
