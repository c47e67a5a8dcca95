-- ===== src/Bridge/Scripts.antt =====
-- The script numbers of src/contracts/bridge/contract.ts.
use frogop_pub.Prelude.{
  ℕ, zero, suc, ◌+◌, ◌-◌, ◌/◌, ◌%◌, Bool, List, [], ◌∷◌, leb, ltb, ◌==◌, if◌then◌else◌,
}

-- `while (absValue > 0) { result.push(u8(absValue & 0xff)); absValue >>= 8; }`: a u64 is used up in
-- eight rounds.
unfoldable pub low_bytes : (rounds : ℕ) → ℕ → List ℕ
low_bytes zero v = []
low_bytes (suc rounds) v =
    let rest = low_bytes rounds (v / 256) in if ltb 0 v then (v % 256) ∷ rest else []

-- What is done with the last byte: where its top bit is set, a byte with the sign follows; else the
-- sign goes to that bit. `| 0x80` on a byte below 128 adds 128.
unfoldable pub sign_last : Bool → List ℕ → List ℕ
sign_last negative [] = []
sign_last negative (b ∷ []) =
    if leb 128 b
    then b ∷ ((if negative then 128 else 0) ∷ [])
    else (if negative then (b + 128) ∷ [] else b ∷ [])
sign_last negative (b ∷ c ∷ bs) = b ∷ sign_last negative (c ∷ bs)

-- `encodeScriptNumber`, of an i64 given by its sign and its absolute value
unfoldable pub encode_script_number : Bool → ℕ → List ℕ
encode_script_number negative abs_value =
    if abs_value == 0 then [] else sign_last negative (low_bytes 8 abs_value)

-- `i64(x)` of a u64: its sign and its absolute value
abbrev pub i64_negative : ℕ → Bool
i64_negative x = leb 0x8000_0000_0000_0000 x

abbrev pub i64_abs : ℕ → ℕ
i64_abs x = if i64_negative x then 0x1_0000_0000_0000_0000 - x else x
