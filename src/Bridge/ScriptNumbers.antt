-- ===== src/Bridge/ScriptNumbers.antt =====
-- The script numbers of src/contracts/bridge/contract.ts stand for the integers that they encode.
use frogop_pub.Prelude.{
  ℕ, zero, suc, ◌+◌, ◌*◌, ◌/◌, ◌%◌, ◌^◌, ◌≤◌, ◌<◌, ◌≡◌, ◌≢◌, refl, Bool, false, List, [], ◌∷◌, ◌++◌,
  leb, ◌==◌, length, arith, ◌∙◌, inl, inr, Bool-cases,
}
use frogop_pub.Runtime.{u64_mod}
use frogop_pub.Bridge.Bitcoin.{Bitcoin}
use frogop_pub.Bridge.Scripts.{low_bytes, sign_last, encode_script_number}
use frogop_pub.Bridge.Contract.{escrow_script, script_size}

-- How Bitcoin reads a script number: little-endian, with the sign in the top bit of the last byte.
pub magnitude : List ℕ → ℕ
magnitude [] = 0
magnitude (b ∷ []) = b % 128
magnitude (b ∷ c ∷ bs) = b + 256 * magnitude (c ∷ bs)

pub is_negative : List ℕ → Bool
is_negative [] = false
is_negative (b ∷ []) = leb 128 b
is_negative (b ∷ c ∷ bs) = is_negative (c ∷ bs)

-- Little-endian bytes with no sign.
plain : List ℕ → ℕ
plain [] = 0
plain (b ∷ bs) = b + 256 * plain bs

abbrev AreBytes : List ℕ → Type 0
AreBytes [] = Unit
AreBytes (b ∷ bs) = (b < 256) × AreBytes bs

plain-low_bytes : (rounds v : ℕ) → v < 256 ^ rounds → plain (low_bytes rounds v) ≡ v
unfolding plain low_bytes
plain-low_bytes zero v h = omega arith
plain-low_bytes (suc rounds) v h = ground (arith, plain-low_bytes rounds (v / 256) (omega arith))

low_bytes-AreBytes : (rounds v : ℕ) → AreBytes (low_bytes rounds v)
unfolding low_bytes
low_bytes-AreBytes zero v = tt
low_bytes-AreBytes (suc rounds) v = ground (arith, low_bytes-AreBytes rounds (v / 256))

magnitude-sign_last :
    (negative : Bool) (bs : List ℕ) → AreBytes bs → magnitude (sign_last negative bs) ≡ plain bs
unfolding magnitude sign_last plain
magnitude-sign_last negative [] h = refl
magnitude-sign_last negative (b ∷ []) h = ground arith
magnitude-sign_last negative (b ∷ c ∷ []) h = ground arith
magnitude-sign_last negative (b ∷ c ∷ d ∷ bs) h =
    ground (arith, magnitude-sign_last negative (c ∷ d ∷ bs) h.1)

is_negative-sign_last :
    (negative : Bool) (b : ℕ) (bs : List ℕ)
    → AreBytes (b ∷ bs)
    → is_negative (sign_last negative (b ∷ bs)) ≡ negative
unfolding is_negative sign_last
is_negative-sign_last negative b [] h = ground arith
is_negative-sign_last negative b (c ∷ []) h = ground arith
is_negative-sign_last negative b (c ∷ d ∷ bs) h =
    ground (arith, is_negative-sign_last negative c (d ∷ bs) h.1)

length-sign_last : (negative : Bool) (bs : List ℕ) → length (sign_last negative bs) ≤ length bs + 1
unfolding sign_last
length-sign_last negative [] = omega arith
length-sign_last negative (b ∷ []) = ground arith
length-sign_last negative (b ∷ c ∷ bs) = omega (arith, length-sign_last negative (c ∷ bs))

length-low_bytes : (rounds v : ℕ) → length (low_bytes rounds v) ≤ rounds
unfolding low_bytes
length-low_bytes zero v = omega arith
length-low_bytes (suc rounds) v = ground (arith, length-low_bytes rounds (v / 256))

low_bytes_nonzero :
    (rounds v : ℕ) → v ≢ 0 → low_bytes (suc rounds) v ≡ (v % 256) ∷ low_bytes rounds (v / 256)
unfolding low_bytes
low_bytes_nonzero rounds v h = ground (arith, h)

-- A number with a sign, of an absolute value below 2 ^ 64, is encoded in at most nine bytes, from
-- which Bitcoin reads its absolute value and, where it is not zero, its sign.
pub encode_script_number-magnitude :
    (negative : Bool) (abs_value : ℕ)
    → abs_value < u64_mod
    → (magnitude (encode_script_number negative abs_value) ≡ abs_value)
      × (abs_value ≢ 0 → is_negative (encode_script_number negative abs_value) ≡ negative)
      × (length (encode_script_number negative abs_value) ≤ 9)
unfolding encode_script_number
encode_script_number-magnitude negative v h =
    let bytes = low_bytes-AreBytes 8 v in
    let value = plain-low_bytes 8 v (omega arith) in
    (
      elim (Bool-cases (v == 0)) [
        | inl none ↦ rw none (unfold magnitude in ground (arith, none))
        | inr some ↦ rw some (magnitude-sign_last negative (low_bytes 8 v) bytes ∙ value)
      ],
      λ nonzero.
          (let some : (v == 0) ≡ false = ground (arith, nonzero) in
            let more = low_bytes_nonzero 7 v nonzero in
            rw (some, more)
              (is_negative-sign_last negative (v % 256) (low_bytes 7 (v / 256))
                (rw more at bytes))),
      ground (arith, length-sign_last negative (low_bytes 8 v), length-low_bytes 8 v),
    )

length-append : (xs ys : List ℕ) → length (xs ++ ys) ≡ length xs + length ys
length-append [] ys = omega arith
length-append (x ∷ xs) ys = omega (arith, length-append xs ys)

module _ (bitcoin : Bitcoin) where
  -- The escrow script fills the buffer that is made for it exactly.
  pub length-escrow_script :
      (buyer_pub writer_pub : List ℕ) (cltv_block : ℕ)
      → length (escrow_script bitcoin buyer_pub writer_pub cltv_block)
        ≡ script_size bitcoin buyer_pub writer_pub cltv_block
  unfolding escrow_script script_size
  length-escrow_script buyer_pub writer_pub cltv_block = simp length-append (omega arith)
