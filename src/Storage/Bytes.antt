-- ===== src/Storage/Bytes.antt =====
-- The loops of src/contracts/pool/storage.ts and reservation-storage.ts that write a u64 into eight
-- bytes of a 32-byte word, the highest first, and read it back.
use frogop_pub.Prelude.{
  ℕ, zero, suc, ◌+◌, ◌*◌, ◌/◌, ◌%◌, ◌^◌, ◌<◌, ◌==◌, ◌≡◌, true, List, [], ◌∷◌, arith,
}
use frogop_pub.Runtime.{u64_mod}

abbrev pub drop {ℓ} : {A : Type ℓ} → ℕ → List A → List A
drop zero xs = xs
drop (suc n) [] = []
drop (suc n) (x ∷ xs) = drop n xs

-- `data[i]`; a word has 32 bytes, and a byte behind its end reads as 0
abbrev pub byte_at : List ℕ → ℕ → ℕ
byte_at [] i = 0
byte_at (b ∷ bs) zero = b
byte_at (b ∷ bs) (suc i) = byte_at bs i

-- `new Uint8Array(n)`
abbrev pub zeros : ℕ → List ℕ
zeros zero = []
zeros (suc n) = 0 ∷ zeros n

-- `data[at + i] = u8((x >> u64(56 - i * 8)) & 0xFF)` in the last `rounds` rounds: `56 - i * 8` is
-- eight times the rounds that remain after this one.
unfoldable pub write_u64 : (rounds : ℕ) → ℕ → List ℕ
write_u64 zero x = []
write_u64 (suc rounds) x = (x / 256 ^ rounds % 256) ∷ write_u64 rounds x

-- `result = (result << 8) | u64(data[at + i])`; the byte falls on the zeros that the shift leaves.
unfoldable pub read_u64 : ℕ → List ℕ → ℕ
read_u64 result [] = result
read_u64 result (b ∷ bs) = read_u64 (result * 256 % u64_mod + b) bs

-- A u64 that is written is read back.
pub read_u64-write_u64 : (x : ℕ) → x < u64_mod → read_u64 0 (write_u64 8 x) ≡ x
unfolding read_u64 write_u64
read_u64-write_u64 x h = omega arith

-- A key is the key that it was written under.
pub ==_self : (n : ℕ) → (n == n) ≡ true
==_self n = ground arith
