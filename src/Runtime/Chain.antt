-- ===== src/Runtime/Chain.antt =====
-- The code that the contracts call and that is not in the repository: SafeMath and the storage of
-- @btc-vision/btc-runtime, and the OP20 token contracts behind `Blockchain.call`.
use frogop_pub.Prelude.{
  ℕ, ◌+◌, ◌-◌, ◌*◌, ◌/◌, ◌^◌, ◌≡◌, ◌&&◌, Option, none, some, List, ltb, ◌==◌, if◌then◌else◌,
}

-- The number of values of a u256 and of a u64.
abbrev pub u256_mod : ℕ
u256_mod = 2 ^ 256

abbrev pub u64_mod : ℕ
u64_mod = 2 ^ 64

-- The caller (`Blockchain.tx.sender`), the block (`Blockchain.block.number`) and the contract's own
-- address (`Blockchain.contractAddress`). An address is the number that its 32 bytes stand for.
pub record Env : Type 0 where
  pub sender : ℕ
  pub block : ℕ
  pub self : ℕ

-- `Address.zero()`
abbrev pub zero_address : ℕ
zero_address = 0

-- What an OP20 holder gains or loses when `amount` of `token` goes to `party`.
abbrev pub part_of : ℕ → ℕ → ℕ → ℕ → ℕ → ℕ
part_of token party amount t h = if (token == t) && (party == h) then amount else 0

-- SafeMath works on u256 and reverts (`none`) where the exact result does not fit. `transfer_from
-- spender token from to amount` is a call of `transferFrom` of the contract `token` by `spender`;
-- `none` is a call that fails, for want of funds, of an allowance or for any reason of the token's.
-- `stored` is what `getStorageAt` gives back after `setStorageAt`.
pub record Runtime : Type 1 where
  pub safe_add : ℕ → ℕ → Option ℕ
  pub safe_sub : ℕ → ℕ → Option ℕ
  pub safe_mul : ℕ → ℕ → Option ℕ
  pub safe_div : ℕ → ℕ → Option ℕ
  pub safe_add_exact :
      (a b : ℕ) → safe_add a b ≡ (if ltb (a + b) u256_mod then some (a + b) else none)
  pub safe_sub_exact : (a b : ℕ) → safe_sub a b ≡ (if ltb a b then none else some (a - b))
  pub safe_mul_exact :
      (a b : ℕ) → safe_mul a b ≡ (if ltb (a * b) u256_mod then some (a * b) else none)
  pub safe_div_exact : (a b : ℕ) → safe_div a b ≡ (if b == 0 then none else some (a / b))
  pub stored : List ℕ → List ℕ
  pub Ledger : Type 0
  pub balance : Ledger → ℕ → ℕ → ℕ
  pub transfer_from : ℕ → ℕ → ℕ → ℕ → ℕ → Ledger → Option Ledger
  -- A transfer that goes through takes the amount from one holder and gives it to the other.
  pub moves :
      (spender token from to amount : ℕ) (l l' : Ledger)
      → transfer_from spender token from to amount l ≡ some l'
      → (t h : ℕ)
      → balance l' t h + part_of token from amount t h ≡ balance l t h + part_of token to amount t h
