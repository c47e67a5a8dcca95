-- ===== src/Bridge/Bitcoin.antt =====
-- What src/contracts/bridge/contract.ts takes from outside the repository: the outputs of the
-- Bitcoin transaction, the script library, sha256 and the NativeSwap contract.
use frogop_pub.Prelude.{ℕ, Option, List}

-- An output of the transaction; `script` is `none` where it has no script.
pub record Output : Type 0 where
  pub script : Option (List ℕ)
  pub value : ℕ

-- The opcodes are those of `BitcoinOpcodes`. `get_quote swap token satoshis` is the call of
-- `getQuote` of the contract at `swap`; `none` is a call that fails.
pub record Bitcoin : Type 1 where
  pub sha256 : List ℕ → List ℕ
  pub csv_timelock : List ℕ → ℕ → List ℕ
  pub op_if : ℕ
  pub op_else : ℕ
  pub op_endif : ℕ
  pub op_checksig : ℕ
  pub op_drop : ℕ
  pub op_checklocktimeverify : ℕ
  pub Swap : Type 0
  pub get_quote : (swap token satoshis : ℕ) → Swap → Option (ℕ × Swap)
