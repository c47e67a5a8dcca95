-- ===== src/Pool/Base.antt =====
-- src/contracts/pool/base.ts: deployment, the pubkey registry, the fee recipient and the token calls
-- that every pool inherits, and the access to a stored option.
use frogop_pub.Prelude.{
  ℕ, ◌+◌, ◌%◌, Bool, true, false, ◌||◌, not, Option, none, some, List, [], ◌∷◌, ltb, ◌==◌, update,
  length, take,
}
use frogop_pub.Runtime.{
  Runtime, Env, Action, ok, revert, pure, gets, modify, or_revert, revert_if, ◌>>=◌, ◌>>◌,
  zero_address, u64_mod, fee_recipient_zero, grace_period_too_short, grace_period_too_long,
  option_not_found, pubkey_length, invalid_pubkey_prefix, no_pubkey_registered, only_fee_recipient,
  zero_address_not_allowed, same_address, token_transfer_from_failed, transfer_out_failed,
}
use frogop_pub.Pool.State.{
  OptionRecord, PoolState, Event, fee_recipient_updated, min_grace_period_blocks,
  max_grace_period_blocks,
}

-- `pubkey.length == 33`
unfoldable pub has_pubkey_length : List ℕ → Bool
has_pubkey_length pubkey = length pubkey == 33

-- `prefix == 0x02 || prefix == 0x03`, on the first byte
unfoldable pub has_pubkey_prefix : List ℕ → Bool
has_pubkey_prefix [] = false
has_pubkey_prefix (prefix ∷ rest) = prefix == 0x02 || prefix == 0x03

-- An option that exists is changed; one that does not still does not exist afterwards.
abbrev pub change : (OptionRecord → OptionRecord) → Option OptionRecord → Option OptionRecord
change f none = none
change f (some o) = some (f o)

module _ {L : Type 0} where
  unfoldable pub emit : Event → Action (PoolState L) (Unit {0})
  emit e = modify λ s. record s { events = e ∷ s.events }

  -- `options.exists` and `options.get`, with the revert that the handlers have between them
  unfoldable pub find_option : ℕ → Action (PoolState L) OptionRecord
  find_option id s = or_revert (s.options id) option_not_found s

  -- `options.set`
  unfoldable pub set_option : ℕ → OptionRecord → Action (PoolState L) (Unit {0})
  set_option id o = modify λ s. record s { options = update s.options id (some o) }

  -- `options.setStatus`
  unfoldable pub set_status : ℕ → ℕ → Action (PoolState L) (Unit {0})
  set_status id status = modify λ s. record s {
    options = update s.options id (change (λ o. record o { status = status }) (s.options id));
  }

  -- `options.setBuyer`
  unfoldable pub set_buyer : ℕ → ℕ → Action (PoolState L) (Unit {0})
  set_buyer id buyer = modify λ s. record s {
    options = update s.options id (change (λ o. record o { buyer = buyer }) (s.options id));
  }

  -- `option.expiryBlock + this.getGracePeriod()`, where u64 addition wraps
  unfoldable pub grace_end : OptionRecord → Action (PoolState L) ℕ
  grace_end o = gets λ s. (o.expiry_block + s.grace_period) % u64_mod

-- `data.subarray(0, 33)` of what the storage has for an address, if it has something
abbrev pub first_key_bytes : Option (List ℕ) → Option (List ℕ)
first_key_bytes none = none
first_key_bytes (some bytes) = some (take 33 bytes)

abbrev pub registered_key : {L : Type 0} → PoolState L → ℕ → Option (List ℕ)
registered_key s addr = first_key_bytes (s.pubkeys addr)

module _ (rt : Runtime) where
  open rt use {transfer_from, stored, Ledger}

  -- `_transferFrom`
  unfoldable pub pull : Env → (token from to amount : ℕ) → Action (PoolState Ledger) (Unit {0})
  pull env token from to amount s = elim (transfer_from env.self token from to amount s.ledger) [
    | none ↦ revert token_transfer_from_failed
    | some l ↦ ok (tt, record s { ledger = l })
  ]

  -- `_transfer`
  unfoldable pub pay : Env → (token to amount : ℕ) → Action (PoolState Ledger) (Unit {0})
  pay env token to amount s = elim (transfer_from env.self token env.self to amount s.ledger) [
    | none ↦ revert transfer_out_failed
    | some l ↦ ok (tt, record s { ledger = l })
  ]

  -- `onDeployment`, with the four values that it reads from the calldata
  unfoldable pub on_deployment :
      (underlying premium_token fee_recipient grace_period : ℕ)
      → Action (PoolState Ledger) (Unit {0})
  on_deployment underlying premium_token fee_recipient grace_period = do
    revert_if (fee_recipient == zero_address) fee_recipient_zero
    revert_if (ltb grace_period min_grace_period_blocks) grace_period_too_short
    revert_if (ltb max_grace_period_blocks grace_period) grace_period_too_long
    modify λ s. record s {
      underlying = underlying;
      premium_token = premium_token;
      fee_recipient = fee_recipient;
      grace_period = grace_period;
    }

  -- `registerBtcPubkey`
  unfoldable pub register_btc_pubkey : Env → List ℕ → Action (PoolState Ledger) Bool
  unfolding has_pubkey_length has_pubkey_prefix
  register_btc_pubkey env pubkey = do
    revert_if (not (has_pubkey_length pubkey)) pubkey_length
    revert_if (not (has_pubkey_prefix pubkey)) invalid_pubkey_prefix
    modify λ s. record s { pubkeys = update s.pubkeys env.sender (some (stored pubkey)) }
    pure true

  -- `getRegisteredPubkeyInternal`
  unfoldable pub registered_pubkey : ℕ → Action (PoolState Ledger) (List ℕ)
  registered_pubkey addr s = or_revert (registered_key s addr) no_pubkey_registered s

  -- `updateFeeRecipientMethod`
  unfoldable pub update_fee_recipient : Env → ℕ → Action (PoolState Ledger) Bool
  unfolding emit
  update_fee_recipient env new_recipient = do
    recipient ← gets λ s. s.fee_recipient
    revert_if (not (env.sender == recipient)) only_fee_recipient
    revert_if (new_recipient == zero_address) zero_address_not_allowed
    revert_if (new_recipient == recipient) same_address
    modify λ s. record s { fee_recipient = new_recipient }
    emit (fee_recipient_updated env.sender new_recipient)
    pure true
