-- ===== src/Runtime/Revert.antt =====
-- A call of a contract ends with a value or with `throw new Revert(message)`. There is a constructor
-- of `Reason` for each message of the contracts of src/contracts, `arithmetic` for a
-- revert of SafeMath.
use frogop_pub.Prelude.{◌≡◌, refl, arith, Bool, true, false, Option, none, some, ◌⊎◌, inl, inr}

pub data Reason : Type 0 where
  arithmetic token_transfer_from_failed transfer_out_failed : Reason
  option_not_found invalid_option_type values_must_be_positive expiry_in_past expiry_too_far :
      Reason
  not_writer not_open already_expired writer_cannot_buy not_purchased not_buyer : Reason
  not_yet_expired grace_period_ended grace_period_not_ended invalid_recipient already_owner : Reason
  empty_batch batch_too_large duplicate_id_in_batch : Reason
  fee_recipient_zero grace_period_too_short grace_period_too_long : Reason
  pubkey_length invalid_pubkey_prefix no_pubkey_registered : Reason
  only_fee_recipient zero_address_not_allowed same_address : Reason
  only_owner treasury_zero index_out_of_bounds invalid_pool_address invalid_underlying : Reason
  invalid_premium_token pool_already_registered tokens_must_differ pool_already_exists : Reason
  pool_template_not_set treasury_not_set deployment_failed : Reason
  zero_underlying zero_premium_token : Reason
  native_swap_zero get_quote_failed zero_price csv_blocks_zero csv_blocks_too_large : Reason
  cltv_block_zero buyer_pubkey_length writer_pubkey_length : Reason
  bridge_zero reservation_not_found expires_before_window btc_amount_too_small : Reason
  btc_amount_overflow not_pending reservation_expired btc_output_not_found : Reason
  strike_value_overflow btc_strike_not_found no_csv_hash_stored : Reason
  bridge_price_failed bridge_csv_failed bridge_verify_failed : Reason
  invalid_buy_option_id write_leg_failed buy_leg_failed : Reason
  write_leg_1_failed write_leg_2_failed : Reason
  underlying_amount_overflow invalid_writer_pubkey_length btc_collateral_not_found : Reason
  btc_underlying_not_found bridge_escrow_failed : Reason

pub data Result {ℓ} (A : Type ℓ) : Type ℓ where
  ok : A → Result A
  revert : Reason → Result A

-- An operation on a contract's state `S`. A revert carries no state: the chain undoes the call.
abbrev pub Action : Type 0 → Type 0 → Type 0
Action S A = S → Result (A × S)

abbrev pub pure : {S A : Type 0} → A → Action S A
pure a s = ok (a, s)

abbrev pub throw : {S A : Type 0} → Reason → Action S A
throw e s = revert e

infixl 5 ◌>>=◌ ◌>>◌
abbrev pub ◌>>=◌ : {S A B : Type 0} → Action S A → (A → Action S B) → Action S B
◌>>=◌ m f s = elim (m s) [ revert e ↦ revert e | ok (a, s') ↦ f a s' ]

abbrev pub ◌>>◌ : {S B : Type 0} → Action S (Unit {0}) → Action S B → Action S B
m >> k = m >>= λ _. k

-- `if (c) { throw new Revert(e); }`
abbrev pub revert_if : {S : Type 0} → Bool → Reason → Action S (Unit {0})
revert_if true e s = revert e
revert_if false e s = ok (tt, s)

abbrev pub gets : {S A : Type 0} → (S → A) → Action S A
gets f s = ok (f s, s)

abbrev pub modify : {S : Type 0} → (S → S) → Action S (Unit {0})
modify f s = ok (tt, f s)

abbrev pub or_revert : {S A : Type 0} → Option A → Reason → Action S A
or_revert none e s = revert e
or_revert (some a) e s = ok (a, s)

-- The state after a call: a revert leaves it as it was.
abbrev pub after : {S A : Type 0} → S → Result (A × S) → S
after s (ok (a, s')) = s'
after s (revert e) = s

abbrev pub IsOk : {A : Type 0} → Result A → Type 0
IsOk {A} r = (a : A) × (r ≡ ok a)

-- Two calls run alike if their first parts do, and their second parts wherever the first leads.
pub >>=-cong :
    {S A B : Type 0} (m : Action S A) (f g : A → Action S B) (s : S)
    → ((a : A) (s' : S) → f a s' ≡ g a s')
    → (m >>= f) s ≡ (m >>= g) s
>>=-cong {S} {A} {B} m f g s h = by_result (m s)
  where
    by_result :
        (r : Result (A × S))
        → ◌≡◌ {A = Result (B × S)}
            (elim r [ revert e ↦ revert e | ok (a, s') ↦ f a s' ])
            (elim r [ revert e ↦ revert e | ok (a, s') ↦ g a s' ])
    by_result (ok (a, s')) = h a s'
    by_result (revert e) = refl

pub >>=-assoc :
    {S A B C : Type 0} (m : Action S A) (f : A → Action S B) (g : B → Action S C) (s : S)
    → ((m >>= f) >>= g) s ≡ (m >>= λ a. f a >>= g) s
>>=-assoc m f g s = ground arith

-- A call that returned: its first part returned, and its second from there.
pub >>=-eq-ok :
    {S A B : Type 0} (m : Action S A) (f : A → Action S B) (s s' : S) (b : B)
    → (m >>= f) s ≡ ok (b, s')
    → (a : A) × (t : S) × (m s ≡ ok (a, t)) × (f a t ≡ ok (b, s'))
>>=-eq-ok {S} {A} {B} m f s s' b e = by_result (m s) refl
  where
    by_result :
        (r : Result (A × S))
        → m s ≡ r
        → (a : A) × (t : S) × (m s ≡ ok (a, t)) × (f a t ≡ ok (b, s'))
    by_result (ok (a, t)) h = (a, t, h, ground (arith, h, e))
    by_result (revert x) h = absurd (ground (arith, h, e))

-- A call whose value is thrown away has returned one.
pub returned :
    {S A : Type 0} (m : Action S A) (s s' : S) (u : Unit {0})
    → (m >>= λ _. pure tt) s ≡ ok (u, s')
    → (a : A) × (m s ≡ ok (a, s'))
returned m s s' u e =
    let (a, t, first, second) = >>=-eq-ok m (λ _. pure tt) s s' u e in
    (a, ground (arith, first, second))

-- To split on a call and keep the equation.
pub Result-cases :
    {A : Type 0} (r : Result A) → ((a : A) × (r ≡ ok a)) ⊎ ((e : Reason) × (r ≡ revert e))
Result-cases (ok a) = inl (a, refl)
Result-cases (revert e) = inr (e, refl)
