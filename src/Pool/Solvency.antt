-- ===== src/Pool/Solvency.antt =====
-- What the pool owes: the collateral of the options that are not ended, by token. No handler takes
-- more out of the pool than it takes off what is owed.
pub mod Closing
pub mod Opening
pub mod Batches
pub mod Histories
pub mod Settling
use frogop_pub.Prelude.{
  ℕ, ◌+◌, ◌≤◌, ◌<◌, ◌≡◌, ◌≢◌, refl, Bool, ◌&&◌, ◌||◌, Option, none, some, inl, inr, ◌==◌,
  if◌then◌else◌, update, sum_below, sum_below_change, sum_below_cong, lt_or_le, arith, Option-cases,
  add-one, ◌∙◌,
}
use frogop_pub.Runtime.{Runtime}
use frogop_pub.Pool.State.{
  OptionRecord, PoolState, call, status_open, status_purchased, status_reserved,
}
use frogop_pub.Pool.Amounts.{owed, token_of}

-- An option is live until it is exercised, expired or cancelled.
abbrev pub is_live : ℕ → Bool
is_live status = status == status_open || status == status_purchased || status == status_reserved

-- How much of token `t` an option locks.
abbrev pub lock_of : (underlying premium_token : ℕ) → ℕ → OptionRecord → ℕ
lock_of u p t o = if is_live o.status && (token_of u p o.option_type == t) then owed o else 0

abbrev pub lock_in : (underlying premium_token : ℕ) → ℕ → Option OptionRecord → ℕ
lock_in u p t none = 0
lock_in u p t (some o) = lock_of u p t o

-- How much of token `t` the pool owes.
unfoldable pub locked : {L : Type 0} → PoolState L → ℕ → ℕ
locked s t = sum_below s.next_id λ i. lock_in s.underlying s.premium_token t (s.options i)

-- Options have the identifiers below `next_id`.
abbrev pub IsFresh : {L : Type 0} → PoolState L → Type 0
IsFresh s = (i : ℕ) → s.next_id ≤ i → s.options i ≡ none

-- An option that is found has an identifier below `next_id`.
pub find-lt :
    {L : Type 0} (id : ℕ) (s : PoolState L) (o : OptionRecord)
    → IsFresh s
    → s.options id ≡ some o
    → id < s.next_id
find-lt id s o fresh e = elim (lt_or_le id s.next_id) [ inl lt ↦ lt | inr le ↦ cc (fresh id le) ]

-- What is owed when one option is replaced by another.
pub locked-change :
    {L : Type 0} (id t : ℕ) (s s' : PoolState L) (o o' : OptionRecord)
    → IsFresh s
    → s.options id ≡ some o
    → s'.underlying ≡ s.underlying
    → s'.premium_token ≡ s.premium_token
    → s'.next_id ≡ s.next_id
    → s'.options ≡ update s.options id (some o')
    → locked s' t + lock_of s.underlying s.premium_token t o
      ≡ locked s t + lock_of s.underlying s.premium_token t o'
unfolding locked
locked-change id t s s' o o' fresh e eu ep en eo =
    rw (eu, ep, en, eo)
      (omega (
        arith,
        sum_below_change s.next_id id (λ i. lock_in s.underlying s.premium_token t (s.options i))
            (λ i. lock_in s.underlying s.premium_token t (update s.options id (some o') i))
            (find-lt id s o fresh e) (λ i ne. ground arith),
        at_old,
        at_new,
      ))
  where
    at_old :
        lock_in s.underlying s.premium_token t (s.options id)
        ≡ lock_of s.underlying s.premium_token t o
    at_old = rw e

    at_new :
        lock_in s.underlying s.premium_token t (update s.options id (some o') id)
        ≡ lock_of s.underlying s.premium_token t o'
    at_new = ground arith

-- What is owed when an option is added under the next identifier.
pub locked-append :
    {L : Type 0} (t : ℕ) (s s' : PoolState L) (o : OptionRecord)
    → s'.underlying ≡ s.underlying
    → s'.premium_token ≡ s.premium_token
    → s'.next_id ≡ s.next_id + 1
    → s'.options ≡ update s.options s.next_id (some o)
    → locked s' t ≡ lock_of s.underlying s.premium_token t o + locked s t
unfolding locked sum_below
locked-append t s s' o eu ep en eo =
    rw (eu, ep, en, eo, add-one)
      (omega (
        arith,
        at_new,
        sum_below_cong s.next_id
            (λ i. lock_in s.underlying s.premium_token t (update s.options s.next_id (some o) i))
            (λ i. lock_in s.underlying s.premium_token t (s.options i)) (λ i lt. ground arith),
      ))
  where
    at_new :
        lock_in s.underlying s.premium_token t (update s.options s.next_id (some o) s.next_id)
        ≡ lock_of s.underlying s.premium_token t o
    at_new = ground arith

module _ (rt : Runtime) where
  open rt use {Ledger, balance}

  -- The pool at `self` holds what it owes, of every token.
  abbrev pub IsSolvent : ℕ → PoolState Ledger → Type 0
  IsSolvent self s = (t : ℕ) → locked s t ≤ balance s.ledger t self

  -- What the pool holds beyond what it owes does not fall from `s` to `s'`.
  abbrev pub Covers : ℕ → PoolState Ledger → PoolState Ledger → Type 0
  Covers self s s' =
      (t : ℕ) → locked s' t + balance s.ledger t self ≤ locked s t + balance s'.ledger t self

  pub Covers-IsSolvent :
      (self : ℕ) (s s' : PoolState Ledger) → Covers self s s' → IsSolvent self s → IsSolvent self s'
  Covers-IsSolvent self s s' c h t = omega (arith, c t, h t)

  pub Covers-trans :
      (self : ℕ) (s s' s'' : PoolState Ledger)
      → Covers self s s'
      → Covers self s' s''
      → Covers self s s''
  Covers-trans self s s' s'' h k t = omega (arith, h t, k t)

  -- What a call does to the accounts of the pool: the identifiers stay in use from 0 upwards, and
  -- the surplus does not fall.
  pub record Keeps (self : ℕ) (s s' : PoolState Ledger) : Type 0 where
    pub fresh : IsFresh s'
    pub covers : Covers self s s'
    pub same_underlying : s'.underlying ≡ s.underlying
    pub same_premium_token : s'.premium_token ≡ s.premium_token

  pub Keeps-refl : (self : ℕ) (s : PoolState Ledger) → IsFresh s → Keeps self s s
  Keeps-refl self s h = record {
    fresh = h;
    covers = λ t. omega arith;
    same_underlying = refl;
    same_premium_token = refl;
  }

  pub Keeps-trans :
      (self : ℕ) (s s' s'' : PoolState Ledger)
      → Keeps self s s'
      → Keeps self s' s''
      → Keeps self s s''
  Keeps-trans self s s' s'' h k = record {
    fresh = k.fresh;
    covers = Covers-trans self s s' s'' h.covers k.covers;
    same_underlying = k.same_underlying ∙ h.same_underlying;
    same_premium_token = k.same_premium_token ∙ h.same_premium_token;
  }
