-- ===== src/Bridge/Outputs.antt =====
-- What verifyBtcOutput of src/contracts/bridge/contract.ts verifies.
use mathlib.Core.List.{Mem, mem-cons}
use mathlib.Core.Logic.Or
use frogop_pub.Prelude.{
  ℕ, ◌≤◌, ◌≡◌, refl, true, false, ◌&&◌, ◌||◌, List, [], ◌∷◌, inl, inr, ◌⊎◌, ◌==◌, Bool-cases, arith,
}
use frogop_pub.Runtime.{ok}
use frogop_pub.Bridge.Bitcoin.{Output}
use frogop_pub.Bridge.State.{BridgeState}
use frogop_pub.Bridge.Contract.{same_hash, pays_to, usable, verify_outputs, verify_btc_output}

same_hash_refl : (h : List ℕ) → same_hash h h ≡ true
unfolding same_hash
same_hash_refl [] = refl
same_hash_refl (x ∷ h) = ground (arith, same_hash_refl h)

module _ {W : Type 0} where
  -- The output that a verification found and used up.
  pub record Verified (outputs : List Output) (hash : List ℕ) (amount : ℕ) (s s' : BridgeState W)
      : Type 0 where
    pub output : Output
    pub present : Mem output outputs
    pub pays : pays_to hash output.script ≡ true
    pub enough : amount ≤ output.value
    pub unused : s.consumed hash output.value ≡ false
    pub used : s'.consumed hash output.value ≡ true
    pub kept : (h : List ℕ) (v : ℕ) → s.consumed h v ≡ true → s'.consumed h v ≡ true
    pub same_prices : (s'.cached_price ≡ s.cached_price) × (s'.cached_block ≡ s.cached_block)

  abbrev with_consumed : BridgeState W → List ℕ → ℕ → BridgeState W
  with_consumed s hash value = record s {
    consumed = λ h v. (v == value && same_hash h hash) || s.consumed h v;
  }

  verify_outputs-Verified :
      (outputs : List Output) (hash : List ℕ) (amount : ℕ) (s s' : BridgeState W)
      → verify_outputs outputs hash amount s ≡ ok (true, s')
      → Verified outputs hash amount s s'
  unfolding verify_outputs
  verify_outputs-Verified [] hash amount s s' e = cc
  verify_outputs-Verified (o ∷ os) hash amount s s' e = elim (Bool-cases (usable s hash amount o)) [
    | inl use_it ↦
        let left : s' ≡ with_consumed s hash o.value = ground (arith, use_it) in
        rw left (record {
          output = o;
          present = mem-cons.1 (Or.inl refl);
          pays = ground (arith, use_it);
          enough = ground (arith, use_it);
          unused = ground (arith, use_it);
          used = ground (arith, same_hash_refl hash);
          kept = λ h v c. ground (arith, c);
          same_prices = (refl, refl);
        })
    | inr skip ↦
        let v = verify_outputs-Verified os hash amount s s' (rw skip at e) in
        record {
          output = v.output;
          present = mem-cons.1 (Or.inr v.present);
          pays = v.pays;
          enough = v.enough;
          unused = v.unused;
          used = v.used;
          kept = v.kept;
          same_prices = v.same_prices;
        }
  ]

  -- A verification that finds an output uses up one of the transaction's outputs, which pays the
  -- hash at least the amount and had not been used up; what was used up before stays so, and the
  -- price cache is not touched.
  pub verify_btc_output-Verified :
      (outputs : List Output) (hash : List ℕ) (amount : ℕ) (s s' : BridgeState W)
      → verify_btc_output outputs hash amount s ≡ ok (true, s')
      → Verified outputs hash amount s s'
  unfolding verify_btc_output
  verify_btc_output-Verified outputs hash amount s s' e =
      verify_outputs-Verified outputs hash amount s s' e

  -- A verification always returns, and one that finds nothing changes nothing.
  pub verify_btc_output_total :
      (outputs : List Output) (hash : List ℕ) (amount : ℕ) (s : BridgeState W)
      → (verify_btc_output outputs hash amount s ≡ ok (false, s))
        ⊎ ((s' : BridgeState W) × (verify_btc_output outputs hash amount s ≡ ok (true, s')))
  unfolding verify_btc_output verify_outputs
  verify_btc_output_total [] hash amount s = inl refl
  verify_btc_output_total (o ∷ os) hash amount s = elim (Bool-cases (usable s hash amount o)) [
    | inl use_it ↦ inr (with_consumed s hash o.value, rw use_it refl)
    | inr skip ↦ rw skip (verify_btc_output_total os hash amount s)
  ]

  -- An output whose hash and value were used up before is refused, in whatever transaction it
  -- stands: a transaction whose outputs to the hash all have used-up values is not verified.
  pub verify_btc_output_refuses :
      (outputs : List Output) (hash : List ℕ) (amount : ℕ) (s : BridgeState W)
      → ((o : Output)
          → Mem o outputs
          → pays_to hash o.script ≡ true
          → s.consumed hash o.value ≡ true)
      → verify_btc_output outputs hash amount s ≡ ok (false, s)
  unfolding verify_btc_output verify_outputs
  verify_btc_output_refuses [] hash amount s h = refl
  verify_btc_output_refuses (o ∷ os) hash amount s h = ground (
    arith,
    h o (mem-cons.1 (Or.inl refl)),
    verify_btc_output_refuses os hash amount s (λ x m. h x (mem-cons.1 (Or.inr m))),
  )
