-- ===== src/QuotePool/Bridging.antt =====
-- The bridge of src/contracts/bridge/contract.ts is one that a pool can call.
use mathlib.Core.List.{Mem}
use frogop_pub.Prelude.{
  ℕ, Bool, ◌≤◌, ◌≡◌, refl, true, false, Option, none, some, List, inl, inr, arith,
}
use frogop_pub.Runtime.{Result, Result-cases, ok, revert}
use frogop_pub.Bridge.Bitcoin.{Bitcoin, Output}
use frogop_pub.Bridge.State.{BridgeState}
use frogop_pub.Bridge.Contract.{
  pays_to, get_btc_price, generate_csv_script_hash, generate_escrow_script_hash, verify_btc_output,
}
use frogop_pub.Bridge.Outputs.{verify_btc_output-Verified, verify_btc_output_total}
use frogop_pub.QuotePool.State.{BridgeCalls}

-- `Blockchain.call`: the result, or no success.
abbrev pub answer : {A : Type 0} → Result A → Option A
answer (ok a) = some a
answer (revert e) = none

abbrev pub value_only : {A S : Type 0} → Option (A × S) → Option A
value_only none = none
value_only (some (a, s)) = some a

-- The transaction has an output of the value to the hash.
abbrev pub Pays : List Output → List ℕ → ℕ → Type 0
Pays outputs hash value =
    (o : Output) × Mem o outputs × (pays_to hash o.script ≡ true) × (o.value ≡ value)

module _ (bitcoin : Bitcoin) where
  open bitcoin use {Swap}

  pub verified_lem :
      (outputs : List Output) (hash : List ℕ) (amount : ℕ) (b b' : BridgeState Swap)
      → answer (verify_btc_output outputs hash amount b) ≡ some (true, b')
      → (value : ℕ) × Pays outputs hash value
        × (amount ≤ value)
        × (b.consumed hash value ≡ false)
        × (b'.consumed hash value ≡ true)
  verified_lem outputs hash amount b b' e =
      elim (Result-cases (verify_btc_output outputs hash amount b)) [
        | inl ((v, t), done) ↦
            let returns : verify_btc_output outputs hash amount b ≡ ok (true, b') =
              ground (arith, done) in
            let c = verify_btc_output-Verified outputs hash amount b b' returns in
            (c.output.value, (c.output, c.present, c.pays, refl), c.enough, c.unused, c.used)
        | inr (x, fails) ↦ absurd (ground (arith, fails))
      ]

  pub keeps_used_lem :
      (outputs : List Output) (hash : List ℕ) (amount : ℕ) (v : Bool) (b b' : BridgeState Swap)
      → answer (verify_btc_output outputs hash amount b) ≡ some (v, b')
      → (h : List ℕ) (value : ℕ) → b.consumed h value ≡ true
      → b'.consumed h value ≡ true
  keeps_used_lem outputs hash amount v b b' e h value before =
      elim (verify_btc_output_total outputs hash amount b) [
        | inl none_found ↦ ground (arith, none_found, before)
        | inr (t, found) ↦
            let c = verify_btc_output-Verified outputs hash amount b t found in
            ground (arith, found, c.kept h value before)
      ]

  -- The methods of the bridge as the calls that a pool makes, with what it relies on proved.
  abbrev pub bridge_calls : BridgeCalls
  bridge_calls = record {
    Bridge = BridgeState Swap;
    price = λ env token b. answer (get_btc_price bitcoin env token b);
    csv_hash =
        λ pubkey blocks b. value_only (answer (generate_csv_script_hash bitcoin pubkey blocks b));
    escrow_hash = λ buyer_pub writer_pub block b.
        value_only (answer (generate_escrow_script_hash bitcoin buyer_pub writer_pub block b));
    verify = λ outputs hash amount b. answer (verify_btc_output outputs hash amount b);
    used = λ b hash value. b.consumed hash value;
    paid = Pays;
    verified = verified_lem;
    keeps_used = keeps_used_lem;
  }
