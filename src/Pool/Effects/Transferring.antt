-- ===== src/Pool/Effects/Transferring.antt =====
-- transferOption of src/contracts/pool/contract.ts, run to its end.
use frogop_pub.Prelude.{
  ℕ, ◌+◌, ◌%◌, ◌<◌, ◌≡◌, ◌≢◌, Bool, some, ◌∷◌, inl, inr, Option-cases, update, arith,
}
use frogop_pub.Runtime.{Runtime, Env, ok, u64_mod, zero_address}
use frogop_pub.Pool.State.{PoolState, OptionRecord, status_purchased, option_transferred}
use frogop_pub.Pool.Trade.{transfer_option}

module _ (rt : Runtime) where
  open rt use {Ledger}

  pub record Transferred (env : Env) (id new_buyer : ℕ) (s s' : PoolState Ledger) : Type 0 where
    pub option : OptionRecord
    pub found : s.options id ≡ some option
    pub purchased : option.status ≡ status_purchased
    pub by_buyer : env.sender ≡ option.buyer
    pub recipient : new_buyer ≢ zero_address
    pub moved : new_buyer ≢ option.buyer
    pub in_grace : env.block < (option.expiry_block + s.grace_period) % u64_mod
    pub left : s' ≡ record s {
      options = update s.options id (some (record option { buyer = new_buyer }));
      events = option_transferred id option.buyer new_buyer ∷ s.events;
    }

  pub transfer_option-Transferred :
      (env : Env) (id new_buyer : ℕ) (s s' : PoolState Ledger) (u : Bool)
      → transfer_option rt env id new_buyer s ≡ ok (u, s')
      → Transferred env id new_buyer s s'
  unfolding transfer_option
  transfer_option-Transferred env id new_buyer s s' u e = elim (Option-cases (s.options id)) [
    | inl missing ↦ absurd (ground (arith, missing))
    | inr (o, found) ↦ record {
      option = o;
      found = found;
      purchased = ground arith;
      by_buyer = ground arith;
      recipient = ground arith;
      moved = ground arith;
      in_grace = ground arith;
      left = ground arith;
    }
  ]
