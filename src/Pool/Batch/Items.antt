-- ===== src/Pool/Batch/Items.antt =====
-- The rounds of the batches of src/contracts/pool/contract.ts against the handlers for one option.
use frogop_pub.Prelude.{
  ℕ, ◌+◌, ◌<◌, ◌≡◌, refl, Bool, true, List, [], ◌∷◌, some, arith, inl, inr, fun_ext, update, sym,
  ap, ◌∙◌, Option-cases,
}
use frogop_pub.Runtime.{Runtime, Env, ok, Action, pure, ◌>>=◌, ◌>>◌, u256_mod, >>=-assoc, >>=-cong}
use frogop_pub.Pool.State.{PoolState, OptionRecord, status_expired, option_expired}
use frogop_pub.Pool.Close.{cancel_option, settle}
use frogop_pub.Pool.Batch.{cancel_item, cancel_each, settle_now, settle_item}
use frogop_pub.Pool.Amounts.{add_lem, collateral_amount_lem, owed}
use frogop_pub.Pool.Effects.Settling.{settle-Settled, settle_paid}

module _ (rt : Runtime) where
  open rt use {Ledger}

  -- A round of `batchCancel` is a call of `cancelOption`.
  pub cancel_option-cancel_item :
      (env : Env) (id : ℕ) → cancel_option rt env id ≡ (cancel_item rt env id >> pure true)
  unfolding cancel_option cancel_item
  cancel_option-cancel_item env id = fun_ext λ s. ground arith

  -- Calls of `cancelOption`, one after the other.
  pub cancel_all : Env → List ℕ → Action (PoolState Ledger) Bool
  cancel_all env [] = pure true
  cancel_all env (id ∷ ids) = cancel_option rt env id >>= λ _. cancel_all env ids

  pub cancel_each-cancel_all :
      (env : Env) (ids : List ℕ) (s : PoolState Ledger)
      → (cancel_each rt env ids >> pure true) s ≡ cancel_all env ids s
  unfolding cancel_each cancel_all
  cancel_each-cancel_all env [] s = refl
  cancel_each-cancel_all env (id ∷ ids) s =
      >>=-assoc (cancel_item rt env id) (λ _. cancel_each rt env ids) (λ _. pure true) s
      ∙ >>=-cong (cancel_item rt env id) (λ _. cancel_each rt env ids >> pure true)
          (λ _. cancel_all env ids) s (λ _ s'. cancel_each-cancel_all env ids s')
      ∙ sym (>>=-assoc (cancel_item rt env id) (λ _. pure true) (λ _. cancel_all env ids) s)
      ∙ ap (λ (m : Action (PoolState Ledger) Bool). (m >>= λ _. cancel_all env ids) s)
          (sym (cancel_option-cancel_item env id))

  -- Where `settle` returns, a round of `batchSettle` leaves the state that `settle` leaves and counts
  -- one more, if the count fits a u256.
  pub settle_item-settle :
      (env : Env) (id settled_count : ℕ) (s s' : PoolState Ledger) (u : Bool)
      → settled_count + 1 < u256_mod
      → settle rt env id s ≡ ok (u, s')
      → settle_item rt env id settled_count s ≡ ok (settled_count + 1, s')
  unfolding settle settle_item
  settle_item-settle env id n s s' u small e =
      let c = settle-Settled rt env id s s' u e in
      let o = c.option in
      ground (
        arith,
        c.found,
        c.purchased,
        c.over,
        c.paid,
        collateral_amount_lem rt o.option_type o.strike_price o.underlying_amount s,
        add_lem rt n 1 s',
        c.left,
      )

  -- The state that a settlement leaves.
  abbrev pub settled_state : ℕ → PoolState Ledger → OptionRecord → Ledger → PoolState Ledger
  settled_state id s o l = record s {
    options = update s.options id (some (record o { status = status_expired }));
    ledger = l;
    events = option_expired id o.writer (owed o) ∷ s.events;
  }

  -- A settlement in a batch that returned has made one token call, and left that state.
  pub settle_now-eq-ok :
      (env : Env) (id n m : ℕ) (o : OptionRecord) (s s' : PoolState Ledger)
      → s.options id ≡ some o
      → settle_now rt env id o n s ≡ ok (m, s')
      → (l : Ledger) × (settle_paid rt env s o ≡ some l) × (s' ≡ settled_state id s o l)
  unfolding settle_now
  settle_now-eq-ok env id n m o s s' found e =
      let amount = collateral_amount_lem rt o.option_type o.strike_price o.underlying_amount s in
      elim (Option-cases (settle_paid rt env s o)) [
        | inl fails ↦ absurd (ground (arith, amount))
        | inr (l, done) ↦ (l, done, ground (arith, amount, add_lem rt n 1 (settled_state id s o l)))
      ]
