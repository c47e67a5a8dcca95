-- ===== src/Indexer/Batches.antt =====
-- The table of options after batchCancel and batchSettle of src/contracts/pool/contract.ts.
use frogop_pub.Prelude.{
  ℕ, ◌≡◌, refl, Bool, true, some, none, List, [], ◌∷◌, inl, inr, Option-cases, take, arith,
}
use frogop_pub.Runtime.{Runtime, Env, ok, >>=-eq-ok}
use frogop_pub.Pool.State.{
  PoolState, OptionRecord, status_purchased, status_expired, option_expired,
}
use frogop_pub.Pool.Batch.{
  cancel_item, cancel_each, batch_cancel, settle_item, settle_now, settle_each, batch_settle,
}
use frogop_pub.Pool.Batch.Items.{cancel_option-cancel_item, settle_now-eq-ok}
use frogop_pub.Pool.Amounts.{owed}
use frogop_pub.Indexer.Tables.{batch, execute}
use frogop_pub.Indexer.Emission.{BytesWriter}
use frogop_pub.Indexer.Statements.{statements_of}
use frogop_pub.Indexer.Mirror.{Follows, Follows-same, Follows-trans}
use frogop_pub.Indexer.Following.{one_changed, with_status, cancel_option-Follows}

module _ (rt : Runtime) (bw : BytesWriter) (pool : ℕ) where
  open rt use {Ledger}

  cancel_item-Follows :
      (env : Env) (id : ℕ) (s s' : PoolState Ledger) (u : Unit {0})
      → cancel_item rt env id s ≡ ok (u, s')
      → Follows bw pool env.block s s'
  cancel_item-Follows env id s s' u e =
      cancel_option-Follows rt bw pool env id s s' true
        (rw (cancel_option-cancel_item rt env id) (ground (arith, e)))

  pub same-Follows : (block : ℕ) (s s' : PoolState Ledger) → s ≡ s' → Follows bw pool block s s'
  same-Follows block s s' e = rw (← e) (Follows-same bw pool block s s refl refl refl refl)

  cancel_each-Follows :
      (env : Env) (ids : List ℕ) (s s' : PoolState Ledger) (u : Unit {0})
      → cancel_each rt env ids s ≡ ok (u, s')
      → Follows bw pool env.block s s'
  unfolding cancel_each
  cancel_each-Follows env [] s s' u e = same-Follows env.block s s' (cc e)
  cancel_each-Follows env (id ∷ ids) s s' u e =
      let (_, t, first, rest) =
        >>=-eq-ok (cancel_item rt env id) (λ _. cancel_each rt env ids) s s' u e in
      Follows-trans bw pool env.block s t s' (cancel_item-Follows env id s t _ first)
        (cancel_each-Follows env ids t s' u rest)

  pub batch_cancel-Follows :
      (env : Env) (count : ℕ) (ids : List ℕ) (s s' : PoolState Ledger) (u : Bool)
      → batch_cancel rt env count ids s ≡ ok (u, s')
      → Follows bw pool env.block s s'
  unfolding batch_cancel
  batch_cancel-Follows env count ids s s' u e =
      ground (arith, cancel_each-Follows env (take count ids) s s' tt)

  settle_now-Follows :
      (env : Env) (id n m : ℕ) (o : OptionRecord) (s s' : PoolState Ledger)
      → s.options id ≡ some o
      → o.status ≡ status_purchased
      → settle_now rt env id o n s ≡ ok (m, s')
      → Follows bw pool env.block s s'
  unfolding statements_of batch execute
  settle_now-Follows env id n m o s s' found live e =
      let (l, paid, left) = settle_now-eq-ok rt env id n m o s s' found e in
      one_changed rt bw pool env id s s' o (record o { status = status_expired })
        (option_expired id o.writer (owed o)) l (with_status status_expired none env.block) found
        left (λ tx db. refl) (λ tx row h. ground (arith, h, live))

  settle_item-Follows :
      (env : Env) (id n m : ℕ) (s s' : PoolState Ledger)
      → settle_item rt env id n s ≡ ok (m, s')
      → Follows bw pool env.block s s'
  unfolding settle_item
  settle_item-Follows env id n m s s' e = elim (Option-cases (s.options id)) [
    | inl missing ↦ same-Follows env.block s s' (ground (arith, missing))
    | inr (o, found) ↦
        ground (arith, settle_now-Follows env id n m o s s' found, same-Follows env.block s s')
  ]

  settle_each-Follows :
      (env : Env) (ids : List ℕ) (n m : ℕ) (s s' : PoolState Ledger)
      → settle_each rt env ids n s ≡ ok (m, s')
      → Follows bw pool env.block s s'
  unfolding settle_each
  settle_each-Follows env [] n m s s' e = same-Follows env.block s s' (cc e)
  settle_each-Follows env (id ∷ ids) n m s s' e =
      let (k, t, first, rest) =
        >>=-eq-ok (settle_item rt env id n) (λ k. settle_each rt env ids k) s s' m e in
      Follows-trans bw pool env.block s t s' (settle_item-Follows env id n k s t first)
        (settle_each-Follows env ids k m t s' rest)

  pub batch_settle-Follows :
      (env : Env) (count m : ℕ) (ids : List ℕ) (s s' : PoolState Ledger)
      → batch_settle rt env count ids s ≡ ok (m, s')
      → Follows bw pool env.block s s'
  unfolding batch_settle
  batch_settle-Follows env count m ids s s' e =
      ground (arith, settle_each-Follows env (take count ids) 0 m s s')
