-- ===== src/Indexer/Histories.antt =====
-- The statements that indexer/src/decoder/index.ts makes of the transactions of a type 0 pool, over
-- every history of calls.
use frogop_pub.Prelude.{ℕ, ◌≡◌, refl, sym, ap, ◌∙◌, Bool, true, Option, some, List, [], ◌∷◌, arith}
use frogop_pub.Runtime.{returned, Runtime, Env, Result, ok, revert, after}
use frogop_pub.Pool.State.{PoolState, fee_recipient_updated}
use frogop_pub.Pool.Base.{register_btc_pubkey, update_fee_recipient}
use frogop_pub.Pool.Write.{write_option}
use frogop_pub.Pool.Trade.{buy_option, transfer_option}
use frogop_pub.Pool.Close.{cancel_option, exercise, settle}
use frogop_pub.Pool.Roll.{roll_option}
use frogop_pub.Pool.Batch.{batch_cancel, batch_settle}
use frogop_pub.Pool.Step.{
  Call, writes, cancels, buys, exercises, settles, transfers, rolls, cancels_batch, settles_batch,
  registers, updates_recipient, perform, step, run,
}
use frogop_pub.Pool.Solvency.{IsFresh}
use frogop_pub.Indexer.Tables.{Tables, batch}
use frogop_pub.Indexer.Decoder.{Javascript, decode_tx}
use frogop_pub.Indexer.Emission.{BytesWriter}
use frogop_pub.Indexer.Statements.{statements_of}
use frogop_pub.Indexer.Replay.{
  Transaction, calls_of, emitted, emitted_lem, Readings, index_run, decode_tx-recorded, in_order,
  AllReadable,
}
use frogop_pub.Indexer.Mirror.{Mirrors, Follows, Follows-same, Follows-silent, Follows-trans}
use frogop_pub.Indexer.Following.{
  settle-Follows, cancel_option-Follows, exercise-Follows, buy_option-Follows,
  transfer_option-Follows, write_option-Follows, roll_option-Follows,
}
use frogop_pub.Indexer.Batches.{same-Follows, batch_cancel-Follows, batch_settle-Follows}

module _ (rt : Runtime) (bw : BytesWriter) (pool : ℕ) where
  open rt use {Ledger}

  perform-Follows :
      (env : Env) (c : Call) (s s' : PoolState Ledger) (u : Unit {0})
      → perform rt env c s ≡ ok (u, s')
      → Follows bw pool env.block s s'
  unfolding perform statements_of batch
  perform-Follows env (writes ty strike expiry amount premium) s s' u e =
      let (id, r) = returned (write_option rt env ty strike expiry amount premium) s s' u e in
      write_option-Follows rt bw pool env ty strike expiry amount premium s s' id r
  perform-Follows env (cancels id) s s' u e =
      let (a, r) = returned (cancel_option rt env id) s s' u e in
      cancel_option-Follows rt bw pool env id s s' a r
  perform-Follows env (buys id) s s' u e =
      let (a, r) = returned (buy_option rt env id) s s' u e in
      buy_option-Follows rt bw pool env id s s' a r
  perform-Follows env (exercises id) s s' u e =
      let (a, r) = returned (exercise rt env id) s s' u e in
      exercise-Follows rt bw pool env id s s' a r
  perform-Follows env (settles id) s s' u e =
      let (a, r) = returned (settle rt env id) s s' u e in settle-Follows rt bw pool env id s s' a r
  perform-Follows env (transfers id to) s s' u e =
      let (a, r) = returned (transfer_option rt env id to) s s' u e in
      transfer_option-Follows rt bw pool env id to s s' a r
  perform-Follows env (rolls id strike expiry premium) s s' u e =
      let (a, r) = returned (roll_option rt env id strike expiry premium) s s' u e in
      roll_option-Follows rt bw pool env id strike expiry premium s s' a r
  perform-Follows env (cancels_batch count ids) s s' u e =
      let (a, r) = returned (batch_cancel rt env count ids) s s' u e in
      batch_cancel-Follows rt bw pool env count ids s s' a r
  perform-Follows env (settles_batch count ids) s s' u e =
      let (a, r) = returned (batch_settle rt env count ids) s s' u e in
      batch_settle-Follows rt bw pool env count a ids s s' r
  perform-Follows env (registers pubkey) s s' u e =
      let (a, r) = returned (register_btc_pubkey rt env pubkey) s s' u e in
      unfold register_btc_pubkey in
      Follows-same bw pool env.block s s' (ground (arith, r)) (ground (arith, r))
        (ground (arith, r)) (ground (arith, r))
  perform-Follows env (updates_recipient to) s s' u e =
      let (a, r) = returned (update_fee_recipient rt env to) s s' u e in
      let t = record s { events = fee_recipient_updated env.sender to ∷ s.events } in
      unfold update_fee_recipient in
      Follows-trans bw pool env.block s t s'
        (Follows-silent bw pool env.block s (fee_recipient_updated env.sender to) (λ tx db. refl))
        (Follows-same bw pool env.block t s' (ground (arith, r)) (ground (arith, r))
          (ground (arith, r)) (ground (arith, r)))

  step-Follows :
      (env : Env) (c : Call) (s : PoolState Ledger) → Follows bw pool env.block s (step rt env c s)
  unfolding step
  step-Follows env c s = by_result (perform rt env c s) refl
    where
      by_result :
          (r : Result (Unit {0} × PoolState Ledger))
          → perform rt env c s ≡ r
          → Follows bw pool env.block s (after s r)
      by_result (ok (u, s')) e = perform-Follows env c s s' u e
      by_result (revert x) e = same-Follows rt bw pool env.block s s refl

module _ (rt : Runtime) (bw : BytesWriter) (js : Javascript) (tracked : ℕ → Bool) where
  open rt use {Ledger}

  module _ (labels grace_periods : ℕ → Option ℕ) (pool : ℕ) where
    -- A transaction keeps the table a mirror.
    indexed :
        (t : Transaction) (s : PoolState Ledger) (db : Tables)
        → tracked pool ≡ true
        → grace_periods pool ≡ some s.grace_period
        → IsFresh s
        → AllReadable s.grace_period (emitted s (step rt t.env t.call s))
        → Mirrors bw pool s db
        → Mirrors bw pool (step rt t.env t.call s) (
            batch
              (decode_tx js tracked labels grace_periods t.env.block t.id (
                in_order bw js tracked labels grace_periods pool
                  (emitted s (step rt t.env t.call s))))
              db)
    indexed t s db known knows fresh readable h =
        let f = step-Follows rt bw pool t.env t.call s in
        let news = emitted_lem s (step rt t.env t.call s) f.news f.events in
        rw
          (
            decode_tx-recorded bw js tracked labels grace_periods pool t.env.block t.id
                s.grace_period (emitted s (step rt t.env t.call s)) db known knows readable,
            news,
          )
          (f.mirrors t.id db fresh h)

    -- Over any transactions of a tracked pool whose grace period the indexer knows, whether they
    -- return or revert, if no option of the pool has an identifier from the next one on and every
    -- event that they leave is readable, a table of options that mirrors the pool still does: it has
    -- a row for each option of the pool and no other row for the pool, with the option's terms, the
    -- end of its grace period, its status and, unless it is open or cancelled, its buyer.
    pub index_run-Mirrors :
        (ts : List Transaction) (s : PoolState Ledger) (db : Tables)
        → tracked pool ≡ true
        → grace_periods pool ≡ some s.grace_period
        → IsFresh s
        → Readings rt ts s
        → Mirrors bw pool s db
        → Mirrors bw pool
            (run rt (calls_of ts) s)
            (index_run bw js tracked labels grace_periods pool rt ts s db)
    unfolding run index_run
    index_run-Mirrors [] s db known knows fresh readable h = h
    index_run-Mirrors (t ∷ ts) s db known knows fresh readable h =
        let f = step-Follows rt bw pool t.env t.call s in
        index_run-Mirrors ts (step rt t.env t.call s) _ known (knows ∙ ap some (sym f.grace))
          (f.fresh fresh) readable.1 (indexed t s db known knows fresh readable.0 h)
