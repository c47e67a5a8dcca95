-- ===== src/Pool/Batch/Sequences.antt =====
-- batchCancel of src/contracts/pool/contract.ts as calls of cancelOption.
use mathlib.Core.List.{Nodup}
use frogop_pub.Prelude.{ℕ, ◌≤◌, ◌≡◌, ◌≢◌, false, List, take, ◌==◌, ltb, arith}
use frogop_pub.Runtime.{Runtime, Env}
use frogop_pub.Pool.State.{PoolState, max_batch_size}
use frogop_pub.Pool.Batch.{has_duplicate, batch_cancel}
use frogop_pub.Pool.Batch.Items.{cancel_all, cancel_each-cancel_all}
use frogop_pub.Pool.Batch.Duplicates.{has_duplicate-Nodup}

module _ (rt : Runtime) where
  open rt use {Ledger}

  -- A batch of one to five different identifiers does exactly what as many calls of `cancelOption`
  -- do, one after the other: the same result, the same state, the same revert.
  pub batch_cancel-cancel_all :
      (env : Env) (count : ℕ) (ids : List ℕ) (s : PoolState Ledger)
      → count ≢ 0
      → count ≤ max_batch_size
      → Nodup (take count ids)
      → batch_cancel rt env count ids s ≡ cancel_all rt env (take count ids) s
  unfolding batch_cancel
  batch_cancel-cancel_all env count ids s some few nodup =
      let clear : has_duplicate (take count ids) ≡ false =
        (has_duplicate-Nodup (take count ids)).1 nodup in
      let positive : (count == 0) ≡ false = ground arith in
      let within : ltb max_batch_size count ≡ false = ground arith in
      rw (positive, within, clear) (cancel_each-cancel_all rt env (take count ids) s)
