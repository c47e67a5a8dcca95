-- ===== src/Indexer/Poller.antt =====
-- A run of `pollNewBlocks` of indexer/src/poller/index.ts, as far as it writes the tables of
-- Indexer.Tables.
use frogop_pub.Prelude.{
  ℕ, zero, suc, ◌+◌, ◌-◌, Bool, not, ◌&&◌, Option, none, some, List, [], ◌∷◌, ◌++◌, leb, ltb,
  if◌then◌else◌,
}
use frogop_pub.Indexer.Tables.{
  Tables, Statement, batch, set_last_indexed_block, prune_old_swap_events,
}
use frogop_pub.Indexer.Decoder.{Javascript, BlockTx, decode_block}

-- What a run finds: the latest block of the node, the most blocks that it takes, the pools whose
-- addresses it resolves, the labels of the swap contracts and the grace periods that it has read, and
-- what the node answers for a block. `commits` says whether the database commits the batch of the
-- blocks, `prunes` whether it commits that of `pruneOldData`.
pub record PollerRun : Type 0 where
  pub latest_block : ℕ
  pub max_blocks_per_run : ℕ
  pub tracked : ℕ → Bool
  pub labels : ℕ → Option ℕ
  pub grace_periods : ℕ → Option ℕ
  pub get_block : ℕ → Option (List BlockTx)
  pub commits : Bool
  pub prunes : Bool

-- `Math.min`
abbrev pub smaller : ℕ → ℕ → ℕ
smaller a b = if leb a b then a else b

abbrev pub pruned_window : ℕ
pruned_window = 26280

-- the swap events' half of `pruneOldData`; the cutoff is not below 0
unfoldable pub prune_old_data : ℕ → Tables → Tables
unfolding batch
prune_old_data current_block db =
    batch (prune_old_swap_events (current_block - pruned_window) ∷ []) db

module _ (js : Javascript) where
  unfoldable pub collect_block_statements : PollerRun → ℕ → List Statement
  unfolding decode_block
  collect_block_statements run n = elim (run.get_block n) [
    | none ↦ []
    | some txs ↦ decode_block js run.tracked run.labels run.grace_periods n txs
  ]

  -- `for (let n = from; n <= to; n++)`, so many times
  unfoldable pub collect : PollerRun → (count from : ℕ) → List Statement
  unfolding collect_block_statements
  collect run zero from = []
  collect run (suc count) from = collect_block_statements run from ++ collect run count (from + 1)

  -- `pollNewBlocks`
  unfoldable pub poll_new_blocks : PollerRun → Tables → Tables
  unfolding collect batch prune_old_data
  poll_new_blocks run db =
      let last = db.last_indexed_block in
      let to = smaller run.latest_block (last + run.max_blocks_per_run) in
      let synced =
        batch (collect run (to - last) (last + 1) ++ (set_last_indexed_block to ∷ [])) db in
      let catching_up = ltb to run.latest_block in
      if leb run.latest_block last
      then db
      else (if run.commits
          then (if not catching_up && run.prunes
              then prune_old_data run.latest_block synced
              else synced)
          else db)

  unfoldable pub poll : List PollerRun → Tables → Tables
  unfolding poll_new_blocks
  poll [] db = db
  poll (run ∷ runs) db = poll runs (poll_new_blocks run db)
