-- ===== src/Indexer/Progress.antt =====
-- How far runs of the poller of indexer/src/poller/index.ts get.
use frogop_pub.Prelude.{ℕ, ◌+◌, ◌≤◌, ◌≡◌, true, List, [], ◌∷◌}
use frogop_pub.Indexer.Tables.{Tables}
use frogop_pub.Indexer.Poller.{PollerRun}

-- The runs commit, at a node that has the block.
abbrev pub AllReach : ℕ → List PollerRun → Type 0
AllReach goal [] = Unit
AllReach goal (run ∷ runs) = (run.commits ≡ true) × (goal ≤ run.latest_block) × AllReach goal runs

-- The most blocks that the runs take together.
abbrev pub reach : List PollerRun → ℕ
reach [] = 0
reach (run ∷ runs) = run.max_blocks_per_run + reach runs
