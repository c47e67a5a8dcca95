-- ===== src/Indexer/Polling.antt =====
-- Runs of the poller of indexer/src/poller/index.ts against reading the blocks in one go.
use frogop_pub.Prelude.{
  ℕ, zero, suc, ◌+◌, ◌-◌, ◌≤◌, ◌<◌, ◌≡◌, refl, sym, ap, ◌∙◌, Bool, true, false, List, [], ◌∷◌, ◌++◌,
  leb, ltb, not, ◌&&◌, arith, inl, inr, lt_or_le, subst, if◌then◌else◌,
}
use mathlib.Core.List.{append_assoc, Mem, mem-cons}
use mathlib.Core.Logic.Or
use frogop_pub.Indexer.Tables.{Tables, Statement, execute, batch, set_last_indexed_block}
use frogop_pub.Indexer.Decoder.{Javascript}
use frogop_pub.Indexer.Replay.{batch-append}
use frogop_pub.Indexer.Poller.{
  PollerRun, smaller, pruned_window, prune_old_data, collect_block_statements, collect,
  poll_new_blocks, poll,
}
use frogop_pub.Indexer.Agreement.{
  Agree, Agree-refl, Agree-trans, Agree-later, prune-Agree, batch-Agree,
}

-- The statements for so many blocks, from one on, in their order.
abbrev pub gather : (ℕ → List Statement) → (count from : ℕ) → List Statement
gather f zero from = []
gather f (suc count) from = f from ++ gather f count (from + 1)

gather-append :
    (f : ℕ → List Statement) (count more from : ℕ)
    → gather f (count + more) from ≡ gather f count from ++ gather f more (from + count)
gather-append f zero more from = ground arith
gather-append f (suc count) more from =
    let shifted : (from + 1) + count ≡ from + suc count = omega arith in
    let counted : suc count + more ≡ suc (count + more) = omega arith in
    ap (λ n. gather f n from) counted
    ∙ ap (λ xs. f from ++ xs)
        (gather-append f count more (from + 1)
          ∙ ap (λ k. gather f count (from + 1) ++ gather f more k) shifted)
    ∙ sym (append_assoc (f from) (gather f count (from + 1)) (gather f more (from + suc count)))

gather_cong :
    (f g : ℕ → List Statement) (count from : ℕ)
    → ((n : ℕ) → from ≤ n → n < from + count → f n ≡ g n)
    → gather f count from ≡ gather g count from
gather_cong f g zero from h = refl
gather_cong f g (suc count) from h =
    ap (λ xs. xs ++ gather f count (from + 1)) (h from (omega arith) (omega arith))
    ∙ ap (λ xs. g from ++ xs)
        (gather_cong f g count (from + 1) (λ n le lt. h n (omega (arith, le)) (omega (arith, lt))))

-- The statements of one function up to a block and of another behind it.
abbrev spliced : ℕ → (f g : ℕ → List Statement) → ℕ → List Statement
spliced m f g n = if leb n m then f n else g n

gather-spliced :
    (f g : ℕ → List Statement) (l m k : ℕ)
    → l ≤ m
    → m ≤ k
    → gather (spliced m f g) (k - l) (l + 1) ≡ gather f (m - l) (l + 1) ++ gather g (k - m) (m + 1)
gather-spliced f g l m k h i =
    let all = gather (spliced m f g) in
    let count : k - l ≡ (m - l) + (k - m) = omega (arith, h, i) in
    let start : (l + 1) + (m - l) ≡ m + 1 = omega (arith, h) in
    ap (λ c. all c (l + 1)) count
    ∙ gather-append (spliced m f g) (m - l) (k - m) (l + 1)
    ∙ ap (λ n. all (m - l) (l + 1) ++ all (k - m) n) start
    ∙ ap (λ xs. xs ++ all (k - m) (m + 1))
        (gather_cong (spliced m f g) f (m - l) (l + 1) (λ n le lt. ground (arith, h, lt)))
    ∙ ap (λ ys. gather f (m - l) (l + 1) ++ ys)
        (gather_cong (spliced m f g) g (k - m) (m + 1) (λ n le lt. ground (arith, le)))

module _ (js : Javascript) where
  -- `db'` comes from `db` by the blocks behind the cursor of `db` up to that of `db'`: each of them is
  -- taken once, by one of the runs, with what that run has found, and in their order. The options,
  -- the fees and the transfers are those that this gives, and so are the swaps of the last blocks.
  pub record Indexed (runs : List PollerRun) (db db' : Tables) : Type 0 where
    pub block_statements : ℕ → List Statement
    pub forward : db.last_indexed_block ≤ db'.last_indexed_block
    pub taken :
        (n : ℕ)
        → db.last_indexed_block < n
        → n ≤ db'.last_indexed_block
        → (run : PollerRun) × Mem run runs
          × (block_statements n ≡ collect_block_statements js run n)
    pub tables : Agree (db'.last_indexed_block - pruned_window) db' (
        batch
          (gather block_statements
            (db'.last_indexed_block - db.last_indexed_block)
            (db.last_indexed_block + 1))
          db)

  Indexed-same : (runs : List PollerRun) (db : Tables) → Indexed runs db db
  unfolding batch
  Indexed-same runs db =
      let none_left : db.last_indexed_block - db.last_indexed_block ≡ 0 = omega arith in
      record {
        block_statements = λ n. [];
        forward = omega arith;
        taken = λ n lt le. absurd (omega (arith, lt, le));
        tables = rw none_left (Agree-refl (db.last_indexed_block - pruned_window) db);
      }

  collect-gather :
      (run : PollerRun) (count from : ℕ)
      → collect js run count from ≡ gather (collect_block_statements js run) count from
  unfolding collect
  collect-gather run zero from = refl
  collect-gather run (suc count) from =
      ap (λ xs. collect_block_statements js run from ++ xs) (collect-gather run count (from + 1))

  -- One run, in the same words.
  record Took (run : PollerRun) (db db' : Tables) : Type 0 where
    forward : db.last_indexed_block ≤ db'.last_indexed_block
    tables : Agree (db'.last_indexed_block - pruned_window) db' (
        batch
          (gather
            (collect_block_statements js run)
            (db'.last_indexed_block - db.last_indexed_block)
            (db.last_indexed_block + 1))
          db)

  Took-same : (run : PollerRun) (db : Tables) → Took run db db
  unfolding batch
  Took-same run db =
      let none_left : db.last_indexed_block - db.last_indexed_block ≡ 0 = omega arith in
      record {
        forward = omega arith;
        tables = rw none_left (Agree-refl (db.last_indexed_block - pruned_window) db);
      }

  -- The batch of a run that commits, and what its pruning leaves of it.
  synced_lem :
      (run : PollerRun) (db : Tables) (to : ℕ)
      → let l = db.last_indexed_block in
        let synced =
          batch (collect js run (to - l) (l + 1) ++ (set_last_indexed_block to ∷ [])) db in
        l ≤ to → Took run db synced × Took run db (prune_old_data to synced)
  unfolding batch execute prune_old_data collect
  synced_lem run db to le =
      let l = db.last_indexed_block in
      let stmts = collect js run (to - l) (l + 1) in
      let split = batch-append stmts (set_last_indexed_block to ∷ []) db in
      let done = batch stmts db in
      let same = collect-gather run (to - l) (l + 1) in
      let agree : Agree (to - pruned_window) (execute (set_last_indexed_block to) done) done =
        record { options = refl; fee_events = refl; option_transfers = refl; swaps = refl } in
      let pruned =
        prune-Agree (to - pruned_window) (to - pruned_window)
          (execute (set_last_indexed_block to) done) (omega arith) in
      rw (split, ← same)
        (
          record { forward = le; tables = agree },
          record {
            forward = le;
            tables =
                Agree-trans (to - pruned_window) _ (execute (set_last_indexed_block to) done) done
                  pruned agree;
          },
        )

  abbrev target : PollerRun → Tables → ℕ
  target run db = smaller run.latest_block (db.last_indexed_block + run.max_blocks_per_run)

  abbrev synced : PollerRun → Tables → Tables
  synced run db =
      batch
        (collect js run (target run db - db.last_indexed_block) (db.last_indexed_block + 1)
          ++ (set_last_indexed_block (target run db) ∷ []))
        db

  poll_new_blocks-Took : (run : PollerRun) (db : Tables) → Took run db (poll_new_blocks js run db)
  unfolding poll_new_blocks
  poll_new_blocks-Took run db =
      by_flags (leb run.latest_block db.last_indexed_block) run.commits
        (not (ltb (target run db) run.latest_block)) run.prunes refl refl
    where
      by_flags :
          (up_to_date commits at_tip prunes : Bool)
          → leb run.latest_block db.last_indexed_block ≡ up_to_date
          → not (ltb (target run db) run.latest_block) ≡ at_tip
          → Took run db (
              if up_to_date
              then db
              else (if commits
                  then (if at_tip && prunes
                      then prune_old_data run.latest_block (synced run db)
                      else synced run db)
                  else db))
      by_flags true commits at_tip prunes e f = Took-same run db
      by_flags false false at_tip prunes e f = Took-same run db
      by_flags false true false prunes e f =
          (synced_lem run db (target run db) (ground (arith, e))).0
      by_flags false true true false e f = (synced_lem run db (target run db) (ground (arith, e))).0
      by_flags false true true true e f =
          let tip : target run db ≡ run.latest_block = ground (arith, f) in
          subst (λ n. Took run db (prune_old_data n (synced run db))) tip
            (synced_lem run db (target run db) (ground (arith, e))).1

  Indexed-cons :
      (run : PollerRun) (runs : List PollerRun) (a b c : Tables)
      → Took run a b
      → Indexed runs b c
      → Indexed (run ∷ runs) a c
  Indexed-cons run runs a b c h k =
      let first = collect_block_statements js run in
      let l = a.last_indexed_block in
      let m = b.last_indexed_block in
      let e = c.last_indexed_block in
      let old = gather first (m - l) (l + 1) in
      let new = gather k.block_statements (e - m) (m + 1) in
      let split = gather-spliced first k.block_statements l m e h.forward k.forward in
      let before = batch-Agree (e - pruned_window) new b (batch old a) (
        Agree-later (m - pruned_window) (e - pruned_window) b (batch old a)
          (omega (arith, k.forward)) h.tables) in
      record {
        block_statements = spliced m first k.block_statements;
        forward = omega (arith, h.forward, k.forward);
        taken = λ n lt le. elim (lt_or_le m n) [
          | inl behind ↦
              let (r, among, says) = k.taken n behind le in
              (r, mem-cons.1 (Or.inr among), ground (arith, behind, says))
          | inr within ↦ (run, mem-cons.1 (Or.inl refl), ground (arith, within))
        ];
        tables =
            rw (split, batch-append old new a)
              (Agree-trans (e - pruned_window) c (batch new b) (batch new (batch old a)) k.tables
                before);
      }

  -- After any runs of the poller, each with its own view of the node and of the pools, and whether or
  -- not its batches are committed, the cursor has not gone back; each block behind the first cursor
  -- up to the last was taken by one of the runs, with what that run had found, and the options, the
  -- fees and the transfers are those of executing the statements for these blocks once and in their
  -- order. So are the swaps of the last 26280 blocks; older ones may have been pruned.
  pub poll-Indexed : (runs : List PollerRun) (db : Tables) → Indexed runs db (poll js runs db)
  unfolding poll
  poll-Indexed [] db = Indexed-same [] db
  poll-Indexed (run ∷ runs) db =
      let next = poll_new_blocks js run db in
      Indexed-cons run runs db next (poll js runs next) (poll_new_blocks-Took run db)
        (poll-Indexed runs next)
