-- ===== src/Indexer/Agreement.antt =====
-- Tables that agree but for the cursor and for old rows of `swap_events` (indexer/src/db/queries.ts).
use frogop_pub.Prelude.{ℕ, ◌≤◌, ◌≡◌, refl, sym, ap, ◌∙◌, some, List, [], ◌∷◌, arith}
use frogop_pub.Indexer.Tables.{
  SwapEventRow, Tables, Statement, insert_option, update_option_status, update_option_buyer,
  insert_fee_event, insert_option_transfer, insert_swap_event, set_last_indexed_block,
  prune_old_swap_events, since, execute, batch, put_row, change_row, or_ignore, coalesce,
}

-- The tables say the same, of the swaps those from a block on.
pub record Agree (cutoff : ℕ) (a b : Tables) : Type 0 where
  pub options : a.options ≡ b.options
  pub fee_events : a.fee_events ≡ b.fee_events
  pub option_transfers : a.option_transfers ≡ b.option_transfers
  pub swaps : since cutoff a.swap_events ≡ since cutoff b.swap_events

pub Agree-refl : (c : ℕ) (a : Tables) → Agree c a a
Agree-refl c a = record { options = refl; fee_events = refl; option_transfers = refl; swaps = refl }

pub Agree-trans : (k : ℕ) (a b c : Tables) → Agree k a b → Agree k b c → Agree k a c
Agree-trans k a b c h i = record {
  options = h.options ∙ i.options;
  fee_events = h.fee_events ∙ i.fee_events;
  option_transfers = h.option_transfers ∙ i.option_transfers;
  swaps = h.swaps ∙ i.swaps;
}

since-since : (c d : ℕ) (rows : List SwapEventRow) → d ≤ c → since c (since d rows) ≡ since c rows
unfolding since
since-since c d [] h = refl
since-since c d (row ∷ rows) h = ground (arith, since-since c d rows h)

since_comm : (c d : ℕ) (rows : List SwapEventRow) → since c (since d rows) ≡ since d (since c rows)
unfolding since
since_comm c d [] = refl
since_comm c d (row ∷ rows) = ground (arith, since_comm c d rows)

-- Old rows can be pruned.
pub prune-Agree :
    (c d : ℕ) (db : Tables) → d ≤ c → Agree c (execute (prune_old_swap_events d) db) db
unfolding execute
prune-Agree c d db h = record {
  options = refl;
  fee_events = refl;
  option_transfers = refl;
  swaps = since-since c d db.swap_events h;
}

-- Tables that agree from a block on agree from a later one on.
pub Agree-later : (c d : ℕ) (a b : Tables) → c ≤ d → Agree c a b → Agree d a b
Agree-later c d a b le h = record {
  options = h.options;
  fee_events = h.fee_events;
  option_transfers = h.option_transfers;
  swaps =
      sym (since-since d c a.swap_events le)
      ∙ ap (since d) h.swaps
      ∙ since-since d c b.swap_events le;
}

execute-Agree :
    (c : ℕ) (x : Statement) (a b : Tables) → Agree c a b → Agree c (execute x a) (execute x b)
unfolding execute since
execute-Agree c (insert_option row) a b h = record {
  options =
      ap
        (λ t.
          put_row t row.pool_address row.option_id
            (some (or_ignore (t row.pool_address row.option_id) row)))
        h.options;
  fee_events = h.fee_events;
  option_transfers = h.option_transfers;
  swaps = h.swaps;
}
execute-Agree c (update_option_status p i status buyer block tx) a b h = record {
  options =
      ap
        (λ t. put_row t p i (
          change_row
            (λ row. record row {
              status = status;
              buyer = coalesce buyer row.buyer;
              updated_block = some block;
              updated_tx = some tx;
            })
            (t p i)))
        h.options;
  fee_events = h.fee_events;
  option_transfers = h.option_transfers;
  swaps = h.swaps;
}
execute-Agree c (update_option_buyer p i buyer block tx) a b h = record {
  options =
      ap
        (λ t. put_row t p i (
          change_row
            (λ row. record row {
              buyer = some buyer;
              updated_block = some block;
              updated_tx = some tx;
            })
            (t p i)))
        h.options;
  fee_events = h.fee_events;
  option_transfers = h.option_transfers;
  swaps = h.swaps;
}
execute-Agree c (insert_fee_event row) a b h = record {
  options = h.options;
  fee_events = ap (λ rows. row ∷ rows) h.fee_events;
  option_transfers = h.option_transfers;
  swaps = h.swaps;
}
execute-Agree c (insert_option_transfer row) a b h = record {
  options = h.options;
  fee_events = h.fee_events;
  option_transfers = ap (λ rows. row ∷ rows) h.option_transfers;
  swaps = h.swaps;
}
execute-Agree c (insert_swap_event row) a b h = record {
  options = h.options;
  fee_events = h.fee_events;
  option_transfers = h.option_transfers;
  swaps = ground (arith, h.swaps);
}
execute-Agree c (set_last_indexed_block n) a b h = record {
  options = h.options;
  fee_events = h.fee_events;
  option_transfers = h.option_transfers;
  swaps = h.swaps;
}
execute-Agree c (prune_old_swap_events d) a b h = record {
  options = h.options;
  fee_events = h.fee_events;
  option_transfers = h.option_transfers;
  swaps = since_comm c d a.swap_events ∙ ap (since d) h.swaps ∙ sym (since_comm c d b.swap_events);
}

-- The same statements keep tables in agreement.
pub batch-Agree :
    (c : ℕ) (xs : List Statement) (a b : Tables) → Agree c a b → Agree c (batch xs a) (batch xs b)
unfolding batch
batch-Agree c [] a b h = h
batch-Agree c (x ∷ xs) a b h =
    batch-Agree c xs (execute x a) (execute x b) (execute-Agree c x a b h)
