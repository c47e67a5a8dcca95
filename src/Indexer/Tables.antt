-- ===== src/Indexer/Tables.antt =====
-- The tables of indexer/src/db/schema.sql that the decoder writes, and the statements of
-- indexer/src/db/queries.ts on them.
use frogop_pub.Prelude.{ℕ, ◌&&◌, Option, none, some, List, [], ◌∷◌, ◌==◌, leb, if◌then◌else◌}

-- A row of `options`. A text that spells bytes is the list of the bytes; a decimal text is its
-- number; the address of a pool and the id of a transaction are numbers.
pub record OptionRow : Type 0 where
  pub pool_address : ℕ
  pub option_id : ℕ
  pub writer : List ℕ
  pub buyer : Option (List ℕ)
  pub option_type : ℕ
  pub strike_price : ℕ
  pub underlying_amt : ℕ
  pub premium : ℕ
  pub expiry_block : ℕ
  pub grace_end_block : ℕ
  pub status : ℕ
  pub created_block : ℕ
  pub created_tx : ℕ
  pub updated_block : Option ℕ
  pub updated_tx : Option ℕ

pub data FeeEventType : Type 0 where
  cancel_type buy_type exercise_type : FeeEventType

-- A row of `fee_events`; its token is always the empty text.
pub record FeeEventRow : Type 0 where
  pub pool_address : ℕ
  pub option_id : ℕ
  pub event_type : FeeEventType
  pub fee_recipient : ℕ
  pub amount : ℕ
  pub block_number : ℕ
  pub tx_id : ℕ

-- A row of `option_transfers`.
pub record OptionTransferRow : Type 0 where
  pub pool_address : ℕ
  pub option_id : ℕ
  pub from_address : List ℕ
  pub to_address : List ℕ
  pub block_number : ℕ
  pub tx_id : ℕ

-- A row of `swap_events`.
pub record SwapEventRow : Type 0 where
  pub token : ℕ
  pub block_number : ℕ
  pub tx_id : ℕ
  pub buyer : List ℕ
  pub sats_in : ℕ
  pub tokens_out : ℕ
  pub fees : ℕ

-- `options` by its primary key, the other tables with the latest row first, and the cursor.
pub record Tables : Type 0 where
  pub options : ℕ → ℕ → Option OptionRow
  pub fee_events : List FeeEventRow
  pub option_transfers : List OptionTransferRow
  pub swap_events : List SwapEventRow
  pub last_indexed_block : ℕ

-- A prepared statement with what is bound to it.
pub data Statement : Type 0 where
  insert_option : OptionRow → Statement
  update_option_status :
      (pool_address option_id status : ℕ) (buyer : Option (List ℕ)) (updated_block updated_tx : ℕ)
      → Statement
  update_option_buyer :
      (pool_address option_id : ℕ) (buyer : List ℕ) (updated_block updated_tx : ℕ) → Statement
  insert_fee_event : FeeEventRow → Statement
  insert_option_transfer : OptionTransferRow → Statement
  insert_swap_event : SwapEventRow → Statement
  set_last_indexed_block : ℕ → Statement
  prune_old_swap_events : ℕ → Statement

-- `COALESCE(?, buyer)`
abbrev pub coalesce : Option (List ℕ) → Option (List ℕ) → Option (List ℕ)
coalesce none old = old
coalesce (some b) old = some b

-- `INSERT OR IGNORE`: a row with the same key stays.
abbrev pub or_ignore : Option OptionRow → OptionRow → OptionRow
or_ignore none row = row
or_ignore (some old) row = old

-- `UPDATE options SET … WHERE pool_address = ? AND option_id = ?`
abbrev pub change_row : (OptionRow → OptionRow) → Option OptionRow → Option OptionRow
change_row f none = none
change_row f (some row) = some (f row)

-- The table with the entry at a key replaced.
abbrev pub put_row :
    (ℕ → ℕ → Option OptionRow)
    → (pool_address option_id : ℕ) → Option OptionRow
    → ℕ
    → ℕ
    → Option OptionRow
put_row t p i row p' i' = if (p == p') && (i == i') then row else t p' i'

-- What `DELETE FROM swap_events WHERE block_number < ?` leaves.
unfoldable pub since : ℕ → List SwapEventRow → List SwapEventRow
since cutoff [] = []
since cutoff (row ∷ rows) =
    let rest = since cutoff rows in if leb cutoff row.block_number then row ∷ rest else rest

unfoldable pub execute : Statement → Tables → Tables
unfolding since
execute (insert_option row) db = record db {
  options =
      put_row db.options row.pool_address row.option_id
        (some (or_ignore (db.options row.pool_address row.option_id) row));
}
execute (update_option_status p i status buyer block tx) db = record db {
  options = put_row db.options p i (
      change_row
        (λ row. record row {
          status = status;
          buyer = coalesce buyer row.buyer;
          updated_block = some block;
          updated_tx = some tx;
        })
        (db.options p i));
}
execute (update_option_buyer p i buyer block tx) db = record db {
  options = put_row db.options p i (
      change_row
        (λ row. record row { buyer = some buyer; updated_block = some block; updated_tx = some tx })
        (db.options p i));
}
execute (insert_fee_event row) db = record db { fee_events = row ∷ db.fee_events }
execute (insert_option_transfer row) db = record db { option_transfers = row ∷ db.option_transfers }
execute (insert_swap_event row) db = record db { swap_events = row ∷ db.swap_events }
execute (set_last_indexed_block n) db = record db { last_indexed_block = n }
execute (prune_old_swap_events cutoff) db = record db { swap_events = since cutoff db.swap_events }

-- `db.batch`: the statements in their order
unfoldable pub batch : List Statement → Tables → Tables
batch [] db = db
batch (stmt ∷ stmts) db = batch stmts (execute stmt db)
