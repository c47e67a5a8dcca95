-- ===== src/Indexer/Following.antt =====
-- The table of options after each call of a type 0 pool (src/contracts/pool/contract.ts).
use frogop_pub.Prelude.{
  ℕ, ◌+◌, ◌-◌, ◌≡◌, refl, sym, ap, ◌∙◌, Bool, List, ◌∷◌, Option, none, some, update, if◌then◌else◌,
  leb, arith,
}
use frogop_pub.Runtime.{Runtime, Env, ok}
use frogop_pub.Pool.State.{
  PoolState, OptionRecord, status_purchased, status_expired, status_cancelled, status_exercised,
  option_written, option_cancelled, option_purchased, option_exercised, option_expired,
  option_transferred, option_rolled, Event,
}
use frogop_pub.Pool.Write.{write_option}
use frogop_pub.Pool.Trade.{buy_option, transfer_option}
use frogop_pub.Pool.Close.{cancel_option, exercise, settle}
use frogop_pub.Pool.Roll.{roll_option}
use frogop_pub.Pool.Amounts.{owed, strike_value_of}
use frogop_pub.Pool.Effects.Cancelling.{fee_for, cancel_option-Cancelled}
use frogop_pub.Pool.Effects.Exercising.{exercise_fee_for, exercise-Exercised}
use frogop_pub.Pool.Effects.Settling.{settle-Settled}
use frogop_pub.Pool.Effects.Buying.{buy_fee_for, buy_option-Bought}
use frogop_pub.Pool.Effects.Transferring.{transfer_option-Transferred}
use frogop_pub.Pool.Effects.Writing.{write_option-Written, new_option}
use frogop_pub.Pool.Effects.Rolling.{
  roll_option-Rollable, roll_option_lem, rolled_state, rolled_option,
}
use frogop_pub.Indexer.Tables.{
  OptionRow, FeeEventType, cancel_type, buy_type, exercise_type, update_option_status, Tables,
  coalesce, batch, execute, put_row, change_row,
}
use frogop_pub.Indexer.Decoder.{fee_statements}
use frogop_pub.Indexer.Emission.{BytesWriter}
use frogop_pub.Indexer.Statements.{statements_of, new_row}
use frogop_pub.Indexer.Mirror.{
  listing, expected, Follows, Follows-silent, Follows-trans, Follows-change, Follows-append,
}

-- What `update_option_status` makes of a row.
abbrev pub with_status : (status : ℕ) → Option (List ℕ) → (block tx : ℕ) → OptionRow → OptionRow
with_status status buyer block tx row = record row {
  status = status;
  buyer = coalesce buyer row.buyer;
  updated_block = some block;
  updated_tx = some tx;
}

-- A fee that is recorded leaves the table of options as it is.
fee_statements_lem :
    (ty : FeeEventType) (p i fee block tx : ℕ) (db : Tables)
    → (batch (fee_statements ty p i fee block tx) db).options ≡ db.options
unfolding batch execute
fee_statements_lem ty p i fee block tx db = ground arith

module _ (rt : Runtime) (bw : BytesWriter) (pool : ℕ) where
  open rt use {Ledger}

  -- One option changes, with one event.
  pub one_changed :
      (env : Env) (id : ℕ) (s s' : PoolState Ledger) (o o' : OptionRecord) (e : Event) (l : Ledger)
      (f : ℕ → OptionRow → OptionRow)
      → s.options id ≡ some o
      → s' ≡ record s { options = update s.options id (some o'); ledger = l; events = e ∷ s.events }
      → ((tx : ℕ) (db : Tables)
          → (batch (statements_of bw pool env.block tx s.grace_period e) db).options
            ≡ put_row db.options pool id (change_row (f tx) (db.options pool id)))
      → ((tx : ℕ) (row : OptionRow)
          → listing row ≡ expected bw s.grace_period o
          → listing (f tx row) ≡ expected bw s.grace_period o')
      → Follows bw pool env.block s s'
  one_changed env id s s' o o' e l f found left effect says =
      Follows-change bw pool env.block id s s' o o' e f found (ap (λ r. r.events) left)
        (ap (λ r. r.grace_period) left) (ap (λ r. r.next_id) left) (ap (λ r. r.options) left) effect
        says

  pub settle-Follows :
      (env : Env) (id : ℕ) (s s' : PoolState Ledger) (u : Bool)
      → settle rt env id s ≡ ok (u, s')
      → Follows bw pool env.block s s'
  unfolding statements_of batch execute
  settle-Follows env id s s' u e =
      let c = settle-Settled rt env id s s' u e in
      let o = c.option in
      one_changed env id s s' o (record o { status = status_expired })
        (option_expired id o.writer (owed o)) c.ledger (with_status status_expired none env.block)
        c.found c.left (λ tx db. refl) (λ tx row h. ground (arith, h, c.purchased))

  pub cancel_option-Follows :
      (env : Env) (id : ℕ) (s s' : PoolState Ledger) (u : Bool)
      → cancel_option rt env id s ≡ ok (u, s')
      → Follows bw pool env.block s s'
  unfolding statements_of batch execute
  cancel_option-Follows env id s s' u e =
      let c = cancel_option-Cancelled rt env id s s' u e in
      let o = c.option in
      one_changed env id s s' o (record o { status = status_cancelled })
        (option_cancelled id o.writer (owed o - fee_for env o) (fee_for env o)) c.ledger
        (with_status status_cancelled none env.block) c.found c.left
        (λ tx db.
          fee_statements_lem cancel_type pool id (fee_for env o) env.block tx
            (execute (update_option_status pool id status_cancelled none env.block tx) db))
        (λ tx row h. ground (arith, h, c.was_open))

  pub exercise-Follows :
      (env : Env) (id : ℕ) (s s' : PoolState Ledger) (u : Bool)
      → exercise rt env id s ≡ ok (u, s')
      → Follows bw pool env.block s s'
  unfolding statements_of batch execute
  exercise-Follows env id s s' u e =
      let c = exercise-Exercised rt env id s s' u e in
      let o = c.option in
      one_changed env id s s' o (record o { status = status_exercised })
        (option_exercised id o.buyer o.writer o.option_type o.underlying_amount
          (strike_value_of o.strike_price o.underlying_amount) (exercise_fee_for o))
        c.ledger (with_status status_exercised none env.block) c.found c.left
        (λ tx db.
          fee_statements_lem exercise_type pool id (exercise_fee_for o) env.block tx
            (execute (update_option_status pool id status_exercised none env.block tx) db))
        (λ tx row h. ground (arith, h, c.purchased))

  pub buy_option-Follows :
      (env : Env) (id : ℕ) (s s' : PoolState Ledger) (u : Bool)
      → buy_option rt env id s ≡ ok (u, s')
      → Follows bw pool env.block s s'
  unfolding statements_of batch execute
  buy_option-Follows env id s s' u e =
      let c = buy_option-Bought rt env id s s' u e in
      let o = c.option in
      let buyer = some (bw.write_address env.sender) in
      one_changed env id s s' o (record o { buyer = env.sender; status = status_purchased })
        (option_purchased id env.sender o.writer o.premium (o.premium - buy_fee_for o) env.block)
        c.ledger (with_status status_purchased buyer env.block) c.found c.left
        (λ tx db.
          fee_statements_lem buy_type pool id
            (if leb (o.premium - buy_fee_for o) o.premium
              then o.premium - (o.premium - buy_fee_for o)
              else 0)
            env.block tx
            (execute (update_option_status pool id status_purchased buyer env.block tx) db))
        (λ tx row h. ground (arith, h))

  pub transfer_option-Follows :
      (env : Env) (id new_buyer : ℕ) (s s' : PoolState Ledger) (u : Bool)
      → transfer_option rt env id new_buyer s ≡ ok (u, s')
      → Follows bw pool env.block s s'
  unfolding statements_of batch execute
  transfer_option-Follows env id new_buyer s s' u e =
      let c = transfer_option-Transferred rt env id new_buyer s s' u e in
      let o = c.option in
      one_changed env id s s' o (record o { buyer = new_buyer })
        (option_transferred id o.buyer new_buyer) s.ledger
        (λ tx row. record row {
          buyer = some (bw.write_address new_buyer);
          updated_block = some env.block;
          updated_tx = some tx;
        })
        c.found c.left (λ tx db. refl) (λ tx row h. ground (arith, h, c.purchased))

  pub write_option-Follows :
      (env : Env) (ty strike expiry amount premium : ℕ) (s s' : PoolState Ledger) (id : ℕ)
      → write_option rt env ty strike expiry amount premium s ≡ ok (id, s')
      → Follows bw pool env.block s s'
  unfolding statements_of batch execute
  write_option-Follows env ty strike expiry amount premium s s' id e =
      let c = (write_option-Written rt env ty strike expiry amount premium s s' id e).1 in
      Follows-append bw pool env.block s s'
        (new_option env s.next_id ty strike expiry amount premium)
        (option_written s.next_id env.sender ty strike amount premium expiry)
        (λ tx.
          new_row bw pool env.block tx s.grace_period s.next_id env.sender ty strike amount premium
            expiry)
        (ap (λ r. r.events) c.left) (ap (λ r. r.grace_period) c.left) (ap (λ r. r.next_id) c.left)
        (ap (λ r. r.options) c.left) (λ tx db. refl) (λ tx. ground arith)

  pub roll_option-Follows :
      (env : Env) (id strike expiry premium : ℕ) (s s' : PoolState Ledger) (new_id : ℕ)
      → roll_option rt env id strike expiry premium s ≡ ok (new_id, s')
      → Follows bw pool env.block s s'
  unfolding statements_of batch execute
  roll_option-Follows env id strike expiry premium s s' new_id e =
      let c = roll_option-Rollable rt env id strike expiry premium s s' new_id e in
      let o = c.option in
      let fee = fee_for env o in
      let done = sym e ∙ roll_option_lem rt env id strike expiry premium s c in
      let state : s' ≡ rolled_state rt env id strike expiry premium s o c.ledger = cc done in
      let cancelled = record o { status = status_cancelled } in
      let new = rolled_option env o s.next_id strike expiry premium in
      let t : PoolState Ledger = record s {
        options = update s.options id (some cancelled);
        events = option_cancelled id env.sender (owed o - fee) fee ∷ s.events;
      } in
      let u : PoolState Ledger = record t {
        next_id = s.next_id + 1;
        options = update t.options s.next_id (some new);
        ledger = c.ledger;
        events =
            option_written s.next_id env.sender o.option_type strike o.underlying_amount premium
              expiry
            ∷ t.events;
      } in
      rw state (
        Follows-trans bw pool env.block s u
          (rolled_state rt env id strike expiry premium s o c.ledger)
          (Follows-trans bw pool env.block s t u
            (one_changed env id s t o cancelled (option_cancelled id env.sender (owed o - fee) fee)
              s.ledger (with_status status_cancelled none env.block) c.found refl
              (λ tx db.
                fee_statements_lem cancel_type pool id fee env.block tx
                  (execute (update_option_status pool id status_cancelled none env.block tx) db))
              (λ tx row h. ground (arith, h, c.was_open)))
            (Follows-append bw pool env.block t u new
              (option_written s.next_id env.sender o.option_type strike o.underlying_amount premium
                expiry)
              (λ tx.
                new_row bw pool env.block tx s.grace_period s.next_id env.sender o.option_type
                  strike o.underlying_amount premium expiry)
              refl refl refl refl (λ tx db. refl) (λ tx. ground arith)))
          (Follows-silent bw pool env.block u
            (option_rolled id s.next_id env.sender strike expiry premium) (λ tx db. refl)))
