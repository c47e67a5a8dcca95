-- ===== src/Indexer/Replay.antt =====
-- What the indexer keeps of the transactions of a pool: the events that they leave in the blocks
-- (indexer/src/decoder/index.ts, `decodeBlock`), decoded and executed.
use frogop_pub.Prelude.{
  ℕ, ◌+◌, ◌-◌, ◌≡◌, refl, sym, ap, ◌∙◌, Bool, true, false, Option, some, List, [], ◌∷◌, ◌++◌, inl,
  inr, Option-cases, length, take, arith,
}
use mathlib.Core.List.{append-nil, append_assoc}
use frogop_pub.Runtime.{Runtime, Env}
use frogop_pub.Pool.State.{PoolState, Event}
use frogop_pub.Pool.State.{
  option_written, option_cancelled, option_purchased, option_exercised, option_expired,
  option_transferred, option_rolled, fee_recipient_updated, option_reserved,
  reservation_was_executed, reservation_cancelled, option_restored, option_written_btc,
  btc_claimable, option_cancelled_btc, option_expired_btc,
}
use frogop_pub.Pool.Step.{Call, step}
use frogop_pub.Indexer.Tables.{Tables, Statement, batch}
use frogop_pub.Indexer.Decoder.{Javascript, TxEvent, decode_one, decode_tx, is_swap}
use frogop_pub.Indexer.Emission.{BytesWriter, tx_event, event_type}
use frogop_pub.Indexer.Statements.{statements_of, IsReadable}
use frogop_pub.Indexer.Decoding.{decoded, decoded-statements_of}
use frogop_pub.Indexer.Mirror.{recorded}

-- The events that a pool emits on its way from `s` to `s'`, of which the latest stands first.
abbrev pub emitted : {L : Type 0} → PoolState L → PoolState L → List Event
emitted s s' = take (length s'.events - length s.events) s'.events

length-append : (es fs : List Event) → length (es ++ fs) ≡ length es + length fs
length-append [] fs = omega arith
length-append (e ∷ es) fs = ground (arith, length-append es fs)

take_all : (es fs : List Event) → take (length es) (es ++ fs) ≡ es
take_all [] fs = refl
take_all (e ∷ es) fs = ap (λ xs. e ∷ xs) (take_all es fs)

pub emitted_lem :
    {L : Type 0} (s s' : PoolState L) (news : List Event)
    → s'.events ≡ news ++ s.events
    → emitted s s' ≡ news
emitted_lem s s' news e =
    let long = length-append news s.events in
    let all = take_all news s.events in
    let count : length (news ++ s.events) - length s.events ≡ length news = omega (arith, long) in
    rw (e, count) all

pub batch-append :
    (xs ys : List Statement) (db : Tables) → batch (xs ++ ys) db ≡ batch ys (batch xs db)
unfolding batch
batch-append [] ys db = refl
batch-append (x ∷ xs) ys db = batch-append xs ys _

-- A transaction that calls a pool: its identifier, and the block that it stands in.
pub record Transaction : Type 0 where
  pub id : ℕ
  pub env : Env
  pub call : Call

abbrev pub calls_of : List Transaction → List (Env × Call)
calls_of [] = []
calls_of (t ∷ ts) = (t.env, t.call) ∷ calls_of ts

-- Every event of a list is readable.
abbrev pub AllReadable : ℕ → List Event → Type 0
AllReadable grace [] = Unit
AllReadable grace (e ∷ es) = IsReadable grace e × AllReadable grace es

-- No event of a pool is a swap.
event_type-is_swap : (e : Event) → is_swap (event_type e) ≡ false
unfolding is_swap event_type
event_type-is_swap (option_written id writer ty strike amount premium expiry) = refl
event_type-is_swap (option_cancelled id writer return_amount fee) = refl
event_type-is_swap (option_purchased id buyer writer premium writer_amount block) = refl
event_type-is_swap (option_exercised id buyer writer ty amount value fee) = refl
event_type-is_swap (option_expired id writer amount) = refl
event_type-is_swap (option_transferred id buyer new_buyer) = refl
event_type-is_swap (option_rolled id new_id caller strike expiry premium) = refl
event_type-is_swap (fee_recipient_updated caller to) = refl
event_type-is_swap (option_reserved id option_id buyer btc_amount hash expiry) = refl
event_type-is_swap (reservation_was_executed id option_id buyer) = refl
event_type-is_swap (reservation_cancelled id option_id) = refl
event_type-is_swap (option_restored option_id) = refl
event_type-is_swap (option_written_btc id writer ty strike amount premium expiry hash) = refl
event_type-is_swap (btc_claimable id buyer btc_amount hash) = refl
event_type-is_swap (option_cancelled_btc id writer btc_amount hash) = refl
event_type-is_swap (option_expired_btc id writer btc_amount hash) = refl

module _ (bw : BytesWriter) (js : Javascript) (tracked : ℕ → Bool) where
  module _ (labels grace_periods : ℕ → Option ℕ) (pool : ℕ) where
    -- The events of a transaction in the order in which they were emitted.
    unfoldable pub in_order : List Event → List TxEvent
    in_order [] = []
    in_order (e ∷ es) = in_order es ++ (tx_event bw pool e ∷ [])

    decode_one-statements_of :
        (block tx grace : ℕ) (e : Event)
        → tracked pool ≡ true
        → grace_periods pool ≡ some grace
        → IsReadable grace e
        → decode_one js tracked labels grace_periods block tx (tx_event bw pool e)
          ≡ statements_of bw pool block tx grace e
    unfolding decode_one tx_event decoded
    decode_one-statements_of block tx grace e known knows readable =
        let says = decoded-statements_of bw js pool block tx grace e readable in
        let no_swap = event_type-is_swap e in
        elim (Option-cases (labels pool)) [
          | inl missing ↦ ground (arith, missing, known, knows, says)
          | inr (label, found) ↦ ground (arith, found, no_swap, known, knows, says)
        ]

    decode_tx-append :
        (block tx : ℕ) (xs ys : List TxEvent)
        → decode_tx js tracked labels grace_periods block tx (xs ++ ys)
          ≡ decode_tx js tracked labels grace_periods block tx xs
            ++ decode_tx js tracked labels grace_periods block tx ys
    unfolding decode_tx
    decode_tx-append block tx [] ys = refl
    decode_tx-append block tx (x ∷ xs) ys =
        ap (λ zs. decode_one js tracked labels grace_periods block tx x ++ zs)
          (decode_tx-append block tx xs ys)
        ∙ sym (
            append_assoc (decode_one js tracked labels grace_periods block tx x)
              (decode_tx js tracked labels grace_periods block tx xs)
              (decode_tx js tracked labels grace_periods block tx ys))

    -- Executing what the decoder makes of a transaction is executing the statements for its events.
    pub decode_tx-recorded :
        (block tx grace : ℕ) (es : List Event) (db : Tables)
        → tracked pool ≡ true
        → grace_periods pool ≡ some grace
        → AllReadable grace es
        → batch (decode_tx js tracked labels grace_periods block tx (in_order es)) db
          ≡ recorded bw pool block tx grace es db
    unfolding recorded in_order decode_tx batch
    decode_tx-recorded block tx grace [] db known knows readable = refl
    decode_tx-recorded block tx grace (e ∷ es) db known knows readable =
        let one = decode_one-statements_of block tx grace e known knows readable.0 in
        let rest = decode_tx-recorded block tx grace es db known knows readable.1 in
        let split = decode_tx-append block tx (in_order es) (tx_event bw pool e ∷ []) in
        rw
          (
            split,
            batch-append (decode_tx js tracked labels grace_periods block tx (in_order es))
                (decode_one js tracked labels grace_periods block tx (tx_event bw pool e) ++ []) db,
            append-nil (decode_one js tracked labels grace_periods block tx (tx_event bw pool e)),
            one,
            rest,
          )
          refl

    module _ (rt : Runtime) where
      open rt use {Ledger}

      -- The tables after the transactions: each leaves its events in its block, and the statements
      -- that the decoder makes of them are executed.
      unfoldable pub index_run : List Transaction → PoolState Ledger → Tables → Tables
      index_run [] s db = db
      index_run (t ∷ ts) s db =
          let s' = step rt t.env t.call s in
          index_run ts s' (
            batch
              (decode_tx js tracked labels grace_periods t.env.block t.id (in_order (emitted s s')))
              db)

-- Every event that the transactions leave is readable.
abbrev pub Readings : (rt : Runtime) → List Transaction → PoolState (rt.Ledger) → Type 0
Readings rt [] s = Unit
Readings rt (t ∷ ts) s =
    AllReadable s.grace_period (emitted s (step rt t.env t.call s))
    × Readings rt ts (step rt t.env t.call s)
