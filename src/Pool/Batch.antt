-- ===== src/Pool/Batch.antt =====
-- src/contracts/pool/contract.ts: batchCancel and batchSettle, over the first `count` of five
-- identifiers.
pub mod Items
pub mod Duplicates
pub mod Sequences
use frogop_pub.Prelude.{
  ℕ, Bool, true, false, ◌||◌, not, Option, none, some, List, [], ◌∷◌, ltb, leb, ◌==◌, if◌then◌else◌,
  take,
}
use frogop_pub.Runtime.{
  Runtime, Env, Action, pure, gets, revert_if, ◌>>=◌, ◌>>◌, empty_batch, batch_too_large,
  duplicate_id_in_batch, not_writer, not_open,
}
use frogop_pub.Pool.State.{
  PoolState, OptionRecord, option_cancelled, option_expired, status_open, status_purchased,
  status_expired, status_cancelled, max_batch_size,
}
use frogop_pub.Pool.Fees.{add, sub, collateral_amount, cancel_fee, collateral_token}
use frogop_pub.Pool.Close.{refund_option}
use frogop_pub.Pool.Base.{emit, find_option, set_status, grace_end, pay}

-- `ids[i] == ids[j]` for a j behind i
unfoldable pub occurs : ℕ → List ℕ → Bool
occurs id [] = false
occurs id (other ∷ rest) = id == other || occurs id rest

-- the two nested loops that look for equal identifiers
unfoldable pub has_duplicate : List ℕ → Bool
unfolding occurs
has_duplicate [] = false
has_duplicate (id ∷ rest) = occurs id rest || has_duplicate rest

module _ (rt : Runtime) where
  open rt use {Ledger}

  -- one round of the loop of `batchCancel`
  unfoldable pub cancel_item : Env → ℕ → Action (PoolState Ledger) (Unit {0})
  cancel_item env option_id = do
    option ← find_option option_id
    revert_if (not (env.sender == option.writer)) not_writer
    revert_if (not (option.status == status_open)) not_open
    refund_option rt env option_id option

  unfoldable pub cancel_each : Env → List ℕ → Action (PoolState Ledger) (Unit {0})
  cancel_each env [] = pure tt
  cancel_each env (id ∷ ids) = cancel_item env id >> cancel_each env ids

  unfoldable pub batch_cancel : Env → ℕ → List ℕ → Action (PoolState Ledger) Bool
  batch_cancel env count ids = do
    revert_if (count == 0) empty_batch
    revert_if (ltb max_batch_size count) batch_too_large
    revert_if (has_duplicate (take count ids)) duplicate_id_in_batch
    cancel_each env (take count ids)
    pure true

  -- the settlement in a round of the loop of `batchSettle`
  unfoldable pub settle_now : Env → ℕ → OptionRecord → ℕ → Action (PoolState Ledger) ℕ
  unfolding emit set_status pay collateral_token add
  settle_now env option_id option settled_count = do
    token ← gets λ s. collateral_token s option.option_type
    amount ← collateral_amount rt option.option_type option.strike_price option.underlying_amount
    set_status option_id status_expired
    pay rt env token option.writer amount
    emit (option_expired option_id option.writer amount)
    add rt settled_count 1

  -- one round of the loop of `batchSettle` on an option that is there
  unfoldable pub settle_found : Env → ℕ → OptionRecord → ℕ → Action (PoolState Ledger) ℕ
  unfolding settle_now grace_end
  settle_found env option_id option settled_count = do
    end ← grace_end option
    let stays = not (option.status == status_purchased) || ltb env.block end
    if stays then pure settled_count else settle_now env option_id option settled_count

  -- one round of the loop of `batchSettle`; what cannot be settled is passed over
  unfoldable pub settle_item : Env → ℕ → ℕ → Action (PoolState Ledger) ℕ
  unfolding settle_found
  settle_item env option_id settled_count = do
    found ← gets λ s. s.options option_id
    elim found [
      | none ↦ pure settled_count
      | some option ↦ settle_found env option_id option settled_count
    ]

  unfoldable pub settle_each : Env → List ℕ → ℕ → Action (PoolState Ledger) ℕ
  settle_each env [] settled_count = pure settled_count
  settle_each env (id ∷ ids) settled_count = do
    settled ← settle_item env id settled_count
    settle_each env ids settled

  unfoldable pub batch_settle : Env → ℕ → List ℕ → Action (PoolState Ledger) ℕ
  batch_settle env count ids = do
    revert_if (count == 0) empty_batch
    revert_if (ltb max_batch_size count) batch_too_large
    revert_if (has_duplicate (take count ids)) duplicate_id_in_batch
    settle_each env (take count ids) 0
