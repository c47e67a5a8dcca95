-- ===== src/Indexer/Tests.antt =====
-- A writer of bytes, and the theorems of the indexer at concrete events and transactions.
use frogop_pub.Prelude.{
  Bool, true, false, if◌then◌else◌, ℕ, zero, suc, ◌+◌, ◌*◌, ◌/◌, ◌%◌, ◌^◌, ◌<◌, ◌≡◌, ◌==◌, none,
  some, refl, List, [], ◌∷◌, ◌++◌, length, arith,
}
use frogop_pub.Pool.State.{option_cancelled_btc, option_written}
use frogop_pub.Pool.Fees.{collateral_amount, strike_value, ceil_fee}
use frogop_pub.Pool.Write.{write_option}
use frogop_pub.Pool.Trade.{buy_option}
use frogop_pub.Pool.Close.{exercise}
use frogop_pub.Pool.Step.{writes, buys, exercises, perform, step, run}
use frogop_pub.Pool.Tests.Chain.{plain_chain, fresh_pool, at, alice, bob, pool_address}
use frogop_pub.Indexer.Tables.{Tables}
use frogop_pub.Indexer.Decoder.{Javascript, BlockTx}
use frogop_pub.Indexer.Emission.{BytesWriter, big_endian, event_fields, tx_event}
use frogop_pub.Indexer.Statements.{statements_of}
use frogop_pub.Indexer.Decoding.{decoded, decoded-statements_of}
use frogop_pub.Indexer.Mirror.{Mirrors}
use frogop_pub.Indexer.Replay.{Transaction, calls_of, Readings, index_run}
use frogop_pub.Indexer.Poller.{PollerRun, poll}
use frogop_pub.Indexer.Polling.{Indexed, poll-Indexed}
use frogop_pub.Indexer.Histories.{index_run-Mirrors}

-- So many bytes of a number, the highest first.
abbrev to_bytes : (count n : ℕ) → List ℕ
to_bytes zero n = []
to_bytes (suc count) n = to_bytes count (n / 256) ++ (n % 256 ∷ [])

abbrev bytes_below : ℕ → ℕ
bytes_below zero = 1
bytes_below (suc count) = 256 * bytes_below count

length-snoc : (xs : List ℕ) (b : ℕ) → length (xs ++ (b ∷ [])) ≡ length xs + 1
length-snoc [] b = refl
length-snoc (x ∷ xs) b = ground (arith, length-snoc xs b)

length-to_bytes : (count n : ℕ) → length (to_bytes count n) ≡ count
length-to_bytes zero n = refl
length-to_bytes (suc count) n =
    ground
      (arith, length-snoc (to_bytes count (n / 256)) (n % 256), length-to_bytes count (n / 256))

big_endian-snoc :
    (v b : ℕ) (xs : List ℕ) → big_endian v (xs ++ (b ∷ [])) ≡ big_endian v xs * 256 + b
unfolding big_endian
big_endian-snoc v b [] = refl
big_endian-snoc v b (x ∷ xs) = big_endian-snoc (v * 256 + x) b xs

big_endian-to_bytes : (count n : ℕ) → n < bytes_below count → big_endian 0 (to_bytes count n) ≡ n
unfolding big_endian
big_endian-to_bytes zero n h = omega (arith, h)
big_endian-to_bytes (suc count) n h =
    let digits = big_endian-to_bytes count (n / 256) (omega (arith, h)) in
    let last = big_endian-snoc 0 (n % 256) (to_bytes count (n / 256)) in omega (arith, digits, last)

abbrev plain_writer : BytesWriter
plain_writer = record {
  write_u8 = to_bytes 1;
  write_u64 = to_bytes 8;
  write_u256 = to_bytes 32;
  write_address = to_bytes 32;
  length-write_u8 = length-to_bytes 1;
  length-write_u64 = length-to_bytes 8;
  length-write_u256 = length-to_bytes 32;
  length-write_address = length-to_bytes 32;
  write_u8_exact = big_endian-to_bytes 1;
  write_u64_exact = big_endian-to_bytes 8;
  write_u256_exact = big_endian-to_bytes 32;
}

abbrev plain_numbers : Javascript
plain_numbers = record { to_number = λ n. n; to_number_exact = λ n h. refl }

-- The cancellation of a Bitcoin call, with the escrow hash 7, 0, …, 0.
abbrev hash_7 : List ℕ
hash_7 = 7 ∷ to_bytes 31 0

decoded-statements_of_example :
    decoded plain_writer plain_numbers pool_address 50 71 144
      (option_cancelled_btc 3 alice 1000 hash_7)
    ≡ statements_of plain_writer pool_address 50 71 144 (option_cancelled_btc 3 alice 1000 hash_7)
decoded-statements_of_example =
    decoded-statements_of plain_writer plain_numbers pool_address 50 71 144
      (option_cancelled_btc 3 alice 1000 hash_7) (unfold event_fields in ground arith)

-- The life of an option in three transactions, and an indexer that starts with no row.
abbrev transactions : List Transaction
transactions =
    record { id = 71; env = at alice 10; call = writes 0 (2 * 10 ^ 18) 110 1000 250 }
    ∷ record { id = 72; env = at bob 20; call = buys 0 }
    ∷ record { id = 73; env = at bob 120; call = exercises 0 }
    ∷ []

abbrev no_tables : Tables
no_tables = record {
  options = λ _ _. none;
  fee_events = [];
  option_transfers = [];
  swap_events = [];
  last_indexed_block = 0;
}

transactions-Readings : Readings plain_chain transactions fresh_pool
unfolding step perform write_option buy_option exercise collateral_amount strike_value ceil_fee
    event_fields
transactions-Readings = ground arith

index_run-Mirrors_example :
    Mirrors plain_writer pool_address (run plain_chain (calls_of transactions) fresh_pool) (
      index_run plain_writer plain_numbers
        (λ p. p == pool_address)
        (λ _. none)
        (λ _. some 144)
        pool_address
        plain_chain
        transactions
        fresh_pool
        no_tables)
index_run-Mirrors_example =
    index_run-Mirrors plain_chain plain_writer plain_numbers (λ p. p == pool_address) (λ _. none)
      (λ _. some 144) pool_address transactions fresh_pool no_tables refl refl (λ i le. refl)
      transactions-Readings (λ id. refl)

abbrev written_block : BlockTx
written_block = record {
  id = 71;
  events =
      tx_event plain_writer pool_address (option_written 0 alice 0 (2 * 10 ^ 18) 1000 250 110) ∷ [];
}

abbrev a_run : (most : ℕ) → (commits prunes : Bool) → PollerRun
a_run most commits prunes = record {
  latest_block = 3;
  max_blocks_per_run = most;
  tracked = λ p. p == pool_address;
  labels = λ _. none;
  grace_periods = λ _. some 144;
  get_block = λ n. if n == 2 then none else some (written_block ∷ []);
  commits = commits;
  prunes = prunes;
}

-- A run that takes one block, a run that fails, and a run that takes the rest of three blocks.
abbrev three_runs : List PollerRun
three_runs = a_run 1 true true ∷ a_run 9 false true ∷ a_run 9 true true ∷ []

poll-Indexed_example :
    Indexed plain_numbers three_runs no_tables (poll plain_numbers three_runs no_tables)
poll-Indexed_example = poll-Indexed plain_numbers three_runs no_tables
