-- ===== src/QuotePool/State.antt =====
-- The storage of a type 1 pool (src/contracts/pool/btc-quote.ts), and the calls that it makes of its
-- bridge.
use frogop_pub.Prelude.{ℕ, ◌≤◌, ◌≡◌, Bool, true, false, Option, some, List}
use frogop_pub.Runtime.{Env}
use frogop_pub.Pool.State.{PoolState}
use frogop_pub.Storage.Reservations.{Reservation}
use frogop_pub.Bridge.Bitcoin.{Output}

-- The bridge as its pools see it: the four calls, each `none` where it fails, and the registry of
-- the outputs that were used up, by script hash and value. `paid outputs hash value` says that the
-- transaction has an output of that value to the hash.
pub record BridgeCalls : Type 1 where
  pub Bridge : Type 0
  pub price : Env → ℕ → Bridge → Option (ℕ × Bridge)
  pub csv_hash : List ℕ → ℕ → Bridge → Option (List ℕ)
  pub escrow_hash : (buyer_pub writer_pub : List ℕ) → ℕ → Bridge → Option (List ℕ)
  pub verify : List Output → List ℕ → ℕ → Bridge → Option (Bool × Bridge)
  pub used : Bridge → List ℕ → ℕ → Bool
  pub paid : List Output → List ℕ → ℕ → Type 0
  -- What is verified was paid in this transaction, was not used up, and is used up afterwards.
  pub verified :
      (outputs : List Output) (hash : List ℕ) (amount : ℕ) (b b' : Bridge)
      → verify outputs hash amount b ≡ some (true, b')
      → (value : ℕ) × paid outputs hash value
        × (amount ≤ value)
        × (used b hash value ≡ false)
        × (used b' hash value ≡ true)
  -- What was used up stays so.
  pub keeps_used :
      (outputs : List Output) (hash : List ℕ) (amount : ℕ) (v : Bool) (b b' : Bridge)
      → verify outputs hash amount b ≡ some (v, b')
      → (h : List ℕ) (value : ℕ) → used b h value ≡ true
      → used b' h value ≡ true

-- The state of the pool's own fields (`pool`), of the fields that btc-quote.ts adds, and of the
-- bridge. `reservations` is what `ReservationStorage` holds, `none` where `exists` is false, and
-- `csv_hashes` what `getStorageAt` gives for slot 9 of an option.
pub record QuoteState (L B : Type 0) : Type 0 where
  pub pool : PoolState L
  pub bridge_address : ℕ
  pub next_reservation_id : ℕ
  pub reservations : ℕ → Option Reservation
  pub csv_hashes : ℕ → List ℕ
  pub bridge : B
