-- ===== src/Storage/Host.antt =====
-- The storage of a contract, which @btc-vision/btc-runtime gives: `Blockchain.getStorageAt`,
-- `setStorageAt` and `hasStorageAt`, the keys that `sha256` makes, and the 32 bytes of a u256.
use frogop_pub.Prelude.{ℕ, ◌<◌, ◌≡◌, Bool, true, ◌&&◌, List, ◌==◌, if◌then◌else◌}
use frogop_pub.Runtime.{u256_mod}
use frogop_pub.Storage.Bytes.{zeros}

-- `key pointer id slot` is `sha256` of the 35 bytes of the three, and different ones are taken not
-- to collide. `present` says of which words `hasStorageAt` holds once they are written: of all but
-- those with a byte other than zero at least, and whether of the zero word is left open. `bytes_of` and `number_of` are `toUint8Array(true)` and `fromUint8ArrayBE`,
-- for addresses the bytes themselves.
pub record HostStorage : Type 1 where
  pub Cells : Type 0
  pub Key : Type 0
  pub key : (pointer id slot : ℕ) → Key
  pub get_storage_at : Key → Cells → List ℕ
  pub has_storage_at : Key → Cells → Bool
  pub set_storage_at : Key → List ℕ → Cells → Cells
  pub present : List ℕ → Bool
  pub bytes_of : ℕ → List ℕ
  pub number_of : List ℕ → ℕ
  pub get-set :
      (p i n p' i' n' : ℕ) (v : List ℕ) (c : Cells)
      → get_storage_at (key p' i' n') (set_storage_at (key p i n) v c)
        ≡ (if (p == p') && ((i == i') && (n == n')) then v else get_storage_at (key p' i' n') c)
  pub has-set :
      (p i n p' i' n' : ℕ) (v : List ℕ) (c : Cells)
      → has_storage_at (key p' i' n') (set_storage_at (key p i n) v c) ≡ (
          if (p == p') && ((i == i') && (n == n'))
          then present v
          else has_storage_at (key p' i' n') c)
  pub number_of-bytes_of : (n : ℕ) → n < u256_mod → number_of (bytes_of n) ≡ n
  pub present-bytes_of : (n : ℕ) → 0 < n → n < u256_mod → present (bytes_of n) ≡ true
  pub bytes_of-zero : bytes_of 0 ≡ zeros 32
  pub number_of-zeros : number_of (zeros 32) ≡ 0
