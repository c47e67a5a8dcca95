-- ===== src/Storage/Reservations.antt =====
-- `ReservationStorage` of src/contracts/pool/reservation-storage.ts.
use frogop_pub.Prelude.{ℕ, Bool, Option, none, some, List, [], ◌∷◌, ◌++◌, take}
use frogop_pub.Storage.Bytes.{zeros, byte_at, drop, write_u64, read_u64}
use frogop_pub.Storage.Host.{HostStorage}

abbrev pub reservation_pending : ℕ
reservation_pending = 0

abbrev pub reservation_executed : ℕ
reservation_executed = 1

-- class Reservation; the hash is its bytes
pub record Reservation : Type 0 where
  pub id : ℕ
  pub option_id : ℕ
  pub buyer : ℕ
  pub btc_amount : ℕ
  pub csv_script_hash : List ℕ
  pub expiry_block : ℕ
  pub status : ℕ

-- `packExpiryAndStatus`
unfoldable pub pack_expiry_and_status : (expiry_block status : ℕ) → List ℕ
pack_expiry_and_status expiry_block status =
    zeros 16 ++ (write_u64 8 expiry_block ++ (zeros 7 ++ (status ∷ [])))

module _ (host : HostStorage) (base_pointer : ℕ) where
  open host use {Cells, key, get_storage_at, has_storage_at, set_storage_at, bytes_of, number_of}

  -- `Blockchain.getStorageAt(this.getKey(id, slot))`
  unfoldable pub reservation_slot : ℕ → ℕ → Cells → List ℕ
  reservation_slot id slot c = get_storage_at (key base_pointer id slot) c

  -- `Blockchain.setStorageAt(this.getKey(id, slot), word)`
  unfoldable pub put_reservation_slot : ℕ → ℕ → List ℕ → Cells → Cells
  put_reservation_slot id slot word = set_storage_at (key base_pointer id slot) word

  unfoldable pub set_expiry_and_status : (id expiry_block status : ℕ) → Cells → Cells
  set_expiry_and_status id expiry_block status =
      put_reservation_slot id 4 (pack_expiry_and_status expiry_block status)

  unfoldable pub get_reservation_expiry : ℕ → Cells → ℕ
  get_reservation_expiry id c = read_u64 0 (take 8 (drop 16 (reservation_slot id 4 c)))

  unfoldable pub get_reservation_status : ℕ → Cells → ℕ
  get_reservation_status id c = byte_at (reservation_slot id 4 c) 31

  -- `setStatus`
  unfoldable pub set_reservation_status_byte : ℕ → ℕ → Cells → Cells
  set_reservation_status_byte id status c =
      put_reservation_slot id 4 (pack_expiry_and_status (get_reservation_expiry id c) status) c

  -- `exists`
  unfoldable pub exists_reservation : ℕ → Cells → Bool
  exists_reservation id c = has_storage_at (key base_pointer id 0) c

  -- `get`, with the getters of slots 0 to 3
  unfoldable pub read_reservation : ℕ → Cells → Reservation
  read_reservation id c = record {
    id = id;
    option_id = number_of (reservation_slot id 0 c);
    buyer = number_of (reservation_slot id 1 c);
    btc_amount = number_of (reservation_slot id 2 c);
    csv_script_hash = reservation_slot id 3 c;
    expiry_block = get_reservation_expiry id c;
    status = get_reservation_status id c;
  }

  -- `set`, with the setters of slots 0 to 3
  unfoldable pub store_reservation : ℕ → Reservation → Cells → Cells
  store_reservation id r c =
      let c1 = put_reservation_slot id 0 (bytes_of r.option_id) c in
      let c2 = put_reservation_slot id 1 (bytes_of r.buyer) c1 in
      let c3 = put_reservation_slot id 2 (bytes_of r.btc_amount) c2 in
      let c4 = put_reservation_slot id 3 r.csv_script_hash c3 in
      set_expiry_and_status id r.expiry_block r.status c4

  -- `clear`
  unfoldable pub clear_reservation : ℕ → Cells → Cells
  clear_reservation id c =
      let c1 = put_reservation_slot id 0 (zeros 32) c in
      let c2 = put_reservation_slot id 1 (zeros 32) c1 in
      let c3 = put_reservation_slot id 2 (zeros 32) c2 in
      let c4 = put_reservation_slot id 3 (zeros 32) c3 in put_reservation_slot id 4 (zeros 32) c4

-- What `get` reads of a reservation whose slots are zero.
abbrev pub cleared : ℕ → Reservation
cleared id = record {
  id = id;
  option_id = 0;
  buyer = 0;
  btc_amount = 0;
  csv_script_hash = zeros 32;
  expiry_block = 0;
  status = 0;
}

-- A reservation that is there gets another status.
abbrev pub with_status : ℕ → Option Reservation → Option Reservation
with_status status none = none
with_status status (some r) = some (record r { status = status })
