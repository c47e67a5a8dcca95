-- ===== src/Storage/ReservationCells.antt =====
-- `ReservationStorage` of src/contracts/pool/reservation-storage.ts keeps a map from identifiers to
-- reservations, but for those whose first slot holds the zero word.
use frogop_pub.Prelude.{
  ℕ, ◌<◌, ◌≡◌, refl, ◌&&◌, Option, none, some, List, ◌==◌, if◌then◌else◌, arith, update, ◌∙◌,
  fun_ext, take,
}
use frogop_pub.Runtime.{u256_mod, u64_mod}
use frogop_pub.Storage.Bytes.{
  ==_self, zeros, read_u64, read_u64-write_u64, write_u64, drop, byte_at,
}
use frogop_pub.Storage.Host.{HostStorage}
use frogop_pub.Storage.Reservations.{
  Reservation, pack_expiry_and_status, reservation_slot, put_reservation_slot,
  set_expiry_and_status, get_reservation_expiry, get_reservation_status,
  set_reservation_status_byte, exists_reservation, read_reservation, store_reservation,
  clear_reservation, cleared, with_status,
}

-- The fields fit their types.
pub record IsStorable (r : Reservation) : Type 0 where
  pub option_id : r.option_id < u256_mod
  pub buyer : r.buyer < u256_mod
  pub btc_amount : r.btc_amount < u256_mod
  pub expiry_block : r.expiry_block < u64_mod

pack-expiry :
    (e st : ℕ) → e < u64_mod → read_u64 0 (take 8 (drop 16 (pack_expiry_and_status e st))) ≡ e
unfolding pack_expiry_and_status write_u64
pack-expiry e st h = unfold write_u64 in read_u64-write_u64 e h

pack-status : (e st : ℕ) → byte_at (pack_expiry_and_status e st) 31 ≡ st
unfolding pack_expiry_and_status write_u64
pack-status e st = refl

-- The zero word has expiry 0.
zeros-expiry : read_u64 0 (take 8 (drop 16 (zeros 32))) ≡ 0
unfolding read_u64
zeros-expiry = refl

module _ (host : HostStorage) (base : ℕ) where
  open host use {
    Cells, bytes_of, number_of, number_of-bytes_of, present, get-set, has-set, number_of-zeros,
  }

  slot_lem :
      (i n i' n' : ℕ) (v : List ℕ) (c : Cells)
      → reservation_slot host base i' n' (put_reservation_slot host base i n v c)
        ≡ (if (i == i') && (n == n') then v else reservation_slot host base i' n' c)
  unfolding reservation_slot put_reservation_slot
  slot_lem i n i' n' v c = get-set base i n base i' n' v c ∙ rw (==_self base)

  exists_lem :
      (i n i' : ℕ) (v : List ℕ) (c : Cells)
      → exists_reservation host base i' (put_reservation_slot host base i n v c)
        ≡ (if (i == i') && (n == 0) then present v else exists_reservation host base i' c)
  unfolding exists_reservation put_reservation_slot
  exists_lem i n i' v c = has-set base i n base i' 0 v c ∙ rw (==_self base)

  abbrev word_of : Reservation → ℕ → List ℕ
  word_of r n =
      if n == 0
      then bytes_of r.option_id
      else (if n == 1
          then bytes_of r.buyer
          else (if n == 2
              then bytes_of r.btc_amount
              else (if n == 3
                  then r.csv_script_hash
                  else pack_expiry_and_status r.expiry_block r.status)))

  slot-store :
      (i i' n : ℕ) (r : Reservation) (c : Cells)
      → n < 5
      → reservation_slot host base i' n (store_reservation host base i r c)
        ≡ (if i == i' then word_of r n else reservation_slot host base i' n c)
  unfolding store_reservation set_expiry_and_status
  slot-store i i' n r c h = simp slot_lem (ground arith)

  exists-store :
      (i i' : ℕ) (r : Reservation) (c : Cells)
      → exists_reservation host base i' (store_reservation host base i r c)
        ≡ (if i == i' then present (bytes_of r.option_id) else exists_reservation host base i' c)
  unfolding store_reservation set_expiry_and_status
  exists-store i i' r c = simp exists_lem (ground arith)

  slot-clear :
      (i i' n : ℕ) (c : Cells)
      → n < 5
      → reservation_slot host base i' n (clear_reservation host base i c)
        ≡ (if i == i' then zeros 32 else reservation_slot host base i' n c)
  unfolding clear_reservation
  slot-clear i i' n c h = simp slot_lem (ground arith)

  exists-clear :
      (i i' : ℕ) (c : Cells)
      → exists_reservation host base i' (clear_reservation host base i c)
        ≡ (if i == i' then present (zeros 32) else exists_reservation host base i' c)
  unfolding clear_reservation
  exists-clear i i' c = simp exists_lem (ground arith)

  -- The map that the cells stand for.
  abbrev pub view : Cells → ℕ → Option Reservation
  view c id =
      if exists_reservation host base id c then some (read_reservation host base id c) else none

  -- `set` of a reservation whose fields fit under its own identifier replaces that one in the map and
  -- leaves the others; if the word of its option's identifier does not count as present, there is
  -- none afterwards.
  pub view-store_reservation :
      (id : ℕ) (r : Reservation) (c : Cells)
      → IsStorable r
      → r.id ≡ id
      → view (store_reservation host base id r c)
        ≡ update (view c) id (if present (bytes_of r.option_id) then some r else none)
  unfolding read_reservation get_reservation_expiry get_reservation_status
  view-store_reservation id r c h same = fun_ext λ i. ground (
    arith,
    slot-store id i 0 r c,
    slot-store id i 1 r c,
    slot-store id i 2 r c,
    slot-store id i 3 r c,
    slot-store id i 4 r c,
    exists-store id i r c,
    number_of-bytes_of r.option_id,
    number_of-bytes_of r.buyer,
    number_of-bytes_of r.btc_amount,
    pack-expiry r.expiry_block r.status,
    pack-status r.expiry_block r.status,
  )

  -- `clear` leaves the other reservations; the one that it clears is gone if the zero word does not
  -- count as present, and else is there with every field zero, which is a pending one of option 0.
  pub view-clear_reservation :
      (id : ℕ) (c : Cells)
      → view (clear_reservation host base id c)
        ≡ update (view c) id (if present (zeros 32) then some (cleared id) else none)
  unfolding read_reservation get_reservation_expiry get_reservation_status
  view-clear_reservation id c = fun_ext λ i. ground (
    arith,
    slot-clear id i 0 c,
    slot-clear id i 1 c,
    slot-clear id i 2 c,
    slot-clear id i 3 c,
    slot-clear id i 4 c,
    exists-clear id i c,
    number_of-zeros,
    zeros-expiry,
  )

  -- `setStatus` changes the status of one reservation, if it is there, and nothing else, where the
  -- expiry that is stored is a u64.
  pub view-set_reservation_status_byte :
      (id status : ℕ) (c : Cells)
      → get_reservation_expiry host base id c < u64_mod
      → view (set_reservation_status_byte host base id status c)
        ≡ update (view c) id (with_status status (view c id))
  unfolding read_reservation get_reservation_expiry get_reservation_status
      set_reservation_status_byte
  view-set_reservation_status_byte id status c h = fun_ext λ i.
      let e = get_reservation_expiry host base id c in
      let word = pack_expiry_and_status e status in
      let at = λ (n : ℕ). slot_lem id 4 i n word c in
      ground (
        arith,
        at 0,
        at 1,
        at 2,
        at 3,
        at 4,
        exists_lem id 4 i word c,
        pack-expiry e status,
        pack-status e status,
      )
