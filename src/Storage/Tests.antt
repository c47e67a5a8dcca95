-- ===== src/Storage/Tests.antt =====
-- A storage with its cells as a function of the three parts of a key, and the theorems of the two
-- stores on it.
use frogop_pub.Prelude.{
  ℕ, ◌<◌, ◌≡◌, refl, Bool, true, ◌&&◌, not, Option, none, some, List, [], ◌∷◌, ◌==◌, if◌then◌else◌,
  update, arith,
}
use frogop_pub.Pool.State.{OptionRecord}
use frogop_pub.Storage.Bytes.{zeros, byte_at}
use frogop_pub.Storage.Host.{HostStorage}
use frogop_pub.Storage.Options.{store_option}
use frogop_pub.Storage.Reservations.{Reservation, store_reservation, clear_reservation}
use frogop_pub.Storage.OptionCells as OptionCells
use frogop_pub.Storage.ReservationCells as ReservationCells

abbrev Place : Type 0
Place = ℕ × ℕ × ℕ

abbrev is_zero : List ℕ → Bool
is_zero [] = true
is_zero (b ∷ bs) = b == 0 && is_zero bs

has_set_lem :
    (p i n p' i' n' : ℕ) (v : List ℕ) (c : ℕ → ℕ → ℕ → List ℕ)
    → not (is_zero (if (p == p') && ((i == i') && (n == n')) then v else c p' i' n')) ≡ (
        if (p == p') && ((i == i') && (n == n'))
        then not (is_zero v)
        else not (is_zero (c p' i' n')))
has_set_lem p i n p' i' n' v c = ground arith

present_lem : (n : ℕ) → 0 < n → not (is_zero (n ∷ zeros 31)) ≡ true
present_lem n h = ground arith

-- The first byte carries a whole number here.
abbrev plain_storage : HostStorage
plain_storage = record {
  Cells = ℕ → ℕ → ℕ → List ℕ;
  Key = Place;
  key = λ p i n. (p, i, n);
  get_storage_at = λ k c. c k.0 k.1 k.2;
  has_storage_at = λ k c. not (is_zero (c k.0 k.1 k.2));
  set_storage_at = λ k v c p i n. if (k.0 == p) && ((k.1 == i) && (k.2 == n)) then v else c p i n;
  present = λ v. not (is_zero v);
  bytes_of = λ n. n ∷ zeros 31;
  number_of = λ v. byte_at v 0;
  get-set = λ p i n p' i' n' v c. refl;
  has-set = λ p i n p' i' n' v c. has_set_lem p i n p' i' n' v c;
  number_of-bytes_of = λ n h. refl;
  present-bytes_of = λ n h lt. present_lem n h;
  bytes_of-zero = refl;
  number_of-zeros = refl;
}

abbrev blank : ℕ → ℕ → ℕ → List ℕ
blank p i n = zeros 32

abbrev an_option : OptionRecord
an_option = record {
  id = 3;
  writer = 11;
  buyer = 0;
  strike_price = 2000;
  underlying_amount = 1000;
  premium = 250;
  expiry_block = 0x123456789;
  created_block = 850_000;
  option_type = 1;
  status = 0;
}

an_option-IsStorable : OptionCells.IsStorable an_option
an_option-IsStorable = record {
  writer = omega arith;
  someone = omega arith;
  buyer = omega arith;
  strike_price = omega arith;
  underlying_amount = omega arith;
  premium = omega arith;
  expiry_block = omega arith;
  created_block = omega arith;
}

abbrev options_in : (ℕ → ℕ → ℕ → List ℕ) → ℕ → Option OptionRecord
options_in = OptionCells.view plain_storage 5

abbrev reservations_in : (ℕ → ℕ → ℕ → List ℕ) → ℕ → Option Reservation
reservations_in = ReservationCells.view plain_storage 6

view-store_option_example :
    options_in (store_option plain_storage 5 3 an_option blank)
    ≡ update (options_in blank) 3 (some an_option)
view-store_option_example =
    OptionCells.view-store_option plain_storage 5 3 an_option blank an_option-IsStorable refl

abbrev a_reservation : Reservation
a_reservation = record {
  id = 4;
  option_id = 3;
  buyer = 12;
  btc_amount = 500;
  csv_script_hash = zeros 32;
  expiry_block = 850_144;
  status = 0;
}

a_reservation-IsStorable : ReservationCells.IsStorable a_reservation
a_reservation-IsStorable = record {
  option_id = omega arith;
  buyer = omega arith;
  btc_amount = omega arith;
  expiry_block = omega arith;
}

view-store_reservation_example :
    reservations_in (store_reservation plain_storage 6 4 a_reservation blank)
    ≡ update (reservations_in blank) 4 (some a_reservation)
view-store_reservation_example =
    ReservationCells.view-store_reservation plain_storage 6 4 a_reservation blank
      a_reservation-IsStorable refl

view-clear_reservation_example :
    reservations_in (clear_reservation plain_storage 6 4 blank)
    ≡ update (reservations_in blank) 4 none
view-clear_reservation_example = ReservationCells.view-clear_reservation plain_storage 6 4 blank
