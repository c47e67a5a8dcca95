-- ===== src/Indexer/Decoding.antt =====
-- Every event of a pool, written and decoded (indexer/src/decoder/index.ts).
use frogop_pub.Prelude.{ℕ, ◌+◌, ◌≡◌, refl, some, List, [], ◌∷◌, arith}
use frogop_pub.Pool.State.{
  Event, option_written, option_cancelled, option_purchased, option_exercised, option_expired,
  option_transferred, option_rolled, fee_recipient_updated, option_reserved,
  reservation_was_executed, reservation_cancelled, option_restored, option_written_btc,
  btc_claimable, option_cancelled_btc, option_expired_btc,
}
use frogop_pub.Indexer.Statements.{IsReadable, statements_of, parse_exact, parse_all, read_hash}
use frogop_pub.Indexer.Tables.{Statement}
use frogop_pub.Indexer.Reader.{u256, address, read_fields}
use frogop_pub.Indexer.Decoder.{
  Javascript, decode_event, handle_written, handle_cancelled, handle_purchased, handle_exercised,
  handle_settled, handle_transferred, handle_option_reserved, handle_reservation_executed,
  handle_reservation_cancelled, handle_written_btc,
}
use frogop_pub.Indexer.Emission.{
  BytesWriter, as_u8, as_u64, as_u256, as_address, as_bytes, event_fields, event_type, write_all,
}

module _ (bw : BytesWriter) (js : Javascript) (pool block tx grace : ℕ) where
  -- What the decoder makes of an event as the contract wrote it.
  unfoldable pub decoded : Event → List Statement
  unfolding event_fields event_type
  decoded e = decode_event js pool block tx (write_all bw (event_fields e)) (event_type e) grace

  -- An event of a pool whose fields fit their types, with identifiers and block numbers that are
  -- exact in floating point, is decoded into the statements that its fields say: the reader finds
  -- again what the contract wrote. The cancellation of a Bitcoin call is recorded with its escrow
  -- hash as a fee.
  pub decoded-statements_of :
      (e : Event) → IsReadable grace e → decoded e ≡ statements_of bw pool block tx grace e
  unfolding decoded decode_event statements_of
  decoded-statements_of (option_written id writer ty strike amount premium expiry) h =
      unfold handle_written in
      rw
        (parse_exact bw id
          (as_address writer
            ∷ as_u8 ty
            ∷ as_u256 strike
            ∷ as_u256 amount
            ∷ as_u256 premium
            ∷ as_u64 expiry
            ∷ [])
          h.0)
        (ground (
          arith,
          js.to_number_exact id h.1.0,
          js.to_number_exact expiry,
          js.to_number_exact (expiry + grace),
        ))
  decoded-statements_of (option_cancelled id writer return_amount fee) h =
      unfold handle_cancelled in
      rw (parse_exact bw id (as_address writer ∷ as_u256 return_amount ∷ as_u256 fee ∷ []) h.0)
        (ground (arith, js.to_number_exact id h.1))
  decoded-statements_of (option_purchased id buyer writer premium writer_amount b) h =
      unfold handle_purchased in
      rw
        (parse_exact bw id
          (as_address buyer
            ∷ as_address writer
            ∷ as_u256 premium
            ∷ as_u256 writer_amount
            ∷ as_u64 b
            ∷ [])
          h.0)
        (ground (arith, js.to_number_exact id h.1))
  decoded-statements_of (option_exercised id buyer writer ty amount value fee) h =
      unfold handle_exercised in
      rw
        (parse_exact bw id
          (as_address buyer
            ∷ as_address writer
            ∷ as_u8 ty
            ∷ as_u256 amount
            ∷ as_u256 value
            ∷ as_u256 fee
            ∷ [])
          h.0)
        (ground (arith, js.to_number_exact id h.1))
  decoded-statements_of (option_expired id writer amount) h =
      unfold handle_settled in
      rw (parse_exact bw id (as_address writer ∷ as_u256 amount ∷ []) h.0)
        (ground (arith, js.to_number_exact id h.1))
  decoded-statements_of (option_transferred id buyer new_buyer) h =
      unfold handle_transferred in
      rw (parse_exact bw id (as_address buyer ∷ as_address new_buyer ∷ []) h.0)
        (ground (arith, js.to_number_exact id h.1))
  decoded-statements_of (option_reserved id option_id buyer btc_amount hash expiry) h =
      unfold handle_option_reserved in
      rw
        (parse_exact bw id
          (as_u256 option_id
            ∷ as_address buyer
            ∷ as_u256 btc_amount
            ∷ as_bytes hash
            ∷ as_u64 expiry
            ∷ [])
          h.0)
        (ground (arith, js.to_number_exact option_id h.1))
  decoded-statements_of (reservation_was_executed id option_id buyer) h =
      unfold handle_reservation_executed in
      rw (parse_exact bw id (as_u256 option_id ∷ as_address buyer ∷ []) h.0)
        (ground (arith, js.to_number_exact option_id h.1))
  decoded-statements_of (reservation_cancelled id option_id) h =
      unfold handle_reservation_cancelled in
      rw (parse_exact bw id (as_u256 option_id ∷ []) h.0)
        (ground (arith, js.to_number_exact option_id h.1))
  decoded-statements_of (option_written_btc id writer ty strike amount premium expiry hash) h =
      let parse =
        parse_all bw id
          (as_address writer
            ∷ as_u8 ty
            ∷ as_u256 strike
            ∷ as_u256 amount
            ∷ as_u256 premium
            ∷ as_u64 expiry
            ∷ [])
          (as_bytes hash ∷ []) (u256 ∷ address ∷ [])
          (
            h.0.0,
            (
              tt,
              (
                h.0.1.1.0,
                (h.0.1.1.1.0, (h.0.1.1.1.1.0, (h.0.1.1.1.1.1.0, (h.0.1.1.1.1.1.1.0, tt)))),
              ),
            ),
          ) in
      let hashed = read_hash bw hash h.0.1.1.1.1.1.1.1.0 in
      unfold handle_written_btc in
      ground (
        arith,
        parse,
        hashed,
        js.to_number_exact id h.1.0,
        js.to_number_exact expiry,
        js.to_number_exact (expiry + grace),
      )
  decoded-statements_of (option_cancelled_btc id writer btc_amount hash) h =
      let parse =
        parse_all bw id (as_address writer ∷ as_u256 btc_amount ∷ []) (as_bytes hash ∷ [])
          (u256 ∷ []) (h.0.0, (tt, (h.0.1.1.0, tt))) in
      let hashed = read_hash bw hash h.0.1.1.1.0 in
      unfold handle_cancelled in ground (arith, parse, hashed, js.to_number_exact id h.1)
  decoded-statements_of (option_expired_btc id writer btc_amount hash) h =
      let parse =
        parse_all bw id (as_address writer ∷ as_u256 btc_amount ∷ []) (as_bytes hash ∷ []) ([])
          (h.0.0, (tt, (h.0.1.1.0, tt))) in
      let no_more : read_fields [] (write_all bw (as_bytes hash ∷ [])) ≡ some [] =
        unfold read_fields in refl in
      unfold handle_settled in ground (arith, parse, no_more, js.to_number_exact id h.1)
  decoded-statements_of (option_rolled id new_id caller strike expiry premium) h = refl
  decoded-statements_of (fee_recipient_updated caller to) h = refl
  decoded-statements_of (option_restored option_id) h = refl
  decoded-statements_of (btc_claimable id buyer btc_amount hash) h = refl
