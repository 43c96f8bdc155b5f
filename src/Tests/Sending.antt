-- ===== src/Tests/Sending.antt =====
-- The sending stream: src/core/customdata-stream-tx.c.
use mathlib.Core.List.{flatten}
use master_pilot_custom_data.Base.{
  ℕ, true, false, some, List, foldl, ◌≡◌, refl, arith, [], ◌∷◌, take,
}
use master_pilot_custom_data.Coordinate.{Config, max_payload, offset_to_slice_idx}
use master_pilot_custom_data.Tx.Laws.{slot_header}
use master_pilot_custom_data.TxStream.{
  take_size, feed_round, feed_loop, tx_stream_feed, tx_stream_finalize,
}
use master_pilot_custom_data.Tx.{tx_prepare}
use master_pilot_custom_data.TxStream.Framer.{Slice, put_byte, stream_at}
use master_pilot_custom_data.TxStream.Feed.{feed-framer}
use master_pilot_custom_data.TxStream.Package.{
  feed_all, send, start, opening, sent_by, Packaged, send-Packaged, send_split,
}

-- Three bytes of payload to a slice.
abbrev tu7 : Config
tu7 = record { transmission_unit = 7 }

abbrev bytes : List ℕ
bytes = 1 ∷ 2 ∷ 3 ∷ 4 ∷ 5 ∷ []

feed-framer_example :
    tx_stream_feed (stream_at tu7 (opening tu7 2 9)) bytes 5
    ≡ some (stream_at tu7 (foldl (put_byte tu7) (opening tu7 2 9) (take 5 bytes)))
unfolding max_payload
feed-framer_example =
    feed-framer tu7 (opening tu7 2 9) bytes 5 (omega arith) (omega arith) (omega arith)
      (omega arith)

two_slices :
    sent_by (send (start tu7 2 9) (bytes ∷ []))
    ≡ some (record {
      pending = [];
      sent =
          record { header = slot_header 2 9 0 3 false; payload = 1 ∷ 2 ∷ 3 ∷ [] }
          ∷ record { header = slot_header 2 9 1 2 true; payload = 4 ∷ 5 ∷ [] }
          ∷ [];
    })
unfolding send feed_all tx_stream_feed feed_loop take_size max_payload feed_round tx_stream_finalize
    tx_prepare offset_to_slice_idx
two_slices = refl

send-Packaged_example :
    (slices : List Slice) × Packaged (max_payload tu7) 2 9 0 (flatten (bytes ∷ bytes ∷ [])) slices
    × (sent_by (send (start tu7 2 9) (bytes ∷ bytes ∷ []))
        ≡ some (record { pending = []; sent = slices }))
unfolding max_payload flatten
send-Packaged_example =
    send-Packaged tu7 2 9 (bytes ∷ bytes ∷ []) (omega arith) (omega arith) (omega arith)
      (omega arith)

send_split_example :
    send (start tu7 2 9) (bytes ∷ []) ≡ send (start tu7 2 9) ((1 ∷ []) ∷ (2 ∷ 3 ∷ 4 ∷ 5 ∷ []) ∷ [])
unfolding max_payload flatten
send_split_example =
    send_split tu7 2 9 (bytes ∷ []) ((1 ∷ []) ∷ (2 ∷ 3 ∷ 4 ∷ 5 ∷ []) ∷ []) (omega arith)
      (omega arith) (omega arith) refl
