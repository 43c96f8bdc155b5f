-- ===== src/Tests/Commands.antt =====
-- The tx and rx commands: src/tools/tx.c and rx.c.
use mathlib.Core.List.{flatten}
use master_pilot_custom_data.Base.{
  Option, take, ◌≤◌, ◌≢◌, ◌++◌, zero, suc, length, true, replicate, ℕ, false, none, some, List, ◌≡◌,
  refl, arith, [], ◌∷◌, u8,
}
use master_pilot_custom_data.Coordinate.{max_payload}
use master_pilot_custom_data.Header.{packed_header_to_array}
use master_pilot_custom_data.Rx.{zero_state}
use master_pilot_custom_data.Rx.Package.{Shape, IsShape, size_of}
use master_pilot_custom_data.RxStream.Arrivals.{slice_frame, seen}
use master_pilot_custom_data.Tools.Rx.{cmd_rx}
use master_pilot_custom_data.Tools.Rx.Delivery.{Takes, part_of}
use master_pilot_custom_data.Tools.Rx.Slices.{AreRests}
use master_pilot_custom_data.Tools.Rx.Package.{Writes, cmd_rx-bytes}
use master_pilot_custom_data.TxStream.Framer.{Slice}
use master_pilot_custom_data.TxStream.Package.{Packaged}
use master_pilot_custom_data.Tools.Session.{TxSession, session_send_magic}
use master_pilot_custom_data.Tools.Tx.{TxUser, cmd_tx}
use master_pilot_custom_data.Tools.Transfer.RoundTrip.{Transfers, fresh, cmd_rx-cmd_tx}
use master_pilot_custom_data.Tools.Tx.Sink.{AreFrames}
use master_pilot_custom_data.Tools.Tx.Frames.{SavedWith, cmd_tx-Packaged}

abbrev session : TxSession
session = record {
  magic = session_send_magic;
  transmission_unit = 7;
  coord = record { sender_id = 0; package_id = 9; offset = 0 };
}

abbrev takes_all : ℕ → ℕ → ℕ
takes_all n count = count

abbrev reads : List (List ℕ)
reads = (1 ∷ 2 ∷ []) ∷ (3 ∷ 4 ∷ 5 ∷ []) ∷ []

cmd_tx-Packaged_example :
    (slices : List Slice) × (sink : TxUser) × Packaged
      (max_payload (record { transmission_unit = 7 }))
      (u8 258)
      9
      0
      (flatten reads)
      slices
    × SavedWith takes_all session 258 reads sink
    × AreFrames 7 slices sink.written
    × (sink.fault ≡ false)
    × (sink.exited ≡ none)
unfolding max_payload flatten
cmd_tx-Packaged_example =
    cmd_tx-Packaged takes_all session 258 reads (omega arith) (omega arith) (λ n. refl) refl
      (omega arith) (omega arith) (omega arith)

abbrev five : Shape
five = record { p = 3; last = 1; tail = 2 }

five-IsShape : IsShape five
five-IsShape = omega arith

abbrev bytes : List ℕ
bytes = 1 ∷ 2 ∷ 3 ∷ 4 ∷ 5 ∷ []

-- An output that takes one byte at a time.
abbrev writes : ℕ → ℕ → Option ℕ
writes n count = some 1

writes-Takes : Takes writes
writes-Takes n count more = (1, refl, omega arith, omega arith)

abbrev rest : ℕ → List ℕ
rest zero = 1 ∷ 2 ∷ 3 ∷ []
rest (suc i) = 4 ∷ 5 ∷ 0 ∷ []

rest-long : (i : ℕ) → i ≤ 1 → size_of five i ≤ length (rest i)
rest-long zero h = omega arith
rest-long (suc zero) h = omega arith
rest-long (suc (suc i)) h = absurd (omega arith)

rest-content : (i : ℕ) → i ≤ 1 → take (size_of five i) (rest i) ≡ part_of 3 bytes i
rest-content zero h = refl
rest-content (suc zero) h = refl
rest-content (suc (suc i)) h = absurd (omega arith)

rest-AreRests : AreRests five five-IsShape bytes refl writes writes-Takes 7 rest
rest-AreRests = record { long = rest-long; content = rest-content }

frame_length : (i : ℕ) → i ≤ 1 → length (slice_frame five 2 9 rest i) ≡ 7
unfolding packed_header_to_array
frame_length zero h = refl
frame_length (suc zero) h = refl
frame_length (suc (suc i)) h = absurd (omega arith)

only_first : (m : ℕ) → m ≤ 1 → m ≢ 0 → seen (1 ∷ 1 ∷ []) m ≡ true
only_first zero h ne = absurd (ne refl)
only_first (suc zero) h ne = refl
only_first (suc (suc m)) h ne = absurd (omega arith)

cmd_rx-bytes_example :
    Writes five five-IsShape bytes refl writes writes-Takes 7 2 9 rest rest-AreRests
      (omega arith)
      (unfold max_payload in refl)
      (omega arith)
      (omega arith)
      frame_length
      (cmd_rx writes
        (record { magic = 0; transmission_unit = 7; state = zero_state }, replicate 256 0)
        (slice_frame five 2 9 rest 1
          ++ (slice_frame five 2 9 rest 1 ++ (slice_frame five 2 9 rest 0 ++ []))))
unfolding max_payload
cmd_rx-bytes_example =
    cmd_rx-bytes five five-IsShape bytes refl writes writes-Takes 7 2 9 rest rest-AreRests
      (omega arith) refl (omega arith) (omega arith) frame_length 0 (replicate 256 0) (1 ∷ 1 ∷ []) 0
      (omega arith) (omega arith, (omega arith, tt)) (omega arith) (refl, only_first)

cmd_rx-cmd_tx_example :
    Transfers session reads
      (1 ∷ 1 ∷ 0 ∷ [])
      (cmd_tx takes_all session 258 reads)
      (cmd_rx writes (fresh 0 7, replicate 256 0))
unfolding max_payload flatten
cmd_rx-cmd_tx_example =
    cmd_rx-cmd_tx five takes_all session 258 reads writes 0 (replicate 256 0) (1 ∷ 1 ∷ []) 0
      five-IsShape (omega arith) refl refl (omega arith) (omega arith) (λ n. refl) refl
      (omega arith) (omega arith, (omega arith, tt)) writes-Takes (omega arith)
      (omega arith, (omega arith, tt)) (omega arith) (refl, only_first)
