-- ===== src/Tests/Receiving.antt =====
-- The receiver: src/core/customdata-rx.h and customdata-stream-rx.c.
use native.Mathlib.Decide.{ℕ_discrete}
use master_pilot_custom_data.Base.{
  ℕ, zero, suc, Bool, ◌&&◌, ◌<◌, true, false, some, none, List, ◌≡◌, refl, arith, [], ◌∷◌, ◌++◌,
  ◌>>=◌, ◌==◌, if◌then◌else◌,
}
use master_pilot_custom_data.Coordinate.{Config, max_payload}
use master_pilot_custom_data.Tx.Laws.{slot_header}
use master_pilot_custom_data.Rx.{
  SliceState, StreamEvent, new_slice_in_order, complete, zero_state, has_slice, set_slice,
  calc_slice_step, header_to_coordinate, termination_to_slice_count,
}
use master_pilot_custom_data.Rx.Bitmap.{has_slice-set_slice}
use master_pilot_custom_data.Rx.Received.{nothing}
use master_pilot_custom_data.Rx.Package.{Shape, IsShape, zero_state-Waits, slice_count-total}
use master_pilot_custom_data.Rx.Step.{step, step-Outcome, Outcome}
use master_pilot_custom_data.Rx.Wrap.{last_slice_hangs}
use master_pilot_custom_data.Rx.Empty.{step-empty, after_empty}
use master_pilot_custom_data.RxStream.{after_step, rx_stream_feed}
use master_pilot_custom_data.RxStream.Frame.{frame_of, feed-frame}
use master_pilot_custom_data.RxStream.Arrivals.{journal_stream, feed_slices, NoComplete}
use master_pilot_custom_data.RxStream.Complete.{complete_once}

-- Five bytes, three to a slice.
abbrev five : Shape
five = record { p = 3; last = 1; tail = 2 }

five-IsShape : IsShape five
five-IsShape = omega arith

abbrev tu7 : Config
tu7 = record { transmission_unit = 7 }

has_slice-set_slice_example : has_slice (set_slice zero_state.bitmap 200) 200 ≡ true
has_slice-set_slice_example = has_slice-set_slice zero_state.bitmap 200 200 refl (omega arith)

slice_count-total_example : termination_to_slice_count 5 3 ≡ 2
slice_count-total_example = slice_count-total five five-IsShape

step-Outcome_example : Outcome five nothing 0 zero_state 1 (step five zero_state 1)
step-Outcome_example =
    step-Outcome five five-IsShape nothing 0 zero_state (zero_state-Waits five) 1 (omega arith)

step-empty_example :
    calc_slice_step zero_state 0 0 296 true
    ≡ some (record { e = new_slice_in_order; next_state = after_empty 296 })
step-empty_example = step-empty 296 (omega arith) (omega arith)

feed-frame_example :
    let s = journal_stream tu7 zero_state [] in
    let header = slot_header 2 9 0 3 false in
    let coord = header_to_coordinate tu7 header in
    rx_stream_feed s (frame_of header (1 ∷ 2 ∷ 3 ∷ [])) 7
    ≡ (step five zero_state 0 >>= after_step s coord 0 (1 ∷ 2 ∷ 3 ∷ []) 3)
unfolding max_payload
feed-frame_example =
    feed-frame five five-IsShape (omega arith) (journal_stream tu7 zero_state []) 2 9 0
      (1 ∷ 2 ∷ 3 ∷ []) 7 refl (omega arith) (omega arith) (omega arith)

payload : ℕ → List ℕ
payload i = if i == 0 then 1 ∷ 2 ∷ 3 ∷ [] else 4 ∷ 5 ∷ 0 ∷ []

-- The last slice comes first, and twice.
complete_once_example :
    (es : List StreamEvent) × NoComplete es
    × (feed_slices five 2 9 7 payload (journal_stream tu7 zero_state []) (1 ∷ 1 ∷ 0 ∷ [])
        ≡ some (journal_stream tu7 zero_state (es ++ complete ∷ [])))
unfolding max_payload
complete_once_example =
    complete_once tu7 five 2 9 7 payload five-IsShape (omega arith) refl (omega arith) (omega arith)
      (1 ∷ 1 ∷ []) 0 (omega arith) (omega arith) (refl, λ j within ne. ground arith)

-- The state after the slices 0 to 220 of a package of 65530 bytes, 296 to a slice.
abbrev full_words : List ℕ
full_words =
    0xffff_ffff ∷ 0xffff_ffff ∷ 0xffff_ffff ∷ 0xffff_ffff ∷ 0xffff_ffff ∷ 0xffff_ffff ∷ 0x1fff_ffff
    ∷ 0 ∷ []

abbrev before_last : SliceState
before_last = record {
  bitmap = full_words;
  received_count = 221;
  termination = 0;
  watermark = 65416;
}

held_below : ℕ → Bool
held_below zero = true
held_below (suc n) = has_slice full_words n && held_below n

held_below_sound : (n : ℕ) → held_below n ≡ true → (m : ℕ) → m < n → has_slice full_words m ≡ true
unfolding held_below
held_below_sound zero h m lt = absurd (omega arith)
held_below_sound (suc n) h m lt = elim (ℕ_discrete m n) [
  | yes e ↦ rw e (ground arith)
  | no ne ↦ held_below_sound n (ground arith) m (omega arith)
]

last_slice_hangs_example : calc_slice_step before_last 221 114 296 true ≡ none
unfolding held_below has_slice
last_slice_hangs_example =
    last_slice_hangs before_last 37 221 114 (omega arith) (omega arith) (omega arith) (omega arith)
      (omega arith) refl (held_below_sound 221 refl) refl refl
