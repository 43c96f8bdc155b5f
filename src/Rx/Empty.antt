-- ===== src/Rx/Empty.antt =====
-- A package with no bytes: its only slice is empty and has the end mark.
use master_pilot_custom_data.Base.{
  ℕ, ◌*◌, ◌^◌, ◌<◌, Bool, true, some, ◌≡◌, inl, lt→ltb, ◌>>=◌, refl, arith,
}
use master_pilot_custom_data.Coordinate.{slice_idx_to_offset}
use master_pilot_custom_data.Rx.{
  SliceState, duplicate, new_slice_in_order, zero_state, set_slice, record_slice, is_complete,
  advance_watermark, calc_slice_step, calc_termination,
}
use master_pilot_custom_data.Rx.Bitmap.{has_slice-set_slice, has_slice-none}
use master_pilot_custom_data.Rx.Scan.{advance-gap}

-- The state that the empty package leaves.
abbrev pub after_empty : ℕ → SliceState
after_empty p = record zero_state { bitmap = set_slice zero_state.bitmap 0; watermark = p }

-- The empty package's slice, into the zeroed state, is not reported complete: it moves the watermark
-- over a whole slice's payload, of which no byte was sent.
pub step-empty :
    (p : ℕ)
    → 0 < p
    → p < 2 ^ 16
    → calc_slice_step zero_state 0 0 p true
      ≡ some (record { e = new_slice_in_order; next_state = after_empty p })
unfolding calc_slice_step record_slice calc_termination is_complete slice_idx_to_offset
step-empty p pos small =
    let noted = record zero_state { bitmap = set_slice zero_state.bitmap 0 } in
    let scans : advance_watermark noted p ≡ some (1 * p) =
      advance-gap noted p pos 0 1 (omega arith) (omega arith) (omega arith) (omega arith)
        (λ m above below.
          ground (arith, has_slice-set_slice zero_state.bitmap 0 m refl (omega arith)))
        (ground
          (arith, has_slice-set_slice zero_state.bitmap 0 1 refl (omega arith), has_slice-none 1))
        (inl refl) in
    let start : 0 * p ≡ 0 = omega arith in
    let one_slot : 1 * p ≡ p = omega arith in
    rw (has_slice-none 0, lt→ltb 0 p pos, start, scans, one_slot, ◌>>=◌)

-- From then on the first slice of any package is dropped as a duplicate.
pub first_slice_dropped :
    (p size : ℕ) (eop : Bool)
    → calc_slice_step (after_empty p) 0 size p eop
      ≡ some (record { e = duplicate; next_state = after_empty p })
unfolding calc_slice_step
first_slice_dropped p size eop =
    ground (arith, has_slice-set_slice zero_state.bitmap 0 0 refl (omega arith))
