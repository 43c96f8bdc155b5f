-- ===== src/Rx/Wrap.antt =====
-- The watermark is a `uint16_t`: near the end of the address space the scan can step over the end of
-- the package, and then go round for ever.
use native.Mathlib.Nat.{
  div-lt_iff_lt-mul, div-mul-le_self, mod-eq_of_lt, mul-le-mul, mul-le-mul_right,
}
use native.Mathlib.Decide.{dec_lt}
use master_pilot_custom_data.Base.{
  ℕ, zero, suc, ◌+◌, ◌-◌, ◌*◌, ◌/◌, ◌%◌, ◌^◌, ◌≤◌, ◌<◌, true, false, none, some, ◌≡◌, refl, arith,
  ltb, if◌then◌else◌, ◌>>=◌, length, ap, ◌∙◌, le→ltb, ◌&&◌, u16,
}
use master_pilot_custom_data.Coordinate.{offset_to_slice_idx}
use master_pilot_custom_data.Coordinate.Laws.{offset_exact}
use master_pilot_custom_data.Rx.{
  SliceState, has_slice, scan, scan_fuel, advance_watermark, record_slice, calc_slice_step,
  calc_termination,
}
use master_pilot_custom_data.Rx.Bitmap.{has_slice-set_slice}

slice_idx_below : (wm p : ℕ) → 2 ^ 8 ≤ p → wm < 2 ^ 16 → offset_to_slice_idx wm p ≡ wm / p
unfolding offset_to_slice_idx
slice_idx_below wm p big h =
    let few : wm / p < 2 ^ 8 = (div-lt_iff_lt-mul (omega arith)).1 (omega arith) in mod-eq_of_lt few

-- Every step of the scan moves by a multiple of 8, and 2^16 is one: so the watermark never comes
-- to an end that lies in the last 7 addresses, once all slices below 2^16 are in.
pub scan_never :
    (s : SliceState) (q : ℕ) (fuel w : ℕ)
    → 2 ^ 8 ≤ q * 8
    → 2 ^ 16 - 8 < s.termination
    → ((m : ℕ) → m * (q * 8) < 2 ^ 16 → has_slice s.bitmap m ≡ true)
    → w * 8 < 2 ^ 16
    → scan fuel s (q * 8) (w * 8) ≡ none
unfolding scan
scan_never s q zero w big far held below = refl
scan_never s q (suc fuel) w big far held below =
    let idx = w * 8 / (q * 8) in
    let within : idx * (q * 8) < 2 ^ 16 = omega (arith, div-mul-le_self (w * 8) (q * 8)) in
    let next : u16 (w * 8 + q * 8) ≡ (w + q) % 2 ^ 13 * 8 = omega arith in
    let on = scan_never s q fuel ((w + q) % 2 ^ 13) big far held (omega arith) in
    rw (slice_idx_below (w * 8) (q * 8) big below, held idx within, next, on) (ground arith)

noted_end :
    (s : SliceState) (last size p : ℕ)
    → last * p + size < 2 ^ 16
    → (record_slice s last size p true).termination ≡ last * p + size
unfolding record_slice calc_termination
noted_end s last size p fits = ground (arith, offset_exact last p)

advance_never :
    (s : SliceState) (q w : ℕ)
    → 2 ^ 8 ≤ q * 8
    → 2 ^ 16 - 8 < s.termination
    → ((m : ℕ) → m * (q * 8) < 2 ^ 16 → has_slice s.bitmap m ≡ true)
    → s.watermark ≡ w * 8
    → w * 8 < 2 ^ 16
    → advance_watermark s (q * 8) ≡ none
unfolding advance_watermark
advance_never s q w big far held at below =
    ap
      (λ r. r >>= (λ wm.
        some (if ltb 0 s.termination && ltb s.termination wm then s.termination else wm)))
      (ap (scan scan_fuel s (q * 8)) at ∙ scan_never s q scan_fuel w big far held below)

-- A package whose last slice is the last one below 2^16, and which ends in the last 7 addresses
-- below 2^16, where `max_payload` is a multiple of 8 and at least 256: when its last slice comes in
-- order, with the end mark and every slice before it in, the receiver's step does not end.
pub last_slice_hangs :
    (s : SliceState) (q last size : ℕ)
    → 2 ^ 8 ≤ q * 8
    → last * (q * 8) < 2 ^ 16
    → 2 ^ 16 ≤ (last + 1) * (q * 8)
    → 2 ^ 16 - 8 < last * (q * 8) + size
    → last * (q * 8) + size < 2 ^ 16
    → length s.bitmap ≡ 8
    → ((m : ℕ) → m < last → has_slice s.bitmap m ≡ true)
    → has_slice s.bitmap last ≡ false
    → s.watermark ≡ last * (q * 8)
    → calc_slice_step s last size (q * 8) true ≡ none
unfolding calc_slice_step
last_slice_hangs s q last size big addressed full far fits eight held missing at =
    let noted = record_slice s last size (q * 8) true in
    let all_in : (m : ℕ) → m * (q * 8) < 2 ^ 16 → has_slice noted.bitmap m ≡ true =
      λ m h. filled m (before m h) in
    rw (
      missing,
      offset_exact last (q * 8) addressed,
      le→ltb s.watermark (last * (q * 8)) (omega (arith, at)),
      advance_never noted q (last * q) big (omega (arith, noted_end s last size (q * 8) fits))
          all_in (unfold record_slice in omega (arith, at)) (omega arith),
      ◌>>=◌,
    )
  where
    before : (m : ℕ) → m * (q * 8) < 2 ^ 16 → m ≤ last
    before m h = elim (dec_lt last m) [
      | no le ↦ omega arith
      | yes past ↦
          absurd (omega (arith, mul-le-mul_right {m = last + 1} {n = m} (q * 8) (omega arith)))
    ]

    few : last < 2 ^ 8
    few = elim (dec_lt last (2 ^ 8)) [
      | yes below ↦ below
      | no above ↦ absurd (
          omega (
            arith,
            mul-le-mul {n₁ = 2 ^ 8} {m₁ = 2 ^ 8} {n₂ = last} {m₂ = q * 8} (omega arith) big,
          ))
    ]

    filled : (m : ℕ) → m ≤ last → has_slice (record_slice s last size (q * 8) true).bitmap m ≡ true
    filled m le =
        unfold record_slice in ground (arith, has_slice-set_slice s.bitmap last m eight few, held m)
