-- ===== src/Rx/Scan.antt =====
-- `mp_rx_advance_watermark`: where the scan of the bitmap stops.
use native.Mathlib.Nat.{mul-le-mul_right}
use native.Mathlib.Decide.{dec_le}
use master_pilot_custom_data.Base.{
  ℕ, zero, suc, ◌+◌, ◌-◌, ◌*◌, ◌^◌, ◌≤◌, ◌<◌, true, false, ◌&&◌, some, ◌≡◌, ◌⊎◌, inr, arith, ltb,
  if◌then◌else◌, ◌>>=◌, ap, ◌∙◌, u16,
}
use master_pilot_custom_data.Coordinate.Laws.{slice_idx_exact}
use master_pilot_custom_data.Rx.{SliceState, has_slice, scan, scan_fuel, advance_watermark}

scan_fuel-lt : 256 < scan_fuel
unfolding scan_fuel
scan_fuel-lt = omega arith

module _ (s : SliceState) (p : ℕ) (pos : 0 < p) where
  -- The slices from `k` on, below `g`, are in.
  abbrev pub Run : ℕ → ℕ → Type 0
  Run k g = (m : ℕ) → k ≤ m → m < g → has_slice s.bitmap m ≡ true

  step_on :
      (fuel k : ℕ)
      → (s.termination ≡ 0) ⊎ (k * p < s.termination)
      → k < 2 ^ 8
      → (k + 1) * p < 2 ^ 16
      → has_slice s.bitmap k ≡ true
      → scan (suc fuel) s p (k * p) ≡ scan fuel s p (suc k * p)
  unfolding scan
  step_on fuel k open_end few fits held =
      let next : u16 (k * p + p) ≡ suc k * p = omega arith in
      rw (slice_idx_exact k p few pos, held, next) (ground arith)

  stop_at_gap :
      (fuel k : ℕ)
      → (s.termination ≡ 0) ⊎ (k * p < s.termination)
      → k < 2 ^ 8
      → has_slice s.bitmap k ≡ false
      → scan (suc fuel) s p (k * p) ≡ some (k * p)
  unfolding scan
  stop_at_gap fuel k open_end few missing = rw (slice_idx_exact k p few pos) (ground (arith))

  stop_at_end :
      (fuel wm : ℕ) → 0 < s.termination → s.termination ≤ wm → scan (suc fuel) s p wm ≡ some wm
  unfolding scan
  stop_at_end fuel wm known reached = ground arith

  -- The scan stops at the first gap `g`, if the end is not known or lies behind it.
  pub scan_gap :
      (j fuel k g : ℕ)
      → g ≡ k + j
      → j < fuel
      → g < 2 ^ 8
      → g * p < 2 ^ 16
      → Run k g
      → has_slice s.bitmap g ≡ false
      → (s.termination ≡ 0) ⊎ (g * p < s.termination)
      → scan fuel s p (k * p) ≡ some (g * p)
  scan_gap j zero k g e lt few fits run gap open_end = absurd (omega arith)
  scan_gap zero (suc fuel) k g e lt few fits run gap open_end =
      let same : g ≡ k = omega arith in rw (← same) (stop_at_gap fuel g open_end few gap)
  scan_gap (suc j) (suc fuel) k g e lt few fits run gap open_end =
      step_on fuel k (omega (arith, mul-le-mul_right {m = k} {n = g} p (omega arith))) (omega arith)
        (omega (arith, mul-le-mul_right {m = k + 1} {n = g} p (omega arith)))
        (run k (omega arith) (omega arith))
      ∙ scan_gap j fuel (suc k) g (omega arith) (omega arith) few fits
          (λ m above below. run m (omega arith) below) gap open_end

  -- The scan stops behind the end, if all slices up to it are in.
  pub scan_end :
      (j fuel k g : ℕ)
      → g ≡ k + j
      → j < fuel
      → g ≤ 2 ^ 8
      → g * p < 2 ^ 16
      → Run k g
      → 0 < s.termination
      → s.termination ≤ g * p
      → (wm : ℕ) × (scan fuel s p (k * p) ≡ some wm) × (s.termination ≤ wm)
  scan_end j zero k g e lt few fits run known ends = absurd (omega arith)
  scan_end zero (suc fuel) k g e lt few fits run known ends =
      let same : g ≡ k = omega arith in
      (g * p, rw (← same) (stop_at_end fuel (g * p) known ends), ends)
  scan_end (suc j) (suc fuel) k g e lt few fits run known ends =
      elim (dec_le s.termination (k * p)) [
        | yes here ↦ (k * p, stop_at_end fuel (k * p) known here, here)
        | no further ↦
            let below : suc k * p ≤ g * p = mul-le-mul_right p (omega arith) in
            let (wm, scans, past) =
              scan_end j fuel (suc k) g (omega arith) (omega arith) few fits
                (λ m above low. run m (omega arith) low) known ends in
            (
              wm,
              step_on fuel k (inr (omega arith)) (omega arith) (omega arith)
                    (run k (omega arith) (omega arith))
                  ∙ scans,
              past,
            )
      ]

  abbrev clip : ℕ → ℕ
  clip wm = if ltb 0 s.termination && ltb s.termination wm then s.termination else wm

  clip_below : (wm : ℕ) → (s.termination ≡ 0) ⊎ (wm < s.termination) → clip wm ≡ wm
  clip_below wm h = ground arith

  clip_past : (wm : ℕ) → 0 < s.termination → s.termination ≤ wm → clip wm ≡ s.termination
  clip_past wm known past = ground arith

  -- The watermark stops at the first gap.
  pub advance-gap :
      (k g : ℕ)
      → k ≤ g
      → g < 2 ^ 8
      → g * p < 2 ^ 16
      → s.watermark ≡ k * p
      → Run k g
      → has_slice s.bitmap g ≡ false
      → (s.termination ≡ 0) ⊎ (g * p < s.termination)
      → advance_watermark s p ≡ some (g * p)
  unfolding advance_watermark
  advance-gap k g le few fits at run gap open_end =
      ap (λ r. r >>= (λ wm. some (clip wm)))
        (ap (scan scan_fuel s p) at
          ∙ scan_gap (g - k) scan_fuel k g (omega arith) (omega (arith, scan_fuel-lt)) few fits run
              gap open_end)
      ∙ ap some (clip_below (g * p) open_end)

  -- With all slices in, the watermark stops at the end of the package.
  pub advance-end :
      (k g : ℕ)
      → k ≤ g
      → g ≤ 2 ^ 8
      → g * p < 2 ^ 16
      → s.watermark ≡ k * p
      → Run k g
      → 0 < s.termination
      → s.termination ≤ g * p
      → advance_watermark s p ≡ some s.termination
  unfolding advance_watermark
  advance-end k g le few fits at run known ends =
      let (wm, scans, past) =
        scan_end (g - k) scan_fuel k g (omega arith) (omega (arith, scan_fuel-lt)) few fits run
          known ends in
      ap (λ r. r >>= (λ wm. some (clip wm))) (ap (scan scan_fuel s p) at ∙ scans)
      ∙ ap some (clip_past wm known past)
