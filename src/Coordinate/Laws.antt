-- ===== src/Coordinate/Laws.antt =====
-- Slice indices and offsets.
use native.Mathlib.Nat.{mul-div_left}
use master_pilot_custom_data.Base.{ℕ, ◌+◌, ◌*◌, ◌^◌, ◌≤◌, ◌<◌, ◌≡◌, arith}
use master_pilot_custom_data.Coordinate.{
  Config, max_payload, slice_idx_to_offset, offset_to_slice_idx,
}

-- A slice carries the transmission unit less the four header bytes.
pub max_payload_lem :
    (c : Config)
    → 4 ≤ c.transmission_unit
    → c.transmission_unit < 2 ^ 16
    → max_payload c + 4 ≡ c.transmission_unit
unfolding max_payload
max_payload_lem c h k = omega arith

pub max_payload-lt : (c : Config) → max_payload c < 2 ^ 16
unfolding max_payload
max_payload-lt c = omega arith

pub offset_exact : (i p : ℕ) → i * p < 2 ^ 16 → slice_idx_to_offset i p ≡ i * p
unfolding slice_idx_to_offset
offset_exact i p h = omega arith

pub slice_idx_exact : (i p : ℕ) → i < 2 ^ 8 → 0 < p → offset_to_slice_idx (i * p) p ≡ i
unfolding offset_to_slice_idx
slice_idx_exact i p h pos = omega (arith, mul-div_left i pos)

-- For a positive slice size and an offset below 2^16, a slice index below 256 is read back from
-- the offset that it stands at.
pub slice_idx-offset :
    (i p : ℕ)
    → i < 2 ^ 8
    → 0 < p
    → i * p < 2 ^ 16
    → offset_to_slice_idx (slice_idx_to_offset i p) p ≡ i
slice_idx-offset i p h pos fits = rw (offset_exact i p fits) (slice_idx_exact i p h pos)
