-- ===== src/Coordinate.antt =====
-- The configuration, the coordinates and the shared operators of src/core/customdata-common.h.
-- Division by a `max_payload` of 0 is undefined in C and 0 here: the theorems take it as positive.
pub mod Laws
use master_pilot_custom_data.Base.{ℕ, ◌*◌, ◌/◌, u8, u16, sub32}
use master_pilot_custom_data.Header.{header_size}

-- `mp_config_t`.
pub record Config : Type 0 where
  pub transmission_unit : ℕ

-- `mp_coordinate_t`.
pub record Coordinate : Type 0 where
  pub sender_id : ℕ
  pub package_id : ℕ
  pub offset : ℕ

-- The subtraction is on `size_t`; at 32 and at 64 bits the cast keeps the same 16.
unfoldable pub max_payload : Config → ℕ
max_payload config = u16 (sub32 config.transmission_unit header_size)

unfoldable pub slice_idx_to_offset : ℕ → ℕ → ℕ
slice_idx_to_offset slice_idx max_payload = u16 (slice_idx * max_payload)

unfoldable pub offset_to_slice_idx : ℕ → ℕ → ℕ
offset_to_slice_idx offset max_payload = u8 (offset / max_payload)
