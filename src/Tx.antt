-- ===== src/Tx.antt =====
-- The sender's pure operators, src/core/customdata-tx.h.
pub mod Laws
use master_pilot_custom_data.Base.{ℕ, ◌+◌, bit_and, Bool, u8, u16, if◌then◌else◌}
use master_pilot_custom_data.Header.{HeaderMeta}
use master_pilot_custom_data.Coordinate.{Config, Coordinate, max_payload, offset_to_slice_idx}

-- `mp_tx_slice_t`.
pub record TxSlice : Type 0 where
  pub header : HeaderMeta
  pub next : Coordinate

unfoldable pub tx_advance : Config → Coordinate → Coordinate
tx_advance config current =
    let max_payload = max_payload config in
    record {
      sender_id = current.sender_id;
      package_id = current.package_id;
      offset = u16 (current.offset + max_payload);
    }

-- A `bool` stored in the end mark is 1 or 0.
unfoldable pub tx_make_header : Config → Coordinate → ℕ → Bool → HeaderMeta
tx_make_header config current payload_size eop =
    let max_payload = max_payload config in
    record {
      package_serial = current.package_id;
      slice_serial = offset_to_slice_idx current.offset max_payload;
      sender_id = u8 (bit_and current.sender_id 0x7);
      eop = if eop then 1 else 0;
      slice_payload_size = payload_size;
    }

unfoldable pub tx_prepare : Config → Coordinate → ℕ → Bool → TxSlice
unfolding tx_make_header tx_advance
tx_prepare config current payload_size is_final = record {
  header = tx_make_header config current payload_size is_final;
  next = tx_advance config current;
}
