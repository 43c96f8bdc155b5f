-- ===== src/Header.antt =====
-- The slice header of src/core/customdata-common.h: its fields, its packed word and its four bytes
-- on the wire, least significant byte first.
pub mod Layout
pub mod Wire
use master_pilot_custom_data.Base.{
  ℕ, ◌+◌, ◌-◌, ◌*◌, ◌/◌, ◌%◌, ◌^◌, bit_and, bit_or, Bool, ◌&&◌, List, [], ◌∷◌, ◌==◌, if◌then◌else◌,
  get_or, u8, u16, u32, ◌<<<◌, ◌>>>◌,
}

-- `mp_header_meta_t`.
pub record HeaderMeta : Type 0 where
  pub package_serial : ℕ
  pub slice_serial : ℕ
  pub sender_id : ℕ
  pub eop : ℕ
  pub slice_payload_size : ℕ

-- `MP_HEADER_SIZE`, the size of the packed word.
abbrev pub header_size : ℕ
header_size = 4

-- The masks keep each shifted field within 32 bits, so that no shift cuts a bit off.
unfoldable pub header_pack : HeaderMeta → ℕ
header_pack meta =
    bit_or
      (bit_or
        (bit_or (bit_or (meta.package_serial <<< 0) (meta.slice_serial <<< 8))
          (bit_and meta.sender_id 0x07 <<< 16))
        ((if meta.eop == 1 then 1 else 0) <<< 19))
      (bit_and meta.slice_payload_size 0x0fff <<< 20)

unfoldable pub header_unpack : ℕ → HeaderMeta
header_unpack packed = record {
  package_serial = u8 (bit_and packed 0xff);
  slice_serial = u8 (bit_and (packed >>> 8) 0xff);
  sender_id = u8 (bit_and (packed >>> 16) 0x07);
  eop = u8 (bit_and (packed >>> 19) 0x01);
  slice_payload_size = u16 (bit_and (packed >>> 20) 0x0fff);
}

unfoldable pub header_equals : HeaderMeta → HeaderMeta → Bool
header_equals a b =
    a.package_serial == b.package_serial
    && a.slice_serial == b.slice_serial
    && a.sender_id == b.sender_id
    && a.eop == b.eop
    && a.slice_payload_size == b.slice_payload_size

-- `MP_PACKED_HEADER_TO_ARRAY`.
unfoldable pub packed_header_to_array : ℕ → List ℕ
packed_header_to_array packed =
    u8 (packed >>> 0) ∷ u8 (packed >>> 8) ∷ u8 (packed >>> 16) ∷ u8 (packed >>> 24) ∷ []

-- `MP_ARRAY_TO_PACKED_HEADER`. The array has at least four bytes.
unfoldable pub array_to_packed_header : List ℕ → ℕ
array_to_packed_header arr =
    bit_or
      (bit_or (bit_or (u32 (get_or arr 0 0 <<< 0)) (u32 (get_or arr 1 0 <<< 8)))
        (u32 (get_or arr 2 0 <<< 16)))
      (u32 (get_or arr 3 0 <<< 24))
