-- ===== src/Tests/Headers.antt =====
-- Headers and coordinates: src/core/customdata-common.h and customdata-tx.h.
use master_pilot_custom_data.Base.{true, false, ◌≡◌, ◌↔◌, refl, arith, [], ◌∷◌, ◌++◌}
use master_pilot_custom_data.Header.{
  HeaderMeta, header_pack, header_unpack, header_equals, packed_header_to_array,
  array_to_packed_header,
}
use master_pilot_custom_data.Header.Layout.{unpack-pack, pack-unpack, header_equals_iff}
use master_pilot_custom_data.Header.Wire.{array-packed, packed-array}
use master_pilot_custom_data.Coordinate.{
  Config, max_payload, slice_idx_to_offset, offset_to_slice_idx,
}
use master_pilot_custom_data.Coordinate.Laws.{slice_idx-offset}
use master_pilot_custom_data.Tx.{tx_prepare}
use master_pilot_custom_data.Tx.Laws.{slot, slot_header, prepare-slot}

abbrev sample : HeaderMeta
sample = record {
  package_serial = 7;
  slice_serial = 200;
  sender_id = 5;
  eop = 1;
  slice_payload_size = 296;
}

pack_sample : header_pack sample ≡ 0x128d_c807
unfolding header_pack
pack_sample = refl

unpack-pack_example : header_unpack (header_pack sample) ≡ sample
unpack-pack_example = unpack-pack sample (omega arith)

pack-unpack_example : header_pack (header_unpack 0x128d_c807) ≡ 0x128d_c807
pack-unpack_example = pack-unpack 0x128d_c807 (omega arith)

header_equals_iff_example : (header_equals sample sample ≡ true) ↔ (sample ≡ sample)
header_equals_iff_example = header_equals_iff sample sample

array-packed_example :
    array_to_packed_header (packed_header_to_array 0x128d_c807 ++ 1 ∷ 2 ∷ []) ≡ 0x128d_c807
array-packed_example = array-packed 0x128d_c807 (1 ∷ 2 ∷ []) (omega arith)

packed-array_example :
    packed_header_to_array (array_to_packed_header (7 ∷ 200 ∷ 141 ∷ 18 ∷ []))
    ≡ 7 ∷ 200 ∷ 141 ∷ 18 ∷ []
packed-array_example =
    packed-array 7 200 141 18 (omega arith) (omega arith) (omega arith) (omega arith)

slice_idx-offset_example : offset_to_slice_idx (slice_idx_to_offset 200 296) 296 ≡ 200
slice_idx-offset_example = slice_idx-offset 200 296 (omega arith) (omega arith) (omega arith)

abbrev tu300 : Config
tu300 = record { transmission_unit = 300 }

prepare-slot_example :
    tx_prepare tu300 (slot tu300 5 7 200) 296 false
    ≡ record { header = slot_header 5 7 200 296 false; next = slot tu300 5 7 201 }
unfolding max_payload
prepare-slot_example =
    prepare-slot tu300 5 7 200 296 false (omega arith) (omega arith) (omega arith)
