-- ===== src/Header/Layout.antt =====
-- `mp_header_pack`, `mp_header_unpack` and `mp_header_equals`: the packed word as a sum of fields,
-- and what packing keeps.
use master_pilot_custom_data.Base.{
  ℕ, ◌+◌, ◌*◌, ◌/◌, ◌%◌, ◌^◌, ◌<◌, bit_or, true, ◌≡◌, ◌↔◌, arith, ◌==◌, if◌then◌else◌,
  bit_or_fields, bit_and_low,
}
use master_pilot_custom_data.Header.{HeaderMeta, header_pack, header_unpack, header_equals}

-- The fields fit their C types.
pub record IsTyped (m : HeaderMeta) : Type 0 where
  pub package_fits : m.package_serial < 2 ^ 8
  pub slice_fits : m.slice_serial < 2 ^ 8
  pub sender_fits : m.sender_id < 2 ^ 8
  pub eop_fits : m.eop < 2 ^ 8
  pub size_fits : m.slice_payload_size < 2 ^ 16

-- The fields fit their bits on the wire.
pub record IsWire (m : HeaderMeta) : Type 0 where
  pub package_fits : m.package_serial < 2 ^ 8
  pub slice_fits : m.slice_serial < 2 ^ 8
  pub sender_fits : m.sender_id < 2 ^ 3
  pub eop_fits : m.eop < 2 ^ 1
  pub size_fits : m.slice_payload_size < 2 ^ 12

-- What packing keeps of a header.
abbrev pub on_wire : HeaderMeta → HeaderMeta
on_wire m = record m {
  sender_id = m.sender_id % 8;
  eop = if m.eop == 1 then 1 else 0;
  slice_payload_size = m.slice_payload_size % 4096;
}

-- The packed word of five fields, as a sum.
abbrev word : HeaderMeta → ℕ
word m =
    m.package_serial
    + m.slice_serial * 2 ^ 8
    + m.sender_id * 2 ^ 16
    + m.eop * 2 ^ 19
    + m.slice_payload_size * 2 ^ 20

eop_bit_fits : (e : ℕ) → (if e == 1 then 1 else 0) < 2
eop_bit_fits e = ground arith

or_as_sum :
    (a b c d e : ℕ)
    → a < 256
    → b < 256
    → c < 8
    → d < 2
    → bit_or
        (bit_or (bit_or (bit_or (a * 2 ^ 0) (b * 2 ^ 8)) (c * 2 ^ 16)) (d * 2 ^ 19))
        (e * 2 ^ 20)
      ≡ a + b * 2 ^ 8 + c * 2 ^ 16 + d * 2 ^ 19 + e * 2 ^ 20
or_as_sum a b c d e ha hb hc hd = ground (
  arith,
  bit_or_fields 8 a b,
  bit_or_fields 16 (a + b * 2 ^ 8) c,
  bit_or_fields 19 (a + b * 2 ^ 8 + c * 2 ^ 16) d,
  bit_or_fields 20 (a + b * 2 ^ 8 + c * 2 ^ 16 + d * 2 ^ 19) e,
)

pub pack_as_sum : (m : HeaderMeta) → IsTyped m → header_pack m ≡ word (on_wire m)
unfolding header_pack
pack_as_sum m t =
    rw (bit_and_low 3 m.sender_id, bit_and_low 12 m.slice_payload_size)
      (or_as_sum m.package_serial m.slice_serial (m.sender_id % 8) (if m.eop == 1 then 1 else 0)
        (m.slice_payload_size % 4096) t.package_fits t.slice_fits (omega arith)
        (eop_bit_fits m.eop))

pub pack-lt : (m : HeaderMeta) → IsTyped m → header_pack m < 2 ^ 32
pack-lt m t = omega (arith, pack_as_sum m t, eop_bit_fits m.eop)

pub unpack_as_fields :
    (p : ℕ)
    → header_unpack p ≡ record {
      package_serial = p % 256;
      slice_serial = p / 256 % 256;
      sender_id = p / 65536 % 8;
      eop = p / 524288 % 2;
      slice_payload_size = p / 1048576 % 4096;
    }
unfolding header_unpack
unpack_as_fields p = ground (
  arith,
  bit_and_low 8 p,
  bit_and_low 8 (p / 256),
  bit_and_low 3 (p / 65536),
  bit_and_low 1 (p / 524288),
  bit_and_low 12 (p / 1048576),
)

-- Unpacking a word gives fields within their bits on the wire.
pub unpack-IsWire : (p : ℕ) → IsWire (header_unpack p)
unpack-IsWire p = rw (unpack_as_fields p) (omega arith)

-- Packing a header whose fields fit their C types and unpacking the word gives the header back
-- with the sender cut to 3 bits, the end mark 1 exactly if it was 1, and the size cut to 12 bits.
pub unpack-pack : (m : HeaderMeta) → IsTyped m → header_unpack (header_pack m) ≡ on_wire m
unpack-pack m t =
    rw (unpack_as_fields (header_pack m), pack_as_sum m t) (ground (arith, eop_bit_fits m.eop))

-- Every 32-bit word is the packed form of the header that it unpacks to.
pub pack-unpack : (p : ℕ) → p < 2 ^ 32 → header_pack (header_unpack p) ≡ p
pack-unpack p h =
    ground
      (arith, pack_as_sum (header_unpack p) (omega (arith, unpack-IsWire p)), unpack_as_fields p)

-- Two headers compare equal exactly if they are the same.
pub header_equals_iff : (a b : HeaderMeta) → (header_equals a b ≡ true) ↔ (a ≡ b)
unfolding header_equals
header_equals_iff a b = ground arith
