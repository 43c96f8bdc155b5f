-- ===== src/Tx/Laws.antt =====
-- The headers and coordinates of consecutive slices.
use master_pilot_custom_data.Base.{
  ℕ, ◌+◌, ◌*◌, ◌^◌, ◌<◌, ◌%◌, Bool, ◌≡◌, arith, bit_and_low, if◌then◌else◌,
}
use master_pilot_custom_data.Header.{HeaderMeta}
use master_pilot_custom_data.Coordinate.{Config, Coordinate, max_payload}
use master_pilot_custom_data.Coordinate.Laws.{slice_idx_exact}
use master_pilot_custom_data.Tx.{tx_advance, tx_make_header, tx_prepare}

-- The coordinate after `i` slices of a package.
abbrev pub slot : Config → (sender pkg i : ℕ) → Coordinate
slot config sender pkg i = record {
  sender_id = sender;
  package_id = pkg;
  offset = i * max_payload config;
}

-- The header of the `i`-th slice of a package.
abbrev pub slot_header : (sender pkg i size : ℕ) (eop : Bool) → HeaderMeta
slot_header sender pkg i size eop = record {
  package_serial = pkg;
  slice_serial = i;
  sender_id = sender % 8;
  eop = if eop then 1 else 0;
  slice_payload_size = size;
}

pub make_header-slot :
    (config : Config) (sender pkg i size : ℕ) (eop : Bool)
    → 0 < max_payload config
    → i < 2 ^ 8
    → tx_make_header config (slot config sender pkg i) size eop ≡ slot_header sender pkg i size eop
unfolding tx_make_header
make_header-slot config sender pkg i size eop pos few =
    ground (arith, slice_idx_exact i (max_payload config), bit_and_low 3 sender)

pub advance-slot :
    (config : Config) (sender pkg i : ℕ)
    → (i + 1) * max_payload config < 2 ^ 16
    → tx_advance config (slot config sender pkg i) ≡ slot config sender pkg (i + 1)
unfolding tx_advance
advance-slot config sender pkg i fits = ground arith

-- Preparing the slice at the `i`-th slot numbers it `i`, and leads to the next slot, while the
-- index fits a byte and the next offset fits 16 bits.
pub prepare-slot :
    (config : Config) (sender pkg i size : ℕ) (eop : Bool)
    → 0 < max_payload config
    → i < 2 ^ 8
    → (i + 1) * max_payload config < 2 ^ 16
    → tx_prepare config (slot config sender pkg i) size eop
      ≡ record { header = slot_header sender pkg i size eop; next = slot config sender pkg (i + 1) }
unfolding tx_prepare
prepare-slot config sender pkg i size eop pos few fits =
    rw
      (make_header-slot config sender pkg i size eop pos few, advance-slot config sender pkg i fits)
