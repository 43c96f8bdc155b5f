-- ===== src/Cpp/Coordinator/Slots.antt =====
-- The numbers of the slots: within the array, and one for each package.
use master_pilot_custom_data.Base.{
  ℕ, ◌+◌, ◌*◌, ◌^◌, ◌<◌, ◌≡◌, ◌↔◌, arith, ◌<<<◌, bit_or_fields, bit_or_comm, ◌∙◌,
}
use master_pilot_custom_data.Header.{header_unpack}
use master_pilot_custom_data.Header.Layout.{unpack-IsWire}
use master_pilot_custom_data.Coordinate.{Config, Coordinate}
use master_pilot_custom_data.Rx.{header_to_coordinate}
use master_pilot_custom_data.Cpp.Coordinator.{slot_index}

pub slot_index-sum :
    (coord : Coordinate)
    → coord.package_id < 2 ^ 8
    → slot_index coord ≡ coord.package_id + coord.sender_id * 2 ^ 8
unfolding slot_index
slot_index-sum coord fits =
    bit_or_comm (coord.sender_id <<< 8) coord.package_id
    ∙ bit_or_fields 8 coord.package_id coord.sender_id fits

-- Whatever two blocks hold, their headers lead to slots within the array of 2^11, and to the same
-- slot exactly if sender and package are the same.
pub slot_index-unpack :
    (config : Config) (v w : ℕ)
    → let a = header_unpack v in
      let b = header_unpack w in
      let i = slot_index (header_to_coordinate config a) in
      let j = slot_index (header_to_coordinate config b) in
      (i < 2 ^ 11)
      × (j < 2 ^ 11)
      × ((i ≡ j) ↔ ((a.sender_id ≡ b.sender_id) × (a.package_serial ≡ b.package_serial)))
unfolding header_to_coordinate
slot_index-unpack config v w =
    let wa = unpack-IsWire v in
    let wb = unpack-IsWire w in
    let i = slot_index-sum (header_to_coordinate config (header_unpack v)) wa.package_fits in
    let j = slot_index-sum (header_to_coordinate config (header_unpack w)) wb.package_fits in
    (
      omega (arith, i, wa),
      omega (arith, j, wb),
      (λ e. (omega (arith, i, j, wa, wb), omega (arith, i, j, wa, wb)), λ e. omega (arith, i, j)),
    )
