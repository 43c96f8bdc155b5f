-- ===== src/Cpp/Decoder/Generations.antt =====
-- A package in progress, and the blocks of other packages of its sender.
use master_pilot_custom_data.Base.{ℕ, ◌+◌, ◌^◌, ◌≤◌, ◌<◌, some, List, ◌≡◌, ◌≢◌, arith, ◌∙◌, length}
use master_pilot_custom_data.Header.{header_size, header_unpack, array_to_packed_header}
use master_pilot_custom_data.Header.Layout.{unpack-IsWire}
use master_pilot_custom_data.Coordinate.{Coordinate}
use master_pilot_custom_data.Rx.{zero_state, header_to_coordinate}
use master_pilot_custom_data.Cpp.Coordinator.{
  Coordinator, Slot, SenderMeta, slot_index, slot_at, gc_clock_hook, gc_hook,
}
use master_pilot_custom_data.Cpp.Coordinator.Slots.{slot_index-sum}
use master_pilot_custom_data.Cpp.Coordinator.Clock.{next_slot}
use master_pilot_custom_data.Cpp.Decoder.{RxDecoder, Impl, push}
use master_pilot_custom_data.Cpp.Decoder.Isolation.{push-Kept}

-- A package is in progress: its slot has slices, of the sender's generation.
pub record InProgress (c : Coordinator) (coord : Coordinate) : Type 0 where
  pub numbered : coord.package_id < 2 ^ 8
  pub last_pkg : (c.sender_meta coord.sender_id).pkg < 2 ^ 8
  pub last_gen : (c.sender_meta coord.sender_id).gen < 2 ^ 8
  pub same_gen : (c.slots (slot_index coord)).gen ≡ (c.sender_meta coord.sender_id).gen
  pub some_slices : 0 < (c.slots (slot_index coord)).state.received_count

module _ {U M : Type 0} (decoder : RxDecoder U M) (impl impl' : Impl U) (block : List ℕ)
    (coord : Coordinate) (going : InProgress impl.coordinator coord)
    (long : header_size ≤ length block) (pushes : push decoder impl block ≡ some impl') where
  abbrev other : Coordinate
  other = header_to_coordinate decoder.config (header_unpack (array_to_packed_header block))

  abbrev SameSender : Type 0
  SameSender = other.sender_id ≡ coord.sender_id

  other-fits : other.package_id < 2 ^ 8
  unfolding header_to_coordinate
  other-fits = (unpack-IsWire (array_to_packed_header block)).package_fits

  other_slot :
      SameSender → other.package_id ≢ coord.package_id → slot_index other ≢ slot_index coord
  other_slot same ne e =
      ne (
        omega
          (arith, e, same, slot_index-sum other other-fits, slot_index-sum coord going.numbered))

  abbrev meta : SenderMeta
  meta = impl.coordinator.sender_meta coord.sender_id

  abbrev slot : Slot
  slot = impl.coordinator.slots (slot_index coord)

  -- A block of another package of the sender, where neither the block is more than 127 behind the
  -- sender's last one, nor the package in progress more than 127 behind the block: the package in
  -- progress keeps its state and its bytes for its next block.
  pub push-near :
      SameSender
      → other.package_id ≢ coord.package_id
      → meta.pkg ≤ other.package_id + 127
      → other.package_id ≤ coord.package_id + 127
      → next_slot impl'.coordinator coord ≡ impl.coordinator.slots (slot_index coord)
  unfolding slot_at gc_clock_hook gc_hook
  push-near same ne near back =
      let k = push-Kept decoder impl impl' block long pushes in
      let stays = k.slots (slot_index coord) (other_slot same ne) in
      let clock = k.clock coord.sender_id in
      let hook : impl'.coordinator.sender_meta coord.sender_id
          ≡ record { pkg = other.package_id; gen = meta.gen } =
        clock ∙ rw same (ground arith) in
      rw (stays, hook) (ground (arith, going))

  -- A block of a package of the sender that is more than 127 ahead in number, such as a late one from
  -- before the wrap of the numbers: the next block of the package in progress meets a zeroed state.
  pub push-late :
      SameSender
      → coord.package_id + 127 < other.package_id
      → (next_slot impl'.coordinator coord).state ≡ zero_state
  unfolding slot_at gc_clock_hook gc_hook
  push-late same far =
      let k = push-Kept decoder impl impl' block long pushes in
      let stays = k.slots (slot_index coord) (other_slot same (omega arith)) in
      let clock = k.clock coord.sender_id in
      let hook : impl'.coordinator.sender_meta coord.sender_id
          ≡ record { pkg = other.package_id; gen = meta.gen } =
        clock ∙ rw same (ground (arith, going, other-fits)) in
      rw (stays, hook) (ground (arith, going))
