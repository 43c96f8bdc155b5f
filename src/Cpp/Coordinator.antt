-- ===== src/Cpp/Coordinator.antt =====
-- The slots of the C++ receiver: class Coordinator of src/cpp/customdata-protobuf-rx.cpp. The arrays
-- of slots and of senders are functions of the index. A reference that operator[] gives out is a
-- slot and the coordinator after the call.
pub mod Bytes
pub mod Slots
pub mod Clock
use master_pilot_custom_data.Base.{
  ℕ, ◌+◌, ◌-◌, bit_or, Bool, ◌&&◌, not, List, [], ◌++◌, ltb, ◌==◌, if◌then◌else◌, length, drop,
  replicate, overwrite, u8, ◌<<<◌,
}
use master_pilot_custom_data.Coordinate.{Coordinate}
use master_pilot_custom_data.Rx.{SliceState, zero_state}

-- `Slot`; its `data` is `bytes`.
pub record Slot : Type 0 where
  pub state : SliceState
  pub bytes : List ℕ
  pub gen : ℕ

-- An element of `_sender_meta`.
pub record SenderMeta : Type 0 where
  pub pkg : ℕ
  pub gen : ℕ

pub record Coordinator : Type 0 where
  pub slots : ℕ → Slot
  pub sender_meta : ℕ → SenderMeta

-- An array after a write.
abbrev pub update : {A : Type 0} → (ℕ → A) → ℕ → A → ℕ → A
update f i x j = if i == j then x else f j

-- `(coord.sender_id << MP_PACKAGE_ID_BITS) | coord.package_id`.
unfoldable pub slot_index : Coordinate → ℕ
slot_index coord = bit_or (coord.sender_id <<< 8) coord.package_id

-- `gc_clock_hook`: a slot of an older generation starts over.
unfoldable pub gc_clock_hook : SenderMeta → Slot → Slot
gc_clock_hook meta slot =
    let slot' =
      if ltb 0 slot.state.received_count && not (slot.gen == meta.gen)
      then record slot { state = zero_state }
      else slot in
    record slot' { gen = meta.gen }

-- `operator[]`: the slot that the reference is to, and the coordinator with it.
unfoldable pub slot_at : Coordinator → Coordinate → Slot
slot_at c coord = gc_clock_hook (c.sender_meta coord.sender_id) (c.slots (slot_index coord))

-- A write through the reference.
abbrev pub put_slot : Coordinator → Coordinate → Slot → Coordinator
put_slot c coord slot = record c { slots = update c.slots (slot_index coord) slot }

abbrev pub visited : Coordinator → Coordinate → Coordinator
visited c coord = put_slot c coord (slot_at c coord)

-- `gc_hook`, with `MP_PACKAGE_ID_MAX / 2`, which is 127. The sum is on `int`.
unfoldable pub gc_hook : Coordinator → (sender_id package_id : ℕ) → Coordinator
gc_hook c sender_id package_id =
    let meta = c.sender_meta sender_id in
    let meta' : SenderMeta = record {
      pkg = package_id;
      gen = if ltb (package_id + 127) meta.pkg then u8 (meta.gen + 1) else meta.gen;
    } in
    record c { sender_meta = update c.sender_meta sender_id meta' }

unfoldable pub get_state : Coordinator → Coordinate → SliceState × Coordinator
get_state c coord = ((slot_at c coord).state, visited c coord)

unfoldable pub set_state : Coordinator → Coordinate → SliceState → Coordinator
set_state c coord state =
    let slot = slot_at c coord in put_slot c coord (record slot { state = state })

-- `resize` to more elements.
abbrev pub resize : List ℕ → ℕ → List ℕ
resize bytes n = bytes ++ replicate (n - length bytes) 0

unfoldable pub put_payload : Coordinator → Coordinate → List ℕ → Coordinator
put_payload c coord payload =
    let slot = slot_at c coord in
    let needed = coord.offset + length payload in
    let room = if ltb (length slot.bytes) needed then resize slot.bytes needed else slot.bytes in
    let put = put_slot c coord (record slot { bytes = overwrite room coord.offset payload }) in
    if length payload == 0 then c else put

unfoldable pub get_payload : Coordinator → Coordinate → List ℕ × Coordinator
get_payload c coord = (drop coord.offset (slot_at c coord).bytes, visited c coord)
