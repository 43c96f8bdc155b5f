-- ===== src/Cpp/Decoder.antt =====
-- The C++ receiver: RxDecoder of src/cpp/customdata-protobuf-rx.cpp. `ParseFromArray` of protobuf is
-- a parameter; the arena that the messages lie in is left out.
pub mod Isolation
pub mod Generations
pub mod Filling
pub mod Package
use master_pilot_custom_data.Base.{
  ℕ, ◌-◌, min, Bool, not, Option, none, some, List, ltb, ◌==◌, if◌then◌else◌, ◌>>=◌, length, take,
  drop, u16,
}
use master_pilot_custom_data.Header.{header_size, header_unpack, array_to_packed_header}
use master_pilot_custom_data.Coordinate.{Config, Coordinate, max_payload}
use master_pilot_custom_data.Rx.{
  StreamEvent, SliceInst, duplicate, new_slice_out_of_order, new_slice_in_order, complete,
  zero_state, header_to_coordinate, calc_slice_step,
}
use master_pilot_custom_data.Cpp.Coordinator.{
  Coordinator, gc_hook, get_state, set_state, put_payload, get_payload,
}

-- What a decoder is built from. `U` is what the observer reaches.
pub record RxDecoder (U M : Type 0) : Type 0 where
  pub config : Config
  pub observer : U → M → U
  pub parse_from_array : List ℕ → Option M

-- What changes: the slots, and what the observer reaches.
pub record Impl (U : Type 0) : Type 0 where
  pub coordinator : Coordinator
  pub outer : U

module _ {U M : Type 0} (decoder : RxDecoder U M) where
  -- `if (ok) _observer(*p_msg)`.
  abbrev pub observed : U → Option M → U
  observed outer none = outer
  observed outer (some msg) = decoder.observer outer msg

  -- The payload and the state of a new slice are stored.
  unfoldable pub store_slice : Impl U → Coordinate → List ℕ → SliceInst → Impl U
  store_slice impl coord payload inst =
      let c =
        if ltb 0 (length payload)
        then put_payload impl.coordinator coord payload
        else impl.coordinator in
      record impl { coordinator = set_state c coord inst.next_state }

  -- The rest of the case of a complete package. `none`: the assertion fails.
  unfoldable pub finish_package : Impl U → Coordinate → (termination : ℕ) → Option (Impl U)
  finish_package impl coord termination =
      let normalized : Coordinate = record coord { offset = 0 } in
      let (view, c) = get_payload impl.coordinator normalized in
      let impl' : Impl U = record {
        coordinator = set_state c normalized zero_state;
        outer = observed impl.outer (decoder.parse_from_array (take termination view));
      } in
      if ltb (length view) termination then none else some impl'

  -- `switch (inst.e)`.
  unfoldable pub handle : Impl U → Coordinate → List ℕ → SliceInst → Option (Impl U)
  handle impl coord payload inst =
      let stored = store_slice impl coord payload inst in
      elim inst.e [
        | duplicate ↦ some impl
        | complete ↦ finish_package stored coord inst.next_state.termination
        | _ ↦ some stored
      ]

  -- The step on the stored state, and what follows it.
  unfoldable pub handle_block :
      Impl U → Coordinate → (slice_serial : ℕ) → List ℕ → Bool → Option (Impl U)
  handle_block impl coord slice_serial payload eop =
      let hooked = gc_hook impl.coordinator coord.sender_id coord.package_id in
      let (state, c) = get_state hooked coord in
      do
        inst ← calc_slice_step state slice_serial (length payload) (max_payload decoder.config) eop
        handle (record impl { coordinator = c }) coord payload inst

  -- `RxDecoder::Push`. `none`: the step's scan does not end, or the assertion fails.
  unfoldable pub push : Impl U → List ℕ → Option (Impl U)
  push impl block =
      let hdr = header_unpack (array_to_packed_header block) in
      let payload_size = u16 (min hdr.slice_payload_size (length block - header_size)) in
      let payload = take payload_size (drop header_size block) in
      if ltb (length block) header_size
      then some impl
      else handle_block impl (header_to_coordinate decoder.config hdr) hdr.slice_serial payload
          (not (hdr.eop == 0))
