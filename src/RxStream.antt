-- ===== src/RxStream.antt =====
-- The receiving stream, src/core/customdata-stream-rx.h and customdata-stream-rx.c. What the
-- callbacks reach through `ctx` and `user` is one value, the world, which each call replaces.
pub mod Frame
pub mod Arrivals
pub mod Complete
pub mod Course
use master_pilot_custom_data.Base.{
  ℕ, Bool, true, false, not, Option, none, some, List, ltb, ◌==◌, if◌then◌else◌, ◌>>=◌, drop,
}
use master_pilot_custom_data.Header.{HeaderMeta, header_size, header_unpack, array_to_packed_header}
use master_pilot_custom_data.Coordinate.{Config, Coordinate, max_payload}
use master_pilot_custom_data.Rx.{
  SliceState, SliceInst, StreamEvent, duplicate, new_slice_out_of_order, new_slice_in_order,
  complete, zero_state, header_to_coordinate, calc_slice_step,
}

-- `mp_rx_coordinator_t`. A payload pointer is the bytes from it on.
pub record RxCoordinator (W : Type 0) : Type 0 where
  pub state_get : W → Coordinate → SliceState
  pub state_put : W → Coordinate → SliceState → W
  pub payload_put : W → Coordinate → List ℕ → ℕ → W
  pub payload_get : W → Coordinate → List ℕ

-- `mp_rx_event_cb`; `none` is a callback that does not return.
abbrev pub RxEventCb : Type 0 → Type 0
RxEventCb W =
    W
    → StreamEvent
    → Coordinate
    → RxCoordinator W
    → SliceState
    → (old_watermark : ℕ) → (payload : List ℕ) → (payload_size : ℕ) → Option W

-- `mp_rx_stream_t`.
pub record RxStream (W : Type 0) : Type 0 where
  pub config : Config
  pub coordinator : RxCoordinator W
  pub on_event : RxEventCb W
  pub world : W

-- The state that is stored: a complete package starts over.
abbrev pub persisted : SliceInst → SliceState
persisted inst = elim inst.e [ complete ↦ zero_state | _ ↦ inst.next_state ]

module _ {W : Type 0} where
  -- What follows the step: nothing on a duplicate, else the new state and the event.
  unfoldable pub after_step :
      RxStream W → Coordinate → (old_watermark : ℕ) → List ℕ → ℕ → SliceInst → Option (RxStream W)
  after_step s coord old_watermark payload payload_size inst =
      let w = s.coordinator.state_put s.world coord (persisted inst) in
      let told = do
        w' ←
            s.on_event w inst.e coord s.coordinator inst.next_state old_watermark payload
              payload_size
        some (record s { world = w' })
      in elim inst.e [ duplicate ↦ some s | _ ↦ told ]

  -- `mp_rx_stream_feed`. The cast of the frame's first bytes reads a little-endian word.
  unfoldable pub rx_stream_feed : RxStream W → List ℕ → ℕ → Option (RxStream W)
  unfolding after_step
  rx_stream_feed s frame frame_size =
      let hdr = header_unpack (array_to_packed_header frame) in
      let coord = header_to_coordinate s.config hdr in
      let old_state = s.coordinator.state_get s.world coord in
      if ltb frame_size header_size then some s else do
        inst ←
            calc_slice_step old_state hdr.slice_serial hdr.slice_payload_size (max_payload s.config)
              (not (hdr.eop == 0))
        after_step s coord old_state.watermark (drop header_size frame) hdr.slice_payload_size inst
