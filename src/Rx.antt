-- ===== src/Rx.antt =====
-- The receiver's pure operators, src/core/customdata-rx.h.
pub mod Bitmap
pub mod Scan
pub mod Received
pub mod Package
pub mod Step
pub mod Wrap
pub mod Empty
pub mod Typed
use master_pilot_custom_data.Base.{
  ℕ, zero, suc, ◌+◌, ◌-◌, ◌*◌, ◌/◌, bit_and, bit_or, Bool, true, false, ◌&&◌, ◌||◌, not, Option,
  none, some, List, ltb, leb, ◌==◌, if◌then◌else◌, ◌>>=◌, get_or, set, replicate, u16, u32, sub32,
  ◌<<<◌, ◌>>>◌,
}
use master_pilot_custom_data.Header.{HeaderMeta}
use master_pilot_custom_data.Coordinate.{
  Config, Coordinate, max_payload, slice_idx_to_offset, offset_to_slice_idx,
}

-- `mp_rx_slice_state_t`. The bitmap has eight words of 32 bits.
pub record SliceState : Type 0 where
  pub bitmap : List ℕ
  pub received_count : ℕ
  pub termination : ℕ
  pub watermark : ℕ

-- `{0}`.
abbrev pub zero_state : SliceState
zero_state = record { bitmap = replicate 8 0; received_count = 0; termination = 0; watermark = 0 }

-- `mp_rx_stream_event_t`.
pub data StreamEvent : Type 0 where
  duplicate new_slice_out_of_order new_slice_in_order complete : StreamEvent

-- `mp_rx_slice_inst_t`.
pub record SliceInst : Type 0 where
  pub e : StreamEvent
  pub next_state : SliceState

unfoldable pub calc_termination : ℕ → ℕ → ℕ → ℕ
calc_termination slice_idx payload_size max_payload =
    u16 (slice_idx_to_offset slice_idx max_payload + payload_size)

-- The sum and the difference are on `uint32_t`.
unfoldable pub termination_to_slice_count : ℕ → ℕ → ℕ
termination_to_slice_count termination max_payload =
    u16 (sub32 (u32 (termination + max_payload)) 1 / max_payload)

unfoldable pub is_complete : SliceState → ℕ → Bool
is_complete state max_payload =
    ltb 0 state.termination
    && leb (termination_to_slice_count state.termination max_payload) state.received_count

unfoldable pub header_to_coordinate : Config → HeaderMeta → Coordinate
header_to_coordinate config header =
    let max_p = max_payload config in
    record {
      sender_id = header.sender_id;
      package_id = header.package_serial;
      offset = slice_idx_to_offset header.slice_serial max_p;
    }

-- `1u << (slice_id & 31)`, the bit of a slice in word `slice_id >> 5` of the bitmap.
abbrev pub bit_mask : ℕ → ℕ
bit_mask slice_id = 1 <<< bit_and slice_id 31

unfoldable pub has_slice : List ℕ → ℕ → Bool
has_slice bitmap slice_id =
    not (bit_and (get_or bitmap (slice_id >>> 5) 0) (bit_mask slice_id) == 0)

unfoldable pub set_slice : List ℕ → ℕ → List ℕ
set_slice bitmap slice_id =
    let arr_idx = slice_id >>> 5 in
    set bitmap arr_idx (bit_or (get_or bitmap arr_idx 0) (bit_mask slice_id))

-- `while (true)` of the watermark's advance, on fuel; `none` means that the fuel ran out.
unfoldable pub scan : ℕ → SliceState → ℕ → ℕ → Option ℕ
scan zero state max_payload wm = none
scan (suc fuel) state max_payload wm =
    let rest = scan fuel state max_payload (u16 (wm + max_payload)) in
    if ltb 0 state.termination && leb state.termination wm
    then some wm
    else if has_slice state.bitmap (offset_to_slice_idx wm max_payload)
    then rest
    else some wm

-- A loop that runs longer than there are 16-bit watermarks has met one twice, and never ends.
unfoldable pub scan_fuel : ℕ
scan_fuel = 65537

unfoldable pub advance_watermark : SliceState → ℕ → Option ℕ
advance_watermark state max_payload = do
  wm ← scan scan_fuel state max_payload state.watermark
  some (if ltb 0 state.termination && ltb state.termination wm then state.termination else wm)

unfoldable pub deliver_size : ℕ → ℕ → ℕ → ℕ
deliver_size cur_off new_wm max_payload =
    if ltb new_wm (u32 (cur_off + max_payload)) then u16 (sub32 new_wm cur_off) else max_payload

-- The bookkeeping of a new slice: its bit, the termination and the count.
unfoldable pub record_slice : SliceState → ℕ → ℕ → ℕ → Bool → SliceState
record_slice state slice_id payload_size max_payload is_eop = record state {
  bitmap = set_slice state.bitmap slice_id;
  termination =
      if ltb payload_size max_payload || is_eop
      then calc_termination slice_id payload_size max_payload
      else state.termination;
  received_count =
      if not (payload_size == 0 && is_eop)
      then u16 (state.received_count + 1)
      else state.received_count;
}

-- `none`: the watermark's scan does not end.
unfoldable pub calc_slice_step : SliceState → ℕ → ℕ → ℕ → Bool → Option SliceInst
calc_slice_step state slice_id payload_size max_payload is_eop =
    let next_state = record_slice state slice_id payload_size max_payload is_eop in
    if has_slice state.bitmap slice_id
    then some (record { e = duplicate; next_state = state })
    else if ltb state.watermark (slice_idx_to_offset slice_id max_payload)
    then some (record { e = new_slice_out_of_order; next_state = next_state })
    else do
      wm ← advance_watermark next_state max_payload
      let next_state' = record next_state { watermark = wm }
      some (record {
        e = if is_complete next_state' max_payload then complete else new_slice_in_order;
        next_state = next_state';
      })
