-- ===== src/Tests/Sessions.antt =====
-- The session files: src/tools/session.c.
use master_pilot_custom_data.Base.{
  ℕ, ◌≡◌, refl, arith, Option, none, some, List, [], ◌∷◌, replicate, length, length-replicate,
  false,
}
use master_pilot_custom_data.Header.{
  header_pack, header_unpack, packed_header_to_array, array_to_packed_header,
}
use master_pilot_custom_data.Coordinate.{max_payload, slice_idx_to_offset}
use master_pilot_custom_data.Rx.{
  zero_state, calc_slice_step, has_slice, record_slice, header_to_coordinate,
}
use master_pilot_custom_data.Rx.Typed.{zero_state-IsTyped}
use master_pilot_custom_data.RxStream.{rx_stream_feed}
use master_pilot_custom_data.Tx.Laws.{slot_header}
use master_pilot_custom_data.RxStream.Frame.{frame_of}
use master_pilot_custom_data.Tools.Session.{RxSession, session_recv_magic, rx_buffer_size}
use master_pilot_custom_data.Tools.Session.File.{load_rx_file, save_rx_file}
use master_pilot_custom_data.Tools.Session.Save.{load_rx_file-save_rx_file}
use master_pilot_custom_data.Tools.Session.Reload.{load_rx_file-cmd_rx}
use master_pilot_custom_data.Tools.Rx.{
  RxCtx, cmd_rx, rx_loop, coordinator, state_get, state_put, payload_put, on_event,
}

abbrev session : RxSession
session = record { magic = session_recv_magic; transmission_unit = 7; state = zero_state }

abbrev buffer : List ℕ
buffer = replicate 256 9

buffer-size : length buffer ≡ rx_buffer_size 7
unfolding rx_buffer_size
buffer-size = length-replicate {A = ℕ} 256 9

load_rx_file-save_rx_file_example :
    load_rx_file (save_rx_file session buffer) ≡ some (session, buffer)
load_rx_file-save_rx_file_example =
    load_rx_file-save_rx_file session buffer refl (omega arith) zero_state-IsTyped buffer-size

abbrev writes : ℕ → ℕ → Option ℕ
writes n count = some count

-- The second slice of a package comes first.
abbrev early : List ℕ
early = frame_of (slot_header 2 9 1 3 false) (1 ∷ 2 ∷ 3 ∷ [])

abbrev result_or : Option RxCtx → RxCtx → RxCtx
result_or none c = c
result_or (some c) d = c

abbrev start : RxCtx
start = record { session = session; assembly = buffer; written = []; calls = 0; fault = false }

abbrev after_early : RxCtx
after_early = result_or (cmd_rx writes (session, buffer) early) start

early_runs : cmd_rx writes (session, buffer) early ≡ some after_early
unfolding cmd_rx rx_loop rx_stream_feed packed_header_to_array calc_slice_step has_slice coordinator
    state_get header_unpack array_to_packed_header header_pack slice_idx_to_offset max_payload
    on_event record_slice
early_runs = refl

early_safe : after_early.fault ≡ false
unfolding cmd_rx rx_loop rx_stream_feed packed_header_to_array calc_slice_step has_slice coordinator
    state_get header_unpack array_to_packed_header header_pack slice_idx_to_offset max_payload
    on_event record_slice payload_put state_put header_to_coordinate
early_safe = refl

load_rx_file-cmd_rx_example :
    load_rx_file (save_rx_file after_early.session after_early.assembly)
    ≡ some (after_early.session, after_early.assembly)
load_rx_file-cmd_rx_example =
    load_rx_file-cmd_rx writes session buffer early after_early refl (omega arith)
      zero_state-IsTyped buffer-size early_runs early_safe
