-- ===== src/Tools/Session.antt =====
-- The session files of src/tools/session.h and session.c: what they hold, which files are accepted.
pub mod File
pub mod Create
pub mod Save
pub mod Reload
use master_pilot_custom_data.Base.{
  ℕ, ◌*◌, Option, none, some, ◌==◌, if◌then◌else◌, u16, sub32, List, replicate, length,
}
use master_pilot_custom_data.Coordinate.{Coordinate}
use master_pilot_custom_data.Rx.{SliceState, zero_state}

abbrev pub session_send_magic : ℕ
session_send_magic = 0x4D505364

abbrev pub session_recv_magic : ℕ
session_recv_magic = 0x4D505276

-- `mp_tx_session_t`.
pub record TxSession : Type 0 where
  pub magic : ℕ
  pub transmission_unit : ℕ
  pub coord : Coordinate

-- `mp_rx_session_t`.
pub record RxSession : Type 0 where
  pub magic : ℕ
  pub transmission_unit : ℕ
  pub state : SliceState

-- `sizeof(mp_header_meta_t)`: four bytes and a 16-bit number.
abbrev pub header_meta_size : ℕ
header_meta_size = 6

-- The session's buffer for a package: 256 slices, `rx_total_size` less the session itself.
unfoldable pub rx_buffer_size : ℕ → ℕ
rx_buffer_size transmission_unit = 256 * u16 (sub32 transmission_unit header_meta_size)

-- `mp_session_tx_create`, up to the writing of its bytes.
unfoldable pub session_tx_create : ℕ → TxSession
session_tx_create transmission_unit = record {
  magic = session_send_magic;
  transmission_unit = transmission_unit;
  coord = record { sender_id = 0; package_id = 0; offset = 0 };
}

-- `mp_session_rx_create`: the session and its zeroed buffer.
unfoldable pub session_rx_create : ℕ → RxSession × List ℕ
session_rx_create transmission_unit = (
  record { magic = session_recv_magic; transmission_unit = transmission_unit; state = zero_state },
  replicate (rx_buffer_size transmission_unit) 0,
)

-- `sizeof(mp_tx_session_t)`: packed, with a coordinate of four bytes.
abbrev tx_session_size : ℕ
tx_session_size = 10

-- `mp_session_tx_load` on a file of `st_size` bytes that starts with the session.
unfoldable pub session_tx_load : (st_size : ℕ) → TxSession → Option TxSession
session_tx_load st_size s =
    if st_size == tx_session_size
    then (if s.magic == session_send_magic then some s else none)
    else none

-- `mp_session_rx_load` on a file that holds a session and a buffer.
unfoldable pub session_rx_load : RxSession × List ℕ → Option (RxSession × List ℕ)
session_rx_load (s, buffer) =
    if s.magic == session_recv_magic
    then (if length buffer == rx_buffer_size s.transmission_unit then some (s, buffer) else none)
    else none
