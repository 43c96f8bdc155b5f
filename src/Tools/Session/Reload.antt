-- ===== src/Tools/Session/Reload.antt =====
-- The session file after any run of the rx command.
use mathlib.Core.Option.{Option, some}
use master_pilot_custom_data.Base.{ℕ, ◌<◌, ◌^◌, ◌≡◌, List, false, length, arith, ap, ◌∙◌, sym}
use master_pilot_custom_data.Rx.Typed.{IsTyped}
use master_pilot_custom_data.Tools.Session.{RxSession, session_recv_magic, rx_buffer_size}
use master_pilot_custom_data.Tools.Session.File.{load_rx_file, save_rx_file}
use master_pilot_custom_data.Tools.Session.Save.{load_rx_file-save_rx_file}
use master_pilot_custom_data.Tools.Rx.{RxCtx, cmd_rx}
use master_pilot_custom_data.Tools.Rx.Kept.{cmd_rx-Keeps}

-- Whatever the input of the rx command is: from a session that its file can hold, with the magic
-- number, a 16-bit transmission unit, a receive state within its C types and the buffer that the
-- transmission unit takes, if the command returns and has made no access out of bounds, then the file
-- that it saves is loaded by the next one, as the session and the buffer at its end.
pub load_rx_file-cmd_rx :
    (writes : ℕ → ℕ → Option ℕ) (s : RxSession) (assembly input : List ℕ) (c : RxCtx)
    → s.magic ≡ session_recv_magic
    → s.transmission_unit < 2 ^ 16
    → IsTyped s.state
    → length assembly ≡ rx_buffer_size s.transmission_unit
    → cmd_rx writes (s, assembly) input ≡ some c
    → c.fault ≡ false
    → load_rx_file (save_rx_file c.session c.assembly) ≡ some (c.session, c.assembly)
load_rx_file-cmd_rx writes s assembly input c magic unit t size runs safe =
    let k = cmd_rx-Keeps writes s assembly input c t runs in
    load_rx_file-save_rx_file c.session c.assembly (k.same_magic ∙ magic)
      (omega (arith, unit, k.same_unit)) k.typed
      (k.same_room safe ∙ size ∙ ap rx_buffer_size (sym k.same_unit))
