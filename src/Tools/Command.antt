-- ===== src/Tools/Command.antt =====
-- The tx and rx commands with their options and session files: cmd_tx of src/tools/tx.c and cmd_rx of
-- src/tools/rx.c. `open_file` is what is in the file at a path, if it can be opened and mapped.
pub mod Transfer
use master_pilot_custom_data.Base.{ℕ, Option, none, some, List, ◌>>=◌, either_way, u8}
use master_pilot_custom_data.Tools.Session.{TxSession}
use master_pilot_custom_data.Tools.Session.File.{load_tx_file, load_rx_file}
use master_pilot_custom_data.Tools.Tx.{TxUser, cmd_tx}
use master_pilot_custom_data.Tools.Rx.{RxCtx, cmd_rx}
use master_pilot_custom_data.Tools.Main.{ParsedOption, tx_parse_args, require_session_file}

-- An exit code, and what a command that got to work has come to.
abbrev pub Ended : Type 0 → Type 0
Ended A = ℕ × Option A

-- `session->coord.sender_id = sender_id`.
abbrev pub with_sender : TxSession → ℕ → TxSession
with_sender session sender_id =
    let coord = session.coord in
    record session { coord = record coord { sender_id = u8 sender_id } }

module _ (open_file : List ℕ → Option (List ℕ)) where
  -- `cmd_tx`. `reads n` is what the calls of `read` with a buffer of `n` bytes return; the outer `none`
  -- is a command that does not return. When the sink exits, the
  -- mapped session has only got its sender.
  unfoldable pub tx_command :
      (takes : ℕ → ℕ → ℕ)
      → List ParsedOption
      → (reads : ℕ → List (List ℕ)) → Option (Ended (TxSession × TxUser))
  tx_command takes opts reads =
      either_way (tx_parse_args opts) (some (1, none)) (λ (path, stdin_buf_size, sender_id).
        either_way (open_file path >>= load_tx_file) (some (1, none)) (λ session.
          cmd_tx takes session sender_id (reads stdin_buf_size) >>= (λ (saved, sink). some (
            either_way sink.exited (0, some (saved, sink))
              (λ code. (code, some (with_sender session sender_id, sink)))))))

  -- `cmd_rx`.
  unfoldable pub rx_command :
      (writes : ℕ → ℕ → Option ℕ) → List ParsedOption → (input : List ℕ) → Option (Ended RxCtx)
  rx_command writes opts input = either_way (require_session_file opts) (some (1, none)) (λ path.
      either_way (open_file path >>= load_rx_file) (some (1, none))
        (λ session. cmd_rx writes session input >>= (λ result. some (0, some result))))
