-- ===== src/Tools/Command/Transfer.antt =====
-- From the sessions that the config command creates, through the tx command, to the rx command.
use mathlib.Core.List.{flatten}
use master_pilot_custom_data.Base.{
  ℕ, ◌+◌, ◌-◌, ◌*◌, ◌≤◌, ◌<◌, false, Option, none, some, List, [], ◌∷◌, ◌++◌, ◌≡◌, refl, arith,
  length, replicate, length-replicate,
}
use master_pilot_custom_data.Coordinate.{max_payload}
use master_pilot_custom_data.Coordinate.Laws.{max_payload_lem}
use master_pilot_custom_data.TxStream.Package.{AreBuffers}
use master_pilot_custom_data.Rx.Package.{Shape, IsShape, total}
use master_pilot_custom_data.Rx.{zero_state}
use master_pilot_custom_data.RxStream.Arrivals.{AllWithin}
use master_pilot_custom_data.RxStream.Complete.{OnlyMissing}
use master_pilot_custom_data.Rx.Typed.{zero_state-IsTyped}
use master_pilot_custom_data.Tools.Session.Save.{load_tx_file-save_tx_file}
use master_pilot_custom_data.Tools.Session.Reload.{load_rx_file-cmd_rx}
use master_pilot_custom_data.Tools.Session.File.{
  save_tx_file, save_rx_file, load_tx_file, load_rx_file,
}
use master_pilot_custom_data.Tools.Session.{
  TxSession, session_tx_create, session_rx_create, rx_buffer_size, session_recv_magic,
}
use master_pilot_custom_data.Tools.Tx.{TxUser, cmd_tx}
use master_pilot_custom_data.Tools.Rx.{RxCtx, cmd_rx}
use master_pilot_custom_data.Tools.Rx.Delivery.{Takes}
use master_pilot_custom_data.Tools.Transfer.RoundTrip.{pick, fresh, AtNext, cmd_rx-cmd_tx}
use master_pilot_custom_data.Tools.Main.{
  ParsedOption, type_tx, type_rx, tx_parse_args, require_session_file,
}
use master_pilot_custom_data.Tools.Main.Config.{Accepted}
use master_pilot_custom_data.Tools.Command.{tx_command, rx_command}

-- Both commands succeed, rx has written what tx has read, and tx has moved from the new session to
-- the next package.
abbrev pub Delivered :
    (tu : ℕ)
    → List ℕ
    → (order : List ℕ) → Option (ℕ × Option (TxSession × TxUser))
    → (List ℕ → Option (ℕ × Option RxCtx))
    → Type 0
Delivered tu bytes order sends receives =
    (saved : TxSession) × (sink : TxUser) × (c : RxCtx) × (sends ≡ some (0, some (saved, sink)))
    × (receives (pick sink.written order) ≡ some (0, some c))
    × (c.written ≡ bytes)
    × (c.session.state ≡ zero_state)
    × (sink.fault ≡ false)
    × (c.fault ≡ false)
    × AtNext (session_tx_create tu) saved
    × (load_tx_file (save_tx_file saved) ≡ some saved)
    × (load_rx_file (save_rx_file c.session c.assembly) ≡ some (c.session, c.assembly))

module _ (open_file : List ℕ → Option (List ℕ)) where
  -- The commands on session files that are accepted as new.
  tx_command-opened :
      (takes : ℕ → ℕ → ℕ) (opts : List ParsedOption) (reads : ℕ → List (List ℕ))
      (path file : List ℕ) (buf sender tu : ℕ) (saved : TxSession) (sink : TxUser)
      → tx_parse_args opts ≡ some (path, buf, sender)
      → open_file path ≡ some file
      → Accepted type_tx tu file
      → cmd_tx takes (session_tx_create tu) sender (reads buf) ≡ some (saved, sink)
      → sink.exited ≡ none
      → tx_command open_file takes opts reads ≡ some (0, some (saved, sink))
  unfolding tx_command
  tx_command-opened takes opts reads path file buf sender tu saved sink parses opens loads runs
        stays =
      rw (parses, opens, loads, runs, stays) refl

  rx_command-opened :
      (writes : ℕ → ℕ → Option ℕ) (opts : List ParsedOption) (input path file : List ℕ) (tu : ℕ)
      (c : RxCtx)
      → require_session_file opts ≡ some path
      → open_file path ≡ some file
      → Accepted type_rx tu file
      → cmd_rx writes (session_rx_create tu) input ≡ some c
      → rx_command open_file writes opts input ≡ some (0, some c)
  unfolding rx_command
  rx_command-opened writes opts input path file tu c parses opens loads runs =
      rw (parses, opens, loads, runs) refl

  -- For session files that are accepted as new for the same transmission unit, from 7 to 4096,
  -- such as the config command writes, and options that name them; an output of tx that takes
  -- whole blocks, and one of rx that takes something at each call; and input of tx that is not
  -- empty, and fits 256 slices of two bytes less than there is payload in a block, where its
  -- slices, of which the last is not full, have slots that end below 2^16: both commands end with
  -- exit code 0, and rx, on all blocks that tx wrote but one, in any order and with repetitions,
  -- and then the missing one, writes the input of tx, each byte once and in order; it saves a
  -- zeroed state, both save files that the next command loads, tx at the start of the next
  -- package, and neither makes an access out of bounds.
  pub rx_command-tx_command :
      (sh : Shape) (takes : ℕ → ℕ → ℕ) (writes : ℕ → ℕ → Option ℕ)
      (tx_opts rx_opts : List ParsedOption) (reads : ℕ → List (List ℕ))
      (tx_path rx_path tx_file rx_file : List ℕ) (buf sender tu : ℕ) (order : List ℕ) (i : ℕ)
      → tx_parse_args tx_opts ≡ some (tx_path, buf, sender)
      → require_session_file rx_opts ≡ some rx_path
      → open_file tx_path ≡ some tx_file
      → open_file rx_path ≡ some rx_file
      → Accepted type_tx tu tx_file
      → Accepted type_rx tu rx_file
      → 7 ≤ tu
      → tu ≤ 4096
      → ((n : ℕ) → takes n tu ≡ tu)
      → Takes writes
      → IsShape sh
      → sh.tail < sh.p
      → sh.p + 4 ≡ tu
      → length (flatten (reads buf)) ≡ total sh
      → AreBuffers (reads buf)
      → total sh ≤ 256 * (tu - 6)
      → AllWithin sh.last order
      → i ≤ sh.last
      → OnlyMissing sh.last order i
      → Delivered tu
          (flatten (reads buf))
          (order ++ i ∷ [])
          (tx_command open_file takes tx_opts reads)
          (rx_command open_file writes rx_opts)
  unfolding session_tx_create session_rx_create rx_buffer_size
  rx_command-tx_command sh takes writes tx_opts rx_opts reads tx_path rx_path tx_file rx_file buf
        sender tu order i tx_parses rx_parses tx_opens rx_opens tx_loads rx_loads more fits whole
        writes_all good partial unit filled buffers room inside within only =
      let units : max_payload (record { transmission_unit = tu }) ≡ sh.p = omega (
        arith,
        unit,
        max_payload_lem (record { transmission_unit = tu }) (omega arith) (omega arith),
      ) in
      let roomy : total sh ≤ length {A = ℕ} (replicate (rx_buffer_size tu) 0) =
        omega (arith, room, length-replicate {A = ℕ} (rx_buffer_size tu) 0) in
      let (
        saved,
        sink,
        sends,
        safe,
        stays,
        (kind, size, number, start),
        (c, receives, bytes_out, zeroed, in_bounds),
      ) =
        cmd_rx-cmd_tx sh takes (session_tx_create tu) sender (reads buf) writes session_recv_magic
          (replicate (rx_buffer_size tu) 0) order i good partial units filled (omega arith) fits
          whole refl (omega arith) buffers writes_all roomy inside within only in
      (
        saved,
        sink,
        c,
        tx_command-opened takes tx_opts reads tx_path tx_file buf sender tu saved sink tx_parses
            tx_opens tx_loads sends stays,
        rx_command-opened writes rx_opts _ rx_path rx_file tu c rx_parses rx_opens rx_loads
            receives,
        bytes_out,
        zeroed,
        safe,
        in_bounds,
        (kind, size, number, start),
        load_tx_file-save_tx_file saved kind (omega (arith, size, fits)) (omega (arith, start)),
        load_rx_file-cmd_rx writes (fresh session_recv_magic tu) (replicate (rx_buffer_size tu) 0) _
            c refl (omega (arith, fits)) zero_state-IsTyped
            (length-replicate {A = ℕ} (rx_buffer_size tu) 0) receives in_bounds,
      )
