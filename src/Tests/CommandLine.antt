-- ===== src/Tests/CommandLine.antt =====
-- The command line: src/tools/main.c, session.c, and the commands with their options.
use mathlib.Core.List.{flatten}
use master_pilot_custom_data.Base.{
  ℕ, zero, suc, ◌<◌, ◌^◌, ◌≤◌, ◌≢◌, pos, negsuc, true, Option, none, some, List, ◌≡◌, refl, arith,
  [], ◌∷◌, ◌++◌, replicate, if◌then◌else◌,
}
use master_pilot_custom_data.Rx.Package.{Shape, IsShape}
use master_pilot_custom_data.RxStream.Arrivals.{seen}
use master_pilot_custom_data.Tools.Session.{session_tx_create, session_rx_create, rx_buffer_size}
use master_pilot_custom_data.Tools.Session.File.{Output, tx_session_bytes, rx_session_bytes}
use master_pilot_custom_data.Tools.Session.Create.{load_tx-created, load_rx-created}
use master_pilot_custom_data.Tools.Rx.Delivery.{Takes}
use master_pilot_custom_data.Tools.Main.{
  ParsedOption, same_string, atoi, default_config, config_options, cmd_config, tx_parse_args,
  tx_options, tx_option, require_session_file, session_option, run_tx, main,
}
use master_pilot_custom_data.Tools.Main.Config.{Settles, cmd_config-Settles}
use master_pilot_custom_data.Tools.Main.Args.{tx_parse_args-bounds}
use master_pilot_custom_data.Tools.Command.{tx_command, rx_command}
use master_pilot_custom_data.Tools.Transfer.Packages.{Parcel}
use master_pilot_custom_data.Tools.Command.Transfer.{Delivered, rx_command-tx_command}

atoi_spaces : atoi (b' ' ∷ b'3' ∷ b'0' ∷ b'0' ∷ b'x' ∷ []) ≡ pos 300
unfolding atoi
atoi_spaces = refl

atoi_negative : atoi (b'-' ∷ b'5' ∷ []) ≡ negsuc 4
unfolding atoi
atoi_negative = refl

abbrev option_of : ℕ → List ℕ → ParsedOption
option_of opt optarg = record { opt = opt; optarg = optarg }

main_tx :
    main ((b'm' ∷ []) ∷ (b't' ∷ b'x' ∷ []) ∷ (b'-' ∷ b's' ∷ []) ∷ [])
    ≡ run_tx ((b't' ∷ b'x' ∷ []) ∷ (b'-' ∷ b's' ∷ []) ∷ [])
unfolding main
main_tx = refl

-- An output that takes one byte at a time.
abbrev writes : ℕ → ℕ → Option ℕ
writes n count = some 1

writes-Takes : Takes writes
writes-Takes n count more = (1, refl, omega arith, omega arith)

abbrev silent : Output
silent = record { written = []; calls = 0 }

abbrev config_opts : List ParsedOption
config_opts = option_of b'm' (b'9' ∷ []) ∷ option_of b't' (b'r' ∷ b'x' ∷ []) ∷ []

cmd_config-Settles_example :
    Settles
      (config_options default_config config_opts)
      silent
      (cmd_config writes config_opts silent)
cmd_config-Settles_example = cmd_config-Settles writes writes-Takes config_opts silent

abbrev tx_opts : List ParsedOption
tx_opts = option_of b's' (b't' ∷ []) ∷ option_of b'S' (b'9' ∷ []) ∷ []

tx_opts_parse : tx_parse_args tx_opts ≡ some (b't' ∷ [], 64, 1)
unfolding tx_parse_args tx_options tx_option atoi
tx_opts_parse = refl

tx_parse_args-bounds_example : (0 < 64) × (64 < 2 ^ 16) × (1 < 2 ^ 3)
tx_parse_args-bounds_example = tx_parse_args-bounds tx_opts (b't' ∷ []) 64 1 tx_opts_parse

abbrev rx_opts : List ParsedOption
rx_opts = option_of b's' (b'r' ∷ []) ∷ []

rx_opts_parse : require_session_file rx_opts ≡ some (b'r' ∷ [])
unfolding require_session_file session_option
rx_opts_parse = refl

abbrev tx_file : List ℕ
tx_file = tx_session_bytes (session_tx_create 7)

abbrev rx_file : List ℕ
rx_file = rx_session_bytes (session_rx_create 7).0 ++ replicate (rx_buffer_size 7) 0

abbrev open_file : List ℕ → Option (List ℕ)
open_file path =
    if same_string path (b't' ∷ [])
    then some tx_file
    else (if same_string path (b'r' ∷ []) then some rx_file else none)

abbrev reads : ℕ → List (List ℕ)
reads size = (1 ∷ 2 ∷ []) ∷ (3 ∷ 4 ∷ 5 ∷ []) ∷ []

abbrev takes_all : ℕ → ℕ → ℕ
takes_all n count = count

abbrev five : Shape
five = record { p = 3; last = 1; tail = 2 }

five-IsShape : IsShape five
five-IsShape = omega arith

only_first : (m : ℕ) → m ≤ 1 → m ≢ 0 → seen (1 ∷ 1 ∷ []) m ≡ true
only_first zero h ne = absurd (ne refl)
only_first (suc zero) h ne = refl
only_first (suc (suc m)) h ne = absurd (omega arith)

rx_command-tx_command_example :
    Delivered 7
      (flatten (reads 64))
      (1 ∷ 1 ∷ 0 ∷ [])
      (tx_command open_file takes_all tx_opts reads)
      (rx_command open_file writes rx_opts)
unfolding flatten
rx_command-tx_command_example =
    rx_command-tx_command open_file five takes_all writes tx_opts rx_opts reads (b't' ∷ [])
      (b'r' ∷ []) tx_file rx_file 64 1 7 (1 ∷ 1 ∷ []) 0 tx_opts_parse rx_opts_parse refl refl
      (load_tx-created 7 (omega arith)) (load_rx-created 7 (omega arith)) (omega arith)
      (omega arith) (λ n. refl) writes-Takes five-IsShape (omega arith) refl refl
      (omega arith, (omega arith, tt)) (omega arith) (omega arith, (omega arith, tt)) (omega arith)
      (refl, only_first)

-- The five bytes, and then a package of two.
abbrev first_parcel : Parcel
first_parcel = record { shape = five; reads = reads 64; order = 1 ∷ 1 ∷ []; missing = 0 }

abbrev second_parcel : Parcel
second_parcel = record {
  shape = record { p = 3; last = 0; tail = 2 };
  reads = (8 ∷ 9 ∷ []) ∷ [];
  order = [];
  missing = 0;
}
