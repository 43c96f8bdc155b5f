-- ===== src/Tools/Main/Config.antt =====
-- What `cmd_config` comes to, on every list of options.
use native.Mathlib.Decide.{dec_lt}
use master_pilot_custom_data.Base.{
  ℕ, ◌≤◌, ◌<◌, ◌^◌, ℤ, pos, negsuc, true, false, Option, some, List, ◌++◌, ◌≡◌, ◌⊎◌, inl, inr, refl,
  arith, ltb, u16, lt→ltb, le→ltb,
}
use master_pilot_custom_data.Tools.Rx.Delivery.{Takes}
use master_pilot_custom_data.Tools.Session.{session_tx_create, session_rx_create}
use master_pilot_custom_data.Tools.Session.File.{
  Output, tx_session_bytes, load_tx_file, load_rx_file,
}
use master_pilot_custom_data.Tools.Session.Create.{
  create_tx-Written, create_rx-Written, rx_file, load_tx-created, load_rx-created, Written,
}
use master_pilot_custom_data.Tools.Main.{
  ParsedOption, Loop, exits, goes_on, ConfigArgs, SessionType, type_tx, type_rx, default_config,
  less, greater, config_options, create_file, create_session, cmd_config,
}

-- The file is accepted as a new session with this transmission unit.
abbrev pub Accepted : SessionType → ℕ → List ℕ → Type 0
Accepted type_tx tu file = load_tx_file file ≡ some (session_tx_create tu)
Accepted type_rx tu file = load_rx_file file ≡ some (session_rx_create tu)

-- Where no file is written: the options end the command, or the size is out of range.
abbrev pub Refused : Loop ConfigArgs → ℕ → Type 0
Refused (exits c) code = c ≡ code
Refused (goes_on args) code =
    (code ≡ 1) × ((less args.mtu 7 ≡ true) ⊎ (greater args.mtu 65535 ≡ true))

abbrev pub InRange : Loop ConfigArgs → SessionType → ℕ → Type 0
InRange parsed type_ tu =
    (parsed ≡ goes_on (record { mtu = pos tu; type_ = type_ })) × (7 ≤ tu) × (tu ≤ 65535)

-- Either a file is refused and nothing is written, or a file is written that is accepted.
abbrev pub Settles : Loop ConfigArgs → Output → Option (ℕ × Output) → Type 0
Settles parsed out result =
    ((code : ℕ) × Refused parsed code × (result ≡ some (code, out)))
    ⊎ ((type_ : SessionType) × (tu : ℕ) × (file : List ℕ) × (calls : ℕ) × InRange parsed type_ tu
        × (result ≡ some (0, record { written = out.written ++ file; calls = calls }))
        × Accepted type_ tu file)

module _ (writes : ℕ → ℕ → Option ℕ) (takes : Takes writes) where
  abbrev Creates : SessionType → Output → ℕ → Type 0
  Creates type_ out tu =
      (file : List ℕ) × Written out file (create_file writes type_ out tu) × Accepted type_ tu file

  creates : (type_ : SessionType) (out : Output) (tu : ℕ) → tu < 2 ^ 16 → Creates type_ out tu
  creates type_tx out tu word = (
    tx_session_bytes (session_tx_create tu),
    create_tx-Written writes takes out tu,
    load_tx-created tu word,
  )
  creates type_rx out tu word =
      (rx_file writes takes tu, create_rx-Written writes takes out tu, load_rx-created tu word)

  settles :
      (mtu : ℤ) (type_ : SessionType) (out : Output)
      → let args : ConfigArgs = record { mtu = mtu; type_ = type_ } in
        Settles (goes_on args) out (create_session writes out args)
  unfolding create_session
  settles (negsuc n) type_ out = inl (1, (refl, inl refl), refl)
  settles (pos n) type_ out = elim (dec_lt n 7) [
    | yes low ↦
        let below : ltb n 7 ≡ true = lt→ltb n 7 low in inl (1, (refl, inl below), rw below refl)
    | no enough ↦ elim (dec_lt 65535 n) [
      | yes high ↦
          let above : ltb 65535 n ≡ true = lt→ltb 65535 n high in
          let not_below : ltb n 7 ≡ false = le→ltb n 7 (omega arith) in
          inl (1, (refl, inr above), rw (not_below, above) refl)
      | no within ↦
          let (file, (calls, goes), accepted) = creates type_ out n (omega arith) in
          let cast : u16 n ≡ n = omega arith in
          let not_below : ltb n 7 ≡ false = le→ltb n 7 (omega arith) in
          let not_above : ltb 65535 n ≡ false = le→ltb 65535 n (omega arith) in
          inr (
            type_,
            n,
            file,
            calls,
            (refl, omega arith, omega arith),
            rw (not_below, not_above, cast, goes) refl,
            accepted,
          )
    ]
  ]

  after_options :
      (parsed : Loop ConfigArgs) (out : Output)
      → Settles parsed out (elim parsed [
        | exits code ↦ some (code, out)
        | goes_on args ↦ create_session writes out args
      ])
  after_options (exits code) out = inl (code, refl, refl)
  after_options (goes_on args) out = settles args.mtu args.type_ out

  -- For an output that takes something at each call, on whatever options: the config command returns.
  -- Either an option ends it, with that option's exit code, or the size is below 7 or above 65535 and
  -- the exit code is 1, and nothing is written; or the exit code is 0, and what is written is a
  -- session file, of the type and for the size that the options say, that the other commands accept.
  pub cmd_config-Settles :
      (opts : List ParsedOption) (out : Output)
      → Settles (config_options default_config opts) out (cmd_config writes opts out)
  unfolding cmd_config
  cmd_config-Settles opts out = after_options (config_options default_config opts) out
