-- ===== src/Tools/Main.antt =====
-- The command line, src/tools/main.c. `getopt_long` is a parameter: the list of what its calls
-- return, up to the -1, with what `optarg` points at. A string is its bytes without the zero. What
-- goes to the standard error is left out.
pub mod Config
pub mod Args
use master_pilot_custom_data.Base.{
  ℕ, zero, suc, ◌+◌, ◌-◌, ◌*◌, ◌%◌, ◌^◌, ℤ, pos, negsuc, Bool, true, false, ◌&&◌, ◌||◌, not, Option,
  none, some, List, [], ◌∷◌, ltb, leb, ◌==◌, if◌then◌else◌, ◌>>=◌, bit_and, u16,
}
use master_pilot_custom_data.Tools.Session.{header_meta_size}
use master_pilot_custom_data.Tools.Session.File.{Output, create_tx_file, create_rx_file}

-- What a call of `getopt_long` returns, and its argument.
pub record ParsedOption : Type 0 where
  pub opt : ℕ
  pub optarg : List ℕ

-- `strcmp(a, b) == 0`.
abbrev pub same_string : List ℕ → List ℕ → Bool
same_string [] [] = true
same_string [] (b ∷ bs) = false
same_string (a ∷ rest) [] = false
same_string (a ∷ rest) (b ∷ bs) = a == b && same_string rest bs

-- `isspace` and `isdigit` in the C locale.
abbrev pub is_space : ℕ → Bool
is_space c = c == 32 || (leb 9 c && leb c 13)

abbrev pub is_digit : ℕ → Bool
is_digit c = leb 48 c && leb c 57

abbrev pub skip_spaces : List ℕ → List ℕ
skip_spaces [] = []
skip_spaces (c ∷ cs) = let rest = skip_spaces cs in if is_space c then rest else c ∷ cs

abbrev pub digits_value : ℕ → List ℕ → ℕ
digits_value acc [] = acc
digits_value acc (c ∷ cs) =
    let rest = digits_value (acc * 10 + (c - 48)) cs in if is_digit c then rest else acc

abbrev pub negate : ℕ → ℤ
negate zero = pos 0
negate (suc n) = negsuc n

abbrev pub signed_value : List ℕ → ℤ
signed_value [] = pos 0
signed_value (c ∷ cs) =
    if c == 45
    then negate (digits_value 0 cs)
    else (if c == 43 then pos (digits_value 0 cs) else pos (digits_value 0 (c ∷ cs)))

-- `atoi`. A value that does not fit an `int`, which C leaves undefined, is the value here.
unfoldable pub atoi : List ℕ → ℤ
atoi s = signed_value (skip_spaces s)

-- `(uint16_t)n` of an `int`.
abbrev pub cast_u16 : ℤ → ℕ
cast_u16 (pos n) = u16 n
cast_u16 (negsuc n) = 2 ^ 16 - 1 - n % 2 ^ 16

-- `n & 0x7` of an `int` in two's complement.
abbrev pub low_three : ℤ → ℕ
low_three (pos n) = bit_and n 0x7
low_three (negsuc n) = 7 - n % 8

-- `a < b` on `int`, for a `b` that is not negative.
abbrev pub less : ℤ → ℕ → Bool
less (pos n) b = ltb n b
less (negsuc n) b = true

-- `a > b` on `int`, for a `b` that is not negative.
abbrev pub greater : ℤ → ℕ → Bool
greater (pos n) b = ltb b n
greater (negsuc n) b = false

-- A loop over options ends the function with an exit code, or goes on with what it has gathered.
pub data Loop (A : Type 0) : Type 0 where
  exits : ℕ → Loop A
  goes_on : A → Loop A

pub data SessionType : Type 0 where
  type_tx type_rx : SessionType

-- `mtu` and `type` of `cmd_config`.
pub record ConfigArgs : Type 0 where
  pub mtu : ℤ
  pub type_ : SessionType

-- `DEFAULT_MTU`.
abbrev pub default_mtu : ℕ
default_mtu = 300

abbrev pub default_config : ConfigArgs
default_config = record { mtu = pos default_mtu; type_ = type_tx }

-- One round of the loop of `cmd_config`.
unfoldable pub config_option : ConfigArgs → ParsedOption → Loop ConfigArgs
config_option args o =
    if o.opt == b'm'
    then goes_on (record args { mtu = atoi o.optarg })
    else (if o.opt == b't'
        then (if same_string o.optarg (b'r' ∷ b'x' ∷ [])
            then goes_on (record args { type_ = type_rx })
            else (if same_string o.optarg (b't' ∷ b'x' ∷ [])
                then goes_on (record args { type_ = type_tx })
                else exits 1))
        else (if o.opt == b'h' then exits 0 else exits 1))

unfoldable pub config_options : ConfigArgs → List ParsedOption → Loop ConfigArgs
config_options args [] = goes_on args
config_options args (o ∷ opts) = elim (config_option args o) [
  | exits code ↦ exits code
  | goes_on args' ↦ config_options args' opts
]

-- The exit code of a command that has created a session, or has failed to.
abbrev pub exit_code : Bool → ℕ
exit_code true = 0
exit_code false = 1

module _ (writes : ℕ → ℕ → Option ℕ) where
  abbrev pub create_file : SessionType → Output → (transmission_unit : ℕ) → Option (Bool × Output)
  create_file type_tx out transmission_unit = create_tx_file writes out transmission_unit
  create_file type_rx out transmission_unit = create_rx_file writes out transmission_unit

  -- What follows the loop of `cmd_config`.
  unfoldable pub create_session : Output → ConfigArgs → Option (ℕ × Output)
  create_session out args =
      let created =
        create_file args.type_ out (cast_u16 args.mtu)
        >>= (λ (ok, out'). some (exit_code ok, out')) in
      if less args.mtu (header_meta_size + 1) || greater args.mtu 65535
      then some (1, out)
      else created

  -- `cmd_config`: its exit code, and the output; `none` for a `write` that does not get on.
  unfoldable pub cmd_config : List ParsedOption → Output → Option (ℕ × Output)
  cmd_config opts out = elim (config_options default_config opts) [
    | exits code ↦ some (code, out)
    | goes_on args ↦ create_session out args
  ]

-- What `tx_parse_args` gathers.
pub record TxArgs : Type 0 where
  pub session_path : Option (List ℕ)
  pub stdin_buf_size : ℕ
  pub sender_id : ℕ

-- `DEFAULT_STDIN_BUF_SIZE`, and the other initial values.
abbrev pub default_tx : TxArgs
default_tx = record { session_path = none; stdin_buf_size = 64; sender_id = 0 }

-- One round of the loop of `tx_parse_args`; `none` for `return NULL`.
unfoldable pub tx_option : TxArgs → ParsedOption → Option TxArgs
tx_option args o =
    if o.opt == b's'
    then some (record args { session_path = some o.optarg })
    else (if o.opt == b'b'
        then some (record args { stdin_buf_size = cast_u16 (atoi o.optarg) })
        else (if o.opt == b'S'
            then some (record args { sender_id = u16 (low_three (atoi o.optarg)) })
            else none))

unfoldable pub tx_options : TxArgs → List ParsedOption → Option TxArgs
tx_options args [] = some args
tx_options args (o ∷ opts) = do args' ← tx_option args o; tx_options args' opts

-- `tx_parse_args`: the path, the buffer size and the sender.
unfoldable pub tx_parse_args : List ParsedOption → Option (List ℕ × ℕ × ℕ)
tx_parse_args opts = do
  args ← tx_options default_tx opts
  path ← if args.stdin_buf_size == 0 then none else args.session_path
  some (path, args.stdin_buf_size, args.sender_id)

-- `require_session_file`, its loop and what follows it.
unfoldable pub session_option : Option (List ℕ) → List ParsedOption → Option (List ℕ)
session_option path [] = path
session_option path (o ∷ opts) =
    let rest = session_option (some o.optarg) opts in if o.opt == b's' then rest else none

unfoldable pub require_session_file : List ParsedOption → Option (List ℕ)
require_session_file opts = session_option none opts

-- What `main` does: it runs a command on its arguments, or prints its usage and ends.
pub data MainAction : Type 0 where
  run_config run_tx run_rx : (argv : List (List ℕ)) → MainAction
  prints_usage : ℕ → MainAction

abbrev pub chars_config : List ℕ
chars_config = b'c' ∷ b'o' ∷ b'n' ∷ b'f' ∷ b'i' ∷ b'g' ∷ []

abbrev pub chars_tx : List ℕ
chars_tx = b't' ∷ b'x' ∷ []

abbrev pub chars_rx : List ℕ
chars_rx = b'r' ∷ b'x' ∷ []

abbrev pub chars_h : List ℕ
chars_h = b'-' ∷ b'h' ∷ []

abbrev pub chars_help : List ℕ
chars_help = b'-' ∷ b'-' ∷ b'h' ∷ b'e' ∷ b'l' ∷ b'p' ∷ []

-- `main`; `argv` starts with the program's name.
unfoldable pub main : (argv : List (List ℕ)) → MainAction
main [] = prints_usage 1
main (prog ∷ []) = prints_usage 1
main (prog ∷ subcommand ∷ args) =
    if same_string subcommand chars_config
    then run_config (subcommand ∷ args)
    else (if same_string subcommand chars_tx
        then run_tx (subcommand ∷ args)
        else (if same_string subcommand chars_rx
            then run_rx (subcommand ∷ args)
            else (if same_string subcommand chars_h || same_string subcommand chars_help
                then prints_usage 0
                else prints_usage 1)))
