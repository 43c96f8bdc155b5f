-- ===== src/Tools/Main/Args.antt =====
-- What `tx_parse_args` lets through.
use mathlib.Core.Path.{subst}
use mathlib.Core.Option.{some-injective}
use master_pilot_custom_data.Base.{
  ℕ, ◌<◌, ◌^◌, ℤ, pos, negsuc, false, Option, none, some, List, [], ◌∷◌, ◌≡◌, arith, ap, ◌∙◌, sym,
  ◌==◌, if◌then◌else◌, ◌>>=◌, u16, bit_and_low, inl, inr, Option-cases, either_end, zero, suc,
}
use master_pilot_custom_data.Tools.Main.{
  ParsedOption, TxArgs, cast_u16, low_three, atoi, default_tx, tx_option, tx_options, tx_parse_args,
}

-- The numbers fit what they are used for.
record InBounds (args : TxArgs) : Type 0 where
  buf_fits : args.stdin_buf_size < 2 ^ 16
  sender_fits : args.sender_id < 2 ^ 3

cast_u16-lt : (n : ℤ) → cast_u16 n < 2 ^ 16
cast_u16-lt (pos n) = omega arith
cast_u16-lt (negsuc n) = omega arith

low_three-lt : (n : ℤ) → u16 (low_three n) < 2 ^ 3
low_three-lt (pos n) = omega (arith, bit_and_low 3 n)
low_three-lt (negsuc n) = omega arith

tx_option-InBounds :
    (args args' : TxArgs) (o : ParsedOption)
    → InBounds args
    → tx_option args o ≡ some args'
    → InBounds args'
unfolding tx_option
tx_option-InBounds args args' o b e =
    either_end InBounds (o.opt == b's') _ args' _
      (record { buf_fits = b.buf_fits; sender_fits = b.sender_fits })
      (either_end InBounds (o.opt == b'b') _ args' _
        (record { buf_fits = cast_u16-lt (atoi o.optarg); sender_fits = b.sender_fits })
        (either_end InBounds (o.opt == b'S') _ args' none
          (record { buf_fits = b.buf_fits; sender_fits = low_three-lt (atoi o.optarg) })
          (λ stops. absurd (cc))))
      e

tx_options-InBounds :
    (args args' : TxArgs) (opts : List ParsedOption)
    → InBounds args
    → tx_options args opts ≡ some args'
    → InBounds args'
unfolding tx_options
tx_options-InBounds args args' [] b e = subst InBounds (some-injective _ _ e) b
tx_options-InBounds args args' (o ∷ opts) b e = elim (Option-cases (tx_option args o)) [
  | inl stops ↦ absurd (cc)
  | inr (next, goes) ↦
      tx_options-InBounds next args' opts (tx_option-InBounds args next o b goes)
        (sym (ap (λ r. r >>= (λ a. tx_options a opts)) goes) ∙ e)
]

check : TxArgs → Option (List ℕ × ℕ × ℕ)
check args = do
  path ← if args.stdin_buf_size == 0 then none else args.session_path
  some (path, args.stdin_buf_size, args.sender_id)

accepted :
    (session_path : Option (List ℕ)) (buf sender : ℕ) (path : List ℕ) (buf' sender' : ℕ)
    → InBounds (record { session_path = session_path; stdin_buf_size = buf; sender_id = sender })
    → check (record { session_path = session_path; stdin_buf_size = buf; sender_id = sender })
      ≡ some (path, buf', sender')
    → (0 < buf') × (buf' < 2 ^ 16) × (sender' < 2 ^ 3)
unfolding check
accepted session_path zero sender path buf' sender' b e = absurd (cc)
accepted none (suc buf) sender path buf' sender' b e =
    let more : (suc buf == 0) ≡ false = ground arith in absurd (cc)
accepted (some p) (suc buf) sender path buf' sender' b e =
    let more : (suc buf == 0) ≡ false = ground arith in
    let same : ◌≡◌ {A = List ℕ × ℕ × ℕ} (p, suc buf, sender) (path, buf', sender') =
      some-injective _ _ (
        sym (ap (λ c. (if c then none else some p) >>= (λ q. some (q, suc buf, sender))) more)
        ∙ e) in
    let size : suc buf ≡ buf' = ap (λ (t : List ℕ × ℕ × ℕ). t.1) same in
    let id : sender ≡ sender' = ap (λ (t : List ℕ × ℕ × ℕ). t.2) same in
    (omega (arith, size), omega (arith, size, b), omega (arith, id, b))

-- Whatever the options are: if they are accepted, there is a path, the read buffer has at least one
-- byte and fewer than 2^16, and the sender fits the three bits of the header.
pub tx_parse_args-bounds :
    (opts : List ParsedOption) (path : List ℕ) (stdin_buf_size sender_id : ℕ)
    → tx_parse_args opts ≡ some (path, stdin_buf_size, sender_id)
    → (0 < stdin_buf_size) × (stdin_buf_size < 2 ^ 16) × (sender_id < 2 ^ 3)
unfolding tx_parse_args check
tx_parse_args-bounds opts path stdin_buf_size sender_id e =
    elim (Option-cases (tx_options default_tx opts)) [
      | inl stops ↦ absurd (cc)
      | inr (args, goes) ↦
          accepted args.session_path args.stdin_buf_size args.sender_id _ _ _
            (tx_options-InBounds default_tx args opts (omega arith) goes)
            (sym (ap (λ r. r >>= check) goes) ∙ e)
    ]
