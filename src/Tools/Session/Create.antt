-- ===== src/Tools/Session/Create.antt =====
-- What the session files hold that are created, and that they are accepted.
use master_pilot_custom_data.Base.{
  ℕ, zero, suc, ◌+◌, ◌-◌, ◌*◌, ◌≤◌, ◌<◌, ◌^◌, Bool, true, false, Option, some, List, [], ◌∷◌, ◌++◌,
  ltb, ◌==◌, if◌then◌else◌, ◌≡◌, refl, arith, ap, ◌∙◌, sym, length, take, drop, replicate,
  length-append, length-drop, take-append-drop, append_assoc, append-nil, length-replicate, u8,
  ◌>>>◌, le→ltb, eq→==, drop-past,
}
use master_pilot_custom_data.Tools.Rx.Delivery.{Takes}
use master_pilot_custom_data.Tools.Session.{
  rx_buffer_size, session_tx_create, session_rx_create, session_tx_load, session_rx_load,
}
use master_pilot_custom_data.Tools.Session.File.{
  Output, write_out, write_zeros, create_tx_file, create_rx_file, tx_session_bytes, tx_session_of,
  rx_session_bytes, rx_session_of, load_tx_file, load_rx_file, rx_session_size,
}

-- All of the bytes are out.
abbrev pub Written : Output → List ℕ → Option (Bool × Output) → Type 0
Written out bytes result =
    (calls : ℕ) × (result ≡ some (true, record { written = out.written ++ bytes; calls = calls }))

module _ (writes : ℕ → ℕ → Option ℕ) (takes : Takes writes) where
  write_out-Written :
      (fuel : ℕ) (out : Output) (p : List ℕ)
      → length p < fuel
      → Written out p (write_out writes fuel out p)
  unfolding write_out
  write_out-Written zero out p enough = absurd (omega arith)
  write_out-Written (suc fuel) out [] enough =
      (out.calls, ap (λ l. some (true, record out { written = l })) (sym (append-nil out.written)))
  write_out-Written (suc fuel) out (x ∷ xs) enough =
      let p = x ∷ xs in
      let (n, wrote, some_bytes, within) = takes out.calls (length p) (omega arith) in
      let (calls, goes) =
        write_out-Written fuel (record { written = out.written ++ take n p; calls = suc out.calls })
          (drop n p) (omega (arith, length-drop n p)) in
      let more : (length p == 0) ≡ false = ground arith in
      (
        calls,
        rw (more, wrote)
            (goes
              ∙ ap (λ l. some (true, record { written = l; calls = calls }))
                  (append_assoc out.written (take n p) (drop n p)
                    ∙ ap (λ l. out.written ++ l) (take-append-drop n p))),
      )

  zeros-add : (m n : ℕ) → replicate {A = ℕ} m 0 ++ replicate n 0 ≡ replicate (m + n) 0
  zeros-add zero n = ap (λ k. replicate k 0) (omega arith)
  zeros-add (suc m) n =
      ap (λ l. 0 ∷ l) (zeros-add m n)
      ∙ ap (λ k. replicate k 0) {x = suc (m + n)} {y = suc m + n} (omega arith)

  write_zeros-Written :
      (fuel : ℕ) (out : Output) (n : ℕ)
      → n < fuel
      → Written out (replicate n 0) (write_zeros writes fuel out n)
  unfolding write_zeros
  write_zeros-Written zero out n enough = absurd (omega arith)
  write_zeros-Written (suc fuel) out zero enough =
      (out.calls, ap (λ l. some (true, record out { written = l })) (sym (append-nil out.written)))
  write_zeros-Written (suc fuel) out (suc n) enough =
      let chunk = if ltb (suc n) 4096 then suc n else 4096 in
      let some_bytes : (0 < chunk) × (chunk ≤ suc n) = ground arith in
      let (calls, goes) =
        write_out-Written (suc chunk) out (replicate chunk 0)
          (omega (arith, length-replicate {A = ℕ} chunk 0)) in
      let (calls', goes') =
        write_zeros-Written fuel
          (record { written = out.written ++ replicate chunk 0; calls = calls }) (suc n - chunk)
          (omega (arith, some_bytes)) in
      let more : (suc n == 0) ≡ false = ground arith in
      (
        calls',
        rw (more, goes)
            (goes'
              ∙ ap (λ l. some (true, record { written = l; calls = calls' }))
                  (append_assoc out.written (replicate chunk 0) (replicate (suc n - chunk) 0)
                    ∙ ap (λ l. out.written ++ l)
                        (zeros-add chunk (suc n - chunk)
                          ∙ ap (λ k. replicate k 0) {x = chunk + (suc n - chunk)} {y = suc n}
                              (omega (arith, some_bytes))))),
      )

  pub create_tx-Written :
      (out : Output) (tu : ℕ)
      → Written out (tx_session_bytes (session_tx_create tu)) (create_tx_file writes out tu)
  unfolding create_tx_file
  create_tx-Written out tu =
      write_out-Written _ out (tx_session_bytes (session_tx_create tu)) (omega arith)

  abbrev pub rx_file : ℕ → List ℕ
  rx_file tu = rx_session_bytes (session_rx_create tu).0 ++ replicate (rx_buffer_size tu) 0

  pub create_rx-Written :
      (out : Output) (tu : ℕ) → Written out (rx_file tu) (create_rx_file writes out tu)
  unfolding create_rx_file
  create_rx-Written out tu =
      let p = rx_session_bytes (session_rx_create tu).0 in
      let (calls, goes) = write_out-Written (suc (length p)) out p (omega arith) in
      let (calls', goes') =
        write_zeros-Written (suc (rx_buffer_size tu))
          (record { written = out.written ++ p; calls = calls }) (rx_buffer_size tu)
          (omega arith) in
      (
        calls',
        rw goes (
            goes'
            ∙ ap (λ l. some (true, record { written = l; calls = calls' }))
                (append_assoc out.written p (replicate (rx_buffer_size tu) 0))),
      )

pub load_tx-created :
    (tu : ℕ)
    → tu < 2 ^ 16
    → load_tx_file (tx_session_bytes (session_tx_create tu)) ≡ some (session_tx_create tu)
unfolding load_tx_file tx_session_bytes tx_session_of session_tx_create session_tx_load
load_tx-created tu word =
    let whole : u8 tu + u8 (tu >>> 8) * 2 ^ 8 ≡ tu = omega (arith, word) in rw whole refl

pub load_rx-append :
    (head tail : List ℕ)
    → length head ≡ rx_session_size
    → load_rx_file (head ++ tail) ≡ session_rx_load (rx_session_of (head ++ tail), tail)
unfolding load_rx_file
load_rx-append head tail size =
    let long : ltb (length (head ++ tail)) rx_session_size ≡ false =
      le→ltb _ _ (omega (arith, length-append head tail, size)) in
    let none_left : rx_session_size - length head ≡ 0 = omega (arith, size) in
    let rest : drop rx_session_size (head ++ tail) ≡ tail =
      drop-past rx_session_size head tail (omega (arith, size)) ∙ ap (λ n. drop n tail) none_left in
    rw (long, rest) refl

pub load_rx-created :
    (tu : ℕ)
    → tu < 2 ^ 16
    → load_rx_file (rx_session_bytes (session_rx_create tu).0 ++ replicate (rx_buffer_size tu) 0)
      ≡ some (session_rx_create tu)
unfolding rx_session_bytes rx_session_of session_rx_create session_rx_load
load_rx-created tu word =
    let whole : u8 tu + u8 (tu >>> 8) * 2 ^ 8 ≡ tu = omega (arith, word) in
    let size : (length {A = ℕ} (replicate (rx_buffer_size tu) 0) == rx_buffer_size tu) ≡ true =
      eq→== _ _ (length-replicate (rx_buffer_size tu) 0) in
    load_rx-append (rx_session_bytes (session_rx_create tu).0) (replicate (rx_buffer_size tu) 0)
      refl
    ∙ rw (whole, size) refl
