-- ===== src/TxStream/Simulation.antt =====
-- A sink that does what the gathering sink does, up to a relation, stays in step with it over a whole
-- package.
use mathlib.Core.List.{flatten}
use mathlib.Core.Path.{subst}
use native.Mathlib.Decide.{dec_lt}
use native.Mathlib.Nat.{mod-eq_of_lt, le_refl, le_of_lt}
use master_pilot_custom_data.Base.{
  ℕ, zero, suc, ◌+◌, ◌-◌, ◌≤◌, ◌<◌, ◌^◌, min, true, Option, none, some, List, [], ◌∷◌, foldl, ◌≡◌,
  refl, arith, length, take, drop, lt→ltb, le→ltb, ap, ◌∙◌, sym, ◌>>=◌, take_all, foldl-append,
  append-nil,
}
use master_pilot_custom_data.Header.{HeaderMeta}
use master_pilot_custom_data.Coordinate.{Config, max_payload}
use master_pilot_custom_data.Tx.{tx_prepare, tx_make_header}
use master_pilot_custom_data.TxStream.{
  TxStream, TxAction, act_finalize, feed_loop, tx_stream_feed, tx_stream_finalize,
}
use master_pilot_custom_data.TxStream.Framer.{Framer, Gathered, emit, put_byte, put-room}
use master_pilot_custom_data.TxStream.Feed.{round_bytes, rest_of_bytes, nothing_left}
use master_pilot_custom_data.TxStream.Package.{feed_all, send, AreBuffers}
use master_pilot_custom_data.TxStream.Rounds.{Follows, stream_with, feed_round-poured, sizes}

module _ {W : Type 0} (config : Config)
    (push : W → TxAction → Option HeaderMeta → Option (List ℕ) → ℕ → W) (R : W → Gathered → Type 0)
    (follows : Follows config push R) (pos : 0 < max_payload config) where
  -- The stream at a state of the framer, with the sink's own state.
  abbrev at : Framer → W → TxStream W
  at f w = stream_with config push R follows pos f w

  -- The stream's result stands at the framer's, and the sinks are related.
  abbrev pub Keeps : Framer → Option (TxStream W) → Type 0
  Keeps f result = (w : W) × (result ≡ some (at f w)) × R w f.gathered

  module _ (bytes : List ℕ) (size : ℕ) (held : size ≤ length bytes) (fits : size < 2 ^ 16) where
    loop_with :
        (fuel off : ℕ) (f : Framer) (w : W)
        → R w f.gathered
        → size - off < fuel
        → off ≤ size
        → length f.gathered.pending < max_payload config
        → Keeps
            (foldl (put_byte config) f (take (size - off) (drop off bytes)))
            (feed_loop fuel (max_payload config) bytes size off (at f w))
    unfolding feed_loop
    loop_with zero off f w r h le room = absurd (omega arith)
    loop_with (suc fuel) off f w r h le room = elim (dec_lt off size) [
      | no done ↦
          let nothing : take (size - off) (drop off bytes) ≡ [] =
            nothing_left config pos bytes size held fits off (omega arith) in
          rw (nothing, le→ltb off size (omega arith)) (w, refl, r)
      | yes more ↦
          let n = min (size - off) (max_payload config - length f.gathered.pending) in
          let f' = foldl (put_byte config) f (round_bytes config pos bytes size held fits off f) in
          let (w', rounds, r') =
            feed_round-poured config push R follows pos bytes size held fits off f w r more room in
          let (w'', loops, r'') =
            loop_with fuel (off + n) f' w' r' (omega arith) (omega arith)
              (put-room config pos (round_bytes config pos bytes size held fits off f) f room) in
          let whole = rest_of_bytes config pos bytes size held fits off n f (omega arith) in
          let steps : feed_loop (suc fuel) (max_payload config) bytes size off (at f w)
              ≡ some (
                  at (foldl (put_byte config) f' (take (size - (off + n)) (drop (off + n) bytes)))
                    w'') =
            rw
              (
                lt→ltb off size more,
                (sizes config push R follows pos bytes size held fits off f more room).0,
                mod-eq_of_lt {n = off + n} {m = 2 ^ 16} (omega arith),
                rounds,
              )
              loops in
          subst (λ g. Keeps g (feed_loop (suc fuel) (max_payload config) bytes size off (at f w)))
            whole (w'', steps, r'')
    ]

  feed_with :
      (f : Framer) (w : W) (bytes : List ℕ)
      → R w f.gathered
      → length f.gathered.pending < max_payload config
      → length bytes < 2 ^ 16
      → Keeps (foldl (put_byte config) f bytes) (tx_stream_feed (at f w) bytes (length bytes))
  unfolding tx_stream_feed
  feed_with f w bytes r room fits =
      subst
        (λ l.
          Keeps (foldl (put_byte config) f l)
            (feed_loop (length bytes + 2) (max_payload config) bytes (length bytes) 0 (at f w)))
        (ap (λ k. take k bytes) (omega arith) ∙ take_all (length bytes) bytes (le_refl _))
        (loop_with bytes (length bytes) (le_refl _) fits (length bytes + 2) 0 f w r (omega arith)
          (omega arith) room)

  feed_all_with :
      (bufs : List (List ℕ)) (f : Framer) (w : W)
      → R w f.gathered
      → length f.gathered.pending < max_payload config
      → AreBuffers bufs
      → Keeps (foldl (put_byte config) f (flatten bufs)) (feed_all (at f w) bufs)
  unfolding feed_all flatten
  feed_all_with [] f w r room fits = (w, refl, r)
  feed_all_with (b ∷ bufs) f w r room fits =
      let (w', feeds, r') = feed_with f w b r room fits.0 in
      let (w'', rest, r'') =
        feed_all_with bufs (foldl (put_byte config) f b) w' r' (put-room config pos b f room)
          fits.1 in
      subst (λ g. Keeps g (feed_all (at f w) (b ∷ bufs)))
        (sym (foldl-append (put_byte config) f b (flatten bufs)))
        (w'', ap (λ m. m >>= (λ s. feed_all s bufs)) feeds ∙ rest, r'')

  finalize_with :
      (f : Framer) (w : W)
      → R w f.gathered
      → length f.gathered.pending ≤ max_payload config
      → Keeps (emit config true f) (some (tx_stream_finalize (at f w)))
  unfolding tx_stream_finalize tx_prepare
  finalize_with f w r room = (
    push w act_finalize (some (tx_make_header config f.cursor (length f.gathered.pending) true))
        none 0,
    refl,
    subst (R _) (rw append-nil) (follows.takes_header w f.gathered act_finalize _ r room),
  )

  -- Over a whole package the sink stays in step with the gathering one.
  pub send_with :
      (bufs : List (List ℕ)) (f : Framer) (w : W)
      → R w f.gathered
      → length f.gathered.pending < max_payload config
      → AreBuffers bufs
      → Keeps (emit config true (foldl (put_byte config) f (flatten bufs))) (send (at f w) bufs)
  unfolding send
  send_with bufs f w r room fits =
      let (w', feeds, r') = feed_all_with bufs f w r room fits in
      let (w'', ends, r'') =
        finalize_with (foldl (put_byte config) f (flatten bufs)) w' r'
          (le_of_lt (put-room config pos (flatten bufs) f room)) in
      (w'', ap (λ m. m >>= (λ s. some (tx_stream_finalize s))) feeds ∙ ends, r'')
