-- ===== src/TxStream/Feed.antt =====
-- `mp_tx_stream_feed` and `mp_tx_stream_finalize` refine the byte-wise framer.
use master_pilot_custom_data.Base.{
  ℕ, zero, suc, ◌+◌, ◌-◌, ◌≤◌, ◌<◌, ◌^◌, min, true, some, List, [], ◌++◌, foldl, foldl-append, ◌≡◌,
  refl, arith, length, length-append, length-take, length-drop, take, drop, take-add, drop-drop,
  append-nil, lt→ltb, le→ltb, ap, ◌∙◌, sym,
}
use native.Mathlib.Decide.{dec_lt}
use native.Mathlib.Nat.{mod-eq_of_lt}
use master_pilot_custom_data.Coordinate.{Config, max_payload}
use master_pilot_custom_data.Coordinate.Laws.{max_payload-lt}
use master_pilot_custom_data.Tx.{tx_prepare}
use master_pilot_custom_data.TxStream.{
  take_size, feed_round, feed_loop, tx_stream_feed, tx_stream_finalize,
}
use master_pilot_custom_data.TxStream.Framer.{
  Framer, add, emit, emit_full, put_byte, stream_at, put-nonempty, put-room,
}

pub take_size_lem :
    (p size off fill : ℕ)
    → off < size
    → size < 2 ^ 16
    → p < 2 ^ 16
    → fill ≤ p
    → take_size p size off fill ≡ min (size - off) (p - fill)
unfolding take_size
take_size_lem p size off fill h hs hp hf = ground arith

module _ (config : Config) (pos : 0 < max_payload config) (bytes : List ℕ) (size : ℕ)
    (held : size ≤ length bytes) (fits : size < 2 ^ 16) where
  -- The bytes of the round at `off`.
  abbrev pub round_bytes : ℕ → Framer → List ℕ
  round_bytes off f =
      take (min (size - off) (max_payload config - length f.gathered.pending)) (drop off bytes)

  pub length-round_bytes :
      (off : ℕ) (f : Framer)
      → off < size
      → length (round_bytes off f)
        ≡ min (size - off) (max_payload config - length f.gathered.pending)
  length-round_bytes off f h = omega (
    arith,
    length-take (min (size - off) (max_payload config - length f.gathered.pending))
        (drop off bytes),
    length-drop off bytes,
  )

  round-block :
      (off : ℕ) (f : Framer)
      → off < size
      → length f.gathered.pending < max_payload config
      → feed_round (max_payload config) bytes size off (stream_at config f)
        ≡ stream_at config (emit_full config (add config f (round_bytes off f)))
  unfolding feed_round tx_prepare
  round-block off f h room = ground (
    arith,
    take_size_lem (max_payload config) size off (length f.gathered.pending),
    max_payload-lt config,
    length-round_bytes off f,
    length-append f.gathered.pending (round_bytes off f),
    append-nil (f.gathered.pending ++ round_bytes off f),
  )

  pub nothing_left : (off : ℕ) → size ≤ off → take (size - off) (drop off bytes) ≡ []
  nothing_left off h = ap (λ k. take k (drop off bytes)) {x = size - off} {y = 0} (omega arith)

  -- One round puts its bytes in one by one.
  round-framer :
      (off : ℕ) (f : Framer)
      → off < size
      → length f.gathered.pending < max_payload config
      → feed_round (max_payload config) bytes size off (stream_at config f)
        ≡ stream_at config (foldl (put_byte config) f (round_bytes off f))
  round-framer off f h room =
      round-block off f h room
      ∙ ap (stream_at config) (
          sym (
            put-nonempty config f (round_bytes off f) (omega (arith, length-round_bytes off f h))
              (omega (arith, length-round_bytes off f h))))

  pub rest_of_bytes :
      (off n : ℕ) (f : Framer)
      → off + n ≤ size
      → foldl
          (put_byte config)
          (foldl (put_byte config) f (take n (drop off bytes)))
          (take (size - (off + n)) (drop (off + n) bytes))
        ≡ foldl (put_byte config) f (take (size - off) (drop off bytes))
  rest_of_bytes off n f h =
      ap
        (λ r.
          foldl (put_byte config) (foldl (put_byte config) f (take n (drop off bytes)))
            (take (size - (off + n)) r))
        (sym (drop-drop off n bytes))
      ∙ sym (
          foldl-append (put_byte config) f (take n (drop off bytes))
            (take (size - (off + n)) (drop n (drop off bytes))))
      ∙ ap (foldl (put_byte config) f) (
          sym (take-add n (size - (off + n)) (drop off bytes))
          ∙ ap (λ k. take k (drop off bytes)) (omega arith))

  pub loop-framer :
      (fuel off : ℕ) (f : Framer)
      → size - off < fuel
      → off ≤ size
      → length f.gathered.pending < max_payload config
      → feed_loop fuel (max_payload config) bytes size off (stream_at config f)
        ≡ some (stream_at config (foldl (put_byte config) f (take (size - off) (drop off bytes))))
  unfolding feed_loop
  loop-framer zero off f h le room = absurd (omega arith)
  loop-framer (suc fuel) off f h le room = elim (dec_lt off size) [
    | no done ↦ rw (le→ltb off size (omega arith), nothing_left off (omega arith)) refl
    | yes more ↦
        let n = min (size - off) (max_payload config - length f.gathered.pending) in
        rw (
          lt→ltb off size more,
          take_size_lem (max_payload config) size off (length f.gathered.pending) more fits
              (max_payload-lt config) (omega arith),
          mod-eq_of_lt {n = off + n} {m = 2 ^ 16} (omega arith),
          round-framer off f more room,
          loop-framer fuel (off + n) (foldl (put_byte config) f (round_bytes off f)) (omega arith)
              (omega arith) (put-room config pos (round_bytes off f) f room),
          rest_of_bytes off n f (omega arith),
        )
  ]

-- Feeding a buffer, from a state whose slice is not full, ends and does what putting in the
-- buffer's first `size` bytes one by one does.
pub feed-framer :
    (config : Config) (f : Framer) (bytes : List ℕ) (size : ℕ)
    → 0 < max_payload config
    → length f.gathered.pending < max_payload config
    → size ≤ length bytes
    → size < 2 ^ 16
    → tx_stream_feed (stream_at config f) bytes size
      ≡ some (stream_at config (foldl (put_byte config) f (take size bytes)))
unfolding tx_stream_feed
feed-framer config f bytes size pos room held fits =
    loop-framer config pos bytes size held fits (size + 2) 0 f (omega arith) (omega arith) room
    ∙ ap (λ k. some (stream_at config (foldl (put_byte config) f (take k bytes)))) (omega arith)

-- Finalizing sends the slice under way, marked as the last, and moves the cursor on.
pub finalize-framer :
    (config : Config) (f : Framer)
    → tx_stream_finalize (stream_at config f) ≡ stream_at config (emit config true f)
unfolding tx_stream_finalize tx_prepare
finalize-framer config f = ground (arith, append-nil f.gathered.pending)
