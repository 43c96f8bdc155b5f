-- ===== src/TxStream/Rounds.antt =====
-- A sink that does what the gathering sink does, up to a relation, and one round of the feed's loop.
use mathlib.Core.Path.{subst}
use master_pilot_custom_data.Base.{
  ℕ, ◌+◌, ◌-◌, ◌≤◌, ◌<◌, ◌^◌, min, true, false, Option, none, some, List, foldl, ◌≡◌, arith, ◌==◌,
  inl, inr, length, length-append, length-drop, drop, sym, Bool-cases, ==→eq, append-nil, u16,
}
use master_pilot_custom_data.Header.{HeaderMeta}
use master_pilot_custom_data.Coordinate.{Config, max_payload}
use master_pilot_custom_data.Coordinate.Laws.{max_payload-lt}
use master_pilot_custom_data.Tx.{tx_prepare, tx_make_header}
use master_pilot_custom_data.TxStream.{TxStream, TxAction, act_data, take_size, feed_round}
use master_pilot_custom_data.TxStream.Framer.{
  Framer, Gathered, gather, add, emit_full, put_byte, put-nonempty,
}
use master_pilot_custom_data.TxStream.Feed.{take_size_lem, round_bytes, length-round_bytes}

-- What a sink must do: take payload that fits, and take a header.
pub record Follows {W : Type 0} (config : Config)
    (push : W → TxAction → Option HeaderMeta → Option (List ℕ) → ℕ → W) (R : W → Gathered → Type 0)
    : Type 0 where
  pub takes_payload :
      (w : W) (g : Gathered) (bytes : List ℕ) (size : ℕ)
      → R w g
      → size ≤ length bytes
      → length g.pending + size ≤ max_payload config
      → R (push w act_data none (some bytes) size) (gather g act_data none (some bytes) size)
  pub takes_header :
      (w : W) (g : Gathered) (act : TxAction) (header : HeaderMeta)
      → R w g
      → length g.pending ≤ max_payload config
      → R (push w act (some header) none 0) (gather g act (some header) none 0)

module _ {W : Type 0} (config : Config)
    (push : W → TxAction → Option HeaderMeta → Option (List ℕ) → ℕ → W) (R : W → Gathered → Type 0)
    (follows : Follows config push R) (pos : 0 < max_payload config) where
  abbrev pub stream_with : Framer → W → TxStream W
  stream_with f w = record {
    config = config;
    cursor = f.cursor;
    fill = length f.gathered.pending;
    downstream = record { push = push; user = w };
  }

  abbrev full_header : Framer → HeaderMeta
  full_header f = tx_make_header config f.cursor (max_payload config) false

  cut_full :
      (f : Framer)
      → (length f.gathered.pending == max_payload config) ≡ true
      → gather f.gathered act_data (some (full_header f)) none 0 ≡ (emit_full config f).gathered
  cut_full f full =
      let e : length f.gathered.pending ≡ max_payload config = ==→eq _ _ full in
      rw (full, e, append-nil)

  stays :
      (f : Framer)
      → (length f.gathered.pending == max_payload config) ≡ false
      → f.gathered ≡ (emit_full config f).gathered
  stays f part = rw part

  module _ (bytes : List ℕ) (size : ℕ) (held : size ≤ length bytes) (fits : size < 2 ^ 16) where
    abbrev portion : ℕ → Framer → List ℕ
    portion off f = round_bytes config pos bytes size held fits off f

    abbrev filled : ℕ → Framer → Framer
    filled off f = add config f (portion off f)

    abbrev Round : ℕ → Framer → W → Type 0
    Round off f w =
        (w' : W) × (feed_round (max_payload config) bytes size off (stream_with f w)
          ≡ stream_with (emit_full config (filled off f)) w')
        × R w' (emit_full config (filled off f)).gathered

    abbrev portion_size : ℕ → Framer → ℕ
    portion_size off f = min (size - off) (max_payload config - length f.gathered.pending)

    abbrev with_portion : ℕ → Framer → W → W
    with_portion off f w = push w act_data none (some (drop off bytes)) (portion_size off f)

    portion-R :
        (off : ℕ) (f : Framer) (w : W)
        → R w f.gathered
        → off < size
        → length f.gathered.pending < max_payload config
        → R (with_portion off f w) (filled off f).gathered
    portion-R off f w r more room =
        follows.takes_payload w f.gathered (drop off bytes) (portion_size off f) r
          (omega (arith, length-drop off bytes)) (omega arith)

    pub sizes :
        (off : ℕ) (f : Framer)
        → off < size
        → length f.gathered.pending < max_payload config
        → (take_size (max_payload config) size off (length f.gathered.pending) ≡ portion_size off f)
          × (length (filled off f).gathered.pending
              ≡ length f.gathered.pending + portion_size off f)
          × (u16 (length f.gathered.pending + portion_size off f)
              ≡ length f.gathered.pending + portion_size off f)
          × (length f.gathered.pending + portion_size off f ≤ max_payload config)
    sizes off f more room = (
      take_size_lem (max_payload config) size off (length f.gathered.pending) more fits
          (max_payload-lt config) (omega arith),
      omega (
        arith,
        length-append f.gathered.pending (portion off f),
        length-round_bytes config pos bytes size held fits off f more,
      ),
      omega (arith, max_payload-lt config),
      omega arith,
    )

    feed_round_lem :
        (off : ℕ) (f : Framer) (w : W)
        → R w f.gathered
        → off < size
        → length f.gathered.pending < max_payload config
        → Round off f w
    unfolding feed_round tx_prepare
    feed_round_lem off f w r more room =
        elim (Bool-cases (length (filled off f).gathered.pending == max_payload config)) [
          | inl full ↦ (
            push (with_portion off f w) act_data (some (full_header f)) none 0,
            ground (arith, sizes off f more room, ==→eq _ _ full),
            subst (R (push (with_portion off f w) act_data (some (full_header f)) none 0))
                (cut_full (filled off f) full)
                (follows.takes_header (with_portion off f w) (filled off f).gathered act_data
                  (full_header f) (portion-R off f w r more room)
                  (omega (arith, sizes off f more room))),
          )
          | inr part ↦ (
            with_portion off f w,
            ground (arith, sizes off f more room),
            subst (R (with_portion off f w)) (stays (filled off f) part)
                (portion-R off f w r more room),
          )
        ]

    abbrev poured : ℕ → Framer → Framer
    poured off f = foldl (put_byte config) f (portion off f)

    pub feed_round-poured :
        (off : ℕ) (f : Framer) (w : W)
        → R w f.gathered
        → off < size
        → length f.gathered.pending < max_payload config
        → (w' : W) × (feed_round (max_payload config) bytes size off (stream_with f w)
            ≡ stream_with (poured off f) w')
          × R w' (poured off f).gathered
    feed_round-poured off f w r more room =
        let (w', rounds, r') = feed_round_lem off f w r more room in
        let same : poured off f ≡ emit_full config (filled off f) =
          put-nonempty config f (portion off f)
            (omega (arith, length-round_bytes config pos bytes size held fits off f more))
            (omega (arith, length-round_bytes config pos bytes size held fits off f more)) in
        subst
          (λ g.
            (v : W) × (feed_round (max_payload config) bytes size off (stream_with f w)
              ≡ stream_with g v)
            × R v g.gathered)
          (sym same) (w', rounds, r')
