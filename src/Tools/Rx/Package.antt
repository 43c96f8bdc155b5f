-- ===== src/Tools/Rx/Package.antt =====
-- What the rx command writes for the frames of a package.
use mathlib.Core.Path.{subst}
use master_pilot_custom_data.Base.{
  ℕ, zero, suc, ◌+◌, ◌-◌, ◌*◌, ◌≤◌, ◌<◌, ◌^◌, true, false, Option, some, List, [], ◌∷◌, ◌++◌, foldl,
  ◌≡◌, ◌≢◌, refl, arith, ap, ◌∙◌, sym, length, take, drop, take_all, ◌>>=◌, leb, length-append,
  take-append, drop-past,
}
use master_pilot_custom_data.Header.{header_size}
use master_pilot_custom_data.Coordinate.{max_payload}
use master_pilot_custom_data.Rx.{SliceState, zero_state}
use master_pilot_custom_data.Rx.Received.{Received, with_slice, nothing}
use master_pilot_custom_data.Rx.Package.{
  Shape, IsShape, Waits, total, data_slices, zero_state-Waits,
}
use master_pilot_custom_data.Rx.Step.{step, Outcome, step-Outcome, again, later, grows, whole}
use master_pilot_custom_data.RxStream.{RxStream, rx_stream_feed}
use master_pilot_custom_data.RxStream.Arrivals.{
  slice_frame, AllWithin, with_slice-seen, missing_before,
}
use master_pilot_custom_data.RxStream.Complete.{OnlyMissing}
use master_pilot_custom_data.Tools.Session.{RxSession}
use master_pilot_custom_data.Tools.Rx.{RxCtx, rx_loop, cmd_rx, rx_stream_of}
use master_pilot_custom_data.Tools.Rx.Delivery.{Takes}
use master_pilot_custom_data.Tools.Rx.Slices.{
  at, AreRests, Gathers, feed-later, feed-grows, feed-whole, feed-again,
}
use master_pilot_custom_data.Tools.Rx.Spans.{Span-none, Span-gap, Span-end}

module _ (sh : Shape) (good : IsShape sh) (bytes : List ℕ) (filled : length bytes ≡ total sh)
    (writes : ℕ → ℕ → Option ℕ) (takes : Takes writes) (tu sender pkg : ℕ) (rest : ℕ → List ℕ)
    (rests : AreRests sh good bytes filled writes takes tu rest) (small : sh.p < 2 ^ 12)
    (units : max_payload (record { transmission_unit = tu }) ≡ sh.p) (pkg_fits : pkg < 2 ^ 8)
    (long : header_size ≤ tu)
    (exact : (i : ℕ) → i ≤ sh.last → length (slice_frame sh sender pkg rest i) ≡ tu) where
  open sh use {p, last, tail}

  abbrev stream : RxCtx → RxStream RxCtx
  stream c = at sh good bytes filled writes takes tu c

  abbrev Has : Received → ℕ → SliceState → RxCtx → Type 0
  Has got k st c = Gathers sh good bytes filled writes takes tu got k st c

  abbrev takes_frame : RxCtx → ℕ → Option (RxStream RxCtx)
  takes_frame c i = rx_stream_feed (stream c) (slice_frame sh sender pkg rest i) tu

  -- The frames of the slices `order`, as they come in.
  abbrev pub input : List ℕ → List ℕ
  input [] = []
  input (i ∷ order) = slice_frame sh sender pkg rest i ++ input order

  -- The command takes the first block off its input.
  rx_loop-frame :
      (fuel i : ℕ) (c : RxCtx) (more : List ℕ)
      → i ≤ last
      → rx_loop writes (suc fuel) (stream c) tu (slice_frame sh sender pkg rest i ++ more)
        ≡ (takes_frame c i >>= (λ s. rx_loop writes fuel s tu more))
  unfolding rx_loop
  rx_loop-frame fuel i c more within =
      let frame = slice_frame sh sender pkg rest i in
      let size : length frame ≡ tu = exact i within in
      let enough : leb tu (length (frame ++ more)) ≡ true =
        ground (arith, length-append frame more, size) in
      let front : take tu (frame ++ more) ≡ frame =
        ap (λ n. take n (frame ++ more)) (sym size) ∙ take-append frame more in
      let none_left : tu - length frame ≡ 0 = omega (arith, size) in
      let rest_of : drop tu (frame ++ more) ≡ more =
        drop-past tu frame more (omega (arith, size)) ∙ ap (λ n. drop n more) none_left in
      rw (enough, front, rest_of) refl

  rx_loop-end :
      (fuel : ℕ) (c : RxCtx) → rx_loop writes (suc fuel) (stream c) tu [] ≡ some (stream c)
  unfolding rx_loop
  rx_loop-end fuel c = ground (arith, long)

  -- The loop ends: the bytes are out, each once and in order, and the state is zeroed.
  abbrev pub Ends : Option (RxStream RxCtx) → Type 0
  Ends result =
      (c : RxCtx) × (result ≡ some (stream c))
      × (c.written ≡ bytes)
      × (c.session.state ≡ zero_state)
      × (c.fault ≡ false)

  -- Of the slices, only `i` is missing after `order`.
  abbrev Only : Received → List ℕ → ℕ → Type 0
  Only got order i =
      (foldl with_slice got order i ≡ false)
      × ((m : ℕ) → m ≤ last → m ≢ i → foldl with_slice got order m ≡ true)

  -- From any state, the rest of the order and then the missing slice complete the package.
  abbrev Completes : List ℕ → ℕ → Type 0
  Completes order i =
      (got : Received) (k : ℕ) (st : SliceState) (c : RxCtx) (fuel : ℕ)
      → Waits sh got k st
      → Has got k st c
      → Only got order i
      → length order + 1 < fuel
      → Ends (rx_loop writes fuel (stream c) tu (input (order ++ i ∷ [])))

  Ends-frame :
      (fuel i : ℕ) (c c' : RxCtx) (more : List ℕ)
      → i ≤ last
      → takes_frame c i ≡ some (stream c')
      → Ends (rx_loop writes fuel (stream c') tu more)
      → Ends (rx_loop writes (suc fuel) (stream c) tu (slice_frame sh sender pkg rest i ++ more))
  Ends-frame fuel i c c' more within feeds (c'', goes, bytes_out, zeroed, safe) = (
    c'',
    rx_loop-frame fuel i c more within
        ∙ ap (λ r. r >>= (λ s. rx_loop writes fuel s tu more)) feeds
        ∙ goes,
    bytes_out,
    zeroed,
    safe,
  )

  all_bytes : take (data_slices sh * p) bytes ≡ bytes
  all_bytes = take_all (data_slices sh * p) bytes (ground (arith, filled, good))

  last_frame :
      (got : Received) (k : ℕ) (st : SliceState) (c : RxCtx) (fuel i : ℕ)
      → Waits sh got k st
      → Has got k st c
      → i ≤ last
      → Only got [] i
      → Outcome sh got k st i (step sh st i)
      → Ends (rx_loop writes (suc (suc fuel)) (stream c) tu (input (i ∷ [])))
  last_frame got k st c fuel i w has within only (again here steps) = absurd (cc (only.0))
  last_frame got k st c fuel i w has within only (later s' new behind steps w') =
      absurd (cc (w.missing, only.1 k w.gap_within (omega arith)))
  last_frame got k st c fuel i w has within only (grows k' s' fills above steps w') =
      let above_all : got k' ≡ true = only.1 k' w'.gap_within (omega arith) in
      absurd (ground (arith, w'.missing))
  last_frame got k st c fuel i w has within only (whole s' fills all steps at_end ends) =
      let (c', feeds, has') =
        feed-whole sh good bytes filled writes takes tu sender pkg rest rests small units pkg_fits
          long got k (data_slices sh) i st s' c has within w.at_gap
          (Span-end sh good bytes filled writes takes (with_slice got i) s'.watermark k at_end
            w.gap_within (λ m hm. all m (omega arith) (omega arith)))
          steps in
      Ends-frame (suc fuel) i c c' [] within feeds
        (c', rx_loop-end fuel c', has'.wrote ∙ all_bytes, has'.stored, has'.safe)

  next_frame :
      (order : List ℕ) (got : Received) (k : ℕ) (st : SliceState) (c : RxCtx) (fuel i j : ℕ)
      → Waits sh got k st
      → Has got k st c
      → j ≤ last
      → i ≤ last
      → Only got (j ∷ order) i
      → length order + 1 < fuel
      → Outcome sh got k st j (step sh st j)
      → Completes order i
      → Ends (rx_loop writes (suc fuel) (stream c) tu (input (j ∷ order ++ i ∷ [])))
  next_frame order got k st c fuel i j w has within hi only enough (again here steps) go =
      let same : with_slice got j ≡ got = with_slice-seen got j here in
      Ends-frame fuel j c c (input (order ++ i ∷ [])) within
        (feed-again sh good bytes filled writes takes tu sender pkg rest rests small units pkg_fits
          long got k j st c has within steps)
        (go got k st c fuel w has (subst (λ g. Only g order i) same only) enough)
  next_frame order got k st c fuel i j w has within hi only enough (later s' new behind steps w')
        go =
      let (c', feeds, has') =
        feed-later sh good bytes filled writes takes tu sender pkg rest rests small units pkg_fits
          long got k k j st s' c has within w.at_gap
          (Span-none sh good bytes filled writes takes (with_slice got j) s'.watermark k w'.at_gap
            w.gap_within)
          steps in
      Ends-frame fuel j c c' (input (order ++ i ∷ [])) within feeds
        (go (with_slice got j) k s' c' fuel w' has' only enough)
  next_frame order got k st c fuel i j w has within hi only enough
        (grows k' s' fills above steps w') go =
      let (c', feeds, has') =
        feed-grows sh good bytes filled writes takes tu sender pkg rest rests small units pkg_fits
          long got k k' j st s' c has within w.at_gap
          (Span-gap sh good bytes filled writes takes (with_slice got j) s'.watermark k k' w'.at_gap
            (omega arith) w'.gap_within (λ m to. w'.run m (omega arith) to))
          steps in
      Ends-frame fuel j c c' (input (order ++ i ∷ [])) within feeds
        (go (with_slice got j) k' s' c' fuel w' has' only enough)
  next_frame order got k st c fuel i j w has within hi only enough
        (whole s' fills all steps at_end ends) go =
      let missing : with_slice got j i ≡ false = missing_before order (with_slice got j) i only.0 in
      let here : with_slice got j i ≡ true = all i (omega arith) (omega arith) in absurd (cc)

  completes : (order : List ℕ) (i : ℕ) → AllWithin last order → i ≤ last → Completes order i
  completes [] i inside within got k st c zero w has only enough = absurd (omega arith)
  completes [] i inside within got k st c (suc zero) w has only enough = absurd (omega arith)
  completes [] i inside within got k st c (suc (suc fuel)) w has only enough =
      last_frame got k st c fuel i w has within only (step-Outcome sh good got k st w i within)
  completes (j ∷ order) i inside within got k st c zero w has only enough = absurd (omega arith)
  completes (j ∷ order) i inside within got k st c (suc fuel) w has only enough =
      next_frame order got k st c fuel i j w has inside.0 within only (omega arith)
        (step-Outcome sh good got k st w j inside.0) (completes order i inside.1 within)

  long_input :
      (order : List ℕ) (i : ℕ)
      → AllWithin last order
      → i ≤ last
      → length order + 1 ≤ length (input (order ++ i ∷ []))
  long_input [] i inside within =
      omega (arith, length-append (slice_frame sh sender pkg rest i) [], exact i within)
  long_input (j ∷ order) i inside within = omega (
    arith,
    length-append (slice_frame sh sender pkg rest j) (input (order ++ i ∷ [])),
    exact j inside.0,
    long_input order i inside.1 within,
  )

  -- A session that has received nothing.
  abbrev pub new_session : (magic : ℕ) → RxSession
  new_session magic = record { magic = magic; transmission_unit = tu; state = zero_state }

  abbrev loaded : (magic : ℕ) → List ℕ → RxCtx
  loaded magic assembly = record {
    session = new_session magic;
    assembly = assembly;
    written = [];
    calls = 0;
    fault = false;
  }

  loaded-Has :
      (magic : ℕ) (assembly : List ℕ)
      → total sh ≤ length assembly
      → Has nothing 0 zero_state (loaded magic assembly)
  loaded-Has magic assembly roomy =
      let first : 0 * p ≡ 0 = omega arith in
      record {
        stored = refl;
        unit = refl;
        holds = record { roomy = roomy; held = λ m within seen. absurd (cc) };
        wrote = ap (λ n. take n bytes) (sym first);
        safe = refl;
      }

  -- What the command has at its end.
  abbrev pub Writes : Option RxCtx → Type 0
  Writes result =
      (c : RxCtx) × (result ≡ some c)
      × (c.written ≡ bytes)
      × (c.session.state ≡ zero_state)
      × (c.fault ≡ false)

  -- For an output that takes something at each call, a package that is not empty, has at most 256
  -- slices, whose slots end below 2^16, and whose slices have fewer than 2^12 bytes of payload, a
  -- fresh session whose buffer has room for the package, and frames of the length of the
  -- transmission unit that carry its slices: on all slices but one, in any order and with
  -- repetitions, and then the missing one, the rx command ends, has written the bytes of the
  -- package, each once and in order, has made no access out of bounds, and saves a zeroed state.
  pub cmd_rx-bytes :
      (magic : ℕ) (assembly : List ℕ) (order : List ℕ) (i : ℕ)
      → total sh ≤ length assembly
      → AllWithin last order
      → i ≤ last
      → OnlyMissing last order i
      → Writes (cmd_rx writes (new_session magic, assembly) (input (order ++ i ∷ [])))
  unfolding cmd_rx rx_stream_of
  cmd_rx-bytes magic assembly order i roomy inside within only =
      let (c, goes, bytes_out, zeroed, safe) =
        completes order i inside within nothing 0 zero_state (loaded magic assembly)
          (suc (length (input (order ++ i ∷ [])))) (zero_state-Waits sh)
          (loaded-Has magic assembly roomy) only
          (omega (arith, long_input order i inside within)) in
      (c, ap (λ r. r >>= (λ s. some s.world)) goes, bytes_out, zeroed, safe)
