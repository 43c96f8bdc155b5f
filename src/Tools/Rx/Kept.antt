-- ===== src/Tools/Rx/Kept.antt =====
-- What every run of the rx command keeps, whatever its input is.
use mathlib.Core.Path.{subst}
use master_pilot_custom_data.Base.{
  ℕ, zero, suc, ◌+◌, Bool, true, false, ◌||◌, not, Option, some, List, ◌++◌, ◌≡◌, refl, arith, ap,
  ◌∙◌, sym, ltb, leb, ◌==◌, if◌then◌else◌, ◌>>=◌, either_branch, either_way-end, on_some, >>=-end,
  length, take, drop, length-overwrite, length-take, u32, sub32, Bool-cases, inl, inr, ltb→le,
}
use master_pilot_custom_data.Header.{header_size, header_unpack, array_to_packed_header}
use master_pilot_custom_data.Coordinate.{Config, Coordinate, max_payload}
use master_pilot_custom_data.Rx.{
  SliceState, StreamEvent, calc_slice_step, header_to_coordinate, duplicate, new_slice_out_of_order,
  new_slice_in_order, complete,
}
use master_pilot_custom_data.Rx.Typed.{IsTyped, zero_state-IsTyped, calc_slice_step-IsTyped}
use master_pilot_custom_data.RxStream.{RxStream, persisted, after_step, rx_stream_feed}
use master_pilot_custom_data.Tools.Session.{RxSession}
use master_pilot_custom_data.Tools.Rx.{
  RxCtx, state_get, state_put, payload_put, coordinator, write_loop, deliver_loop, on_event,
  rx_stream_of, rx_loop, cmd_rx,
}

-- The session `s` with an assembly buffer of `room` bytes, up to the receive state.
pub record Keeps (s : RxSession) (room : ℕ) (c : RxCtx) : Type 0 where
  pub same_magic : c.session.magic ≡ s.magic
  pub same_unit : c.session.transmission_unit ≡ s.transmission_unit
  pub typed : IsTyped c.session.state
  pub same_room : c.fault ≡ false → length c.assembly ≡ room

no_fault : (a b : Bool) → (a || b) ≡ false → (a ≡ false) × (b ≡ false)
no_fault true b e = absurd (cc)
no_fault false b e = (refl, e)

module _ (s : RxSession) (room : ℕ) where
  put-Keeps :
      (c : RxCtx) (coord : Coordinate) (bytes : List ℕ) (size : ℕ)
      → Keeps s room c
      → Keeps s room (payload_put c coord bytes size)
  unfolding payload_put
  put-Keeps c coord bytes size k = record {
    same_magic = k.same_magic;
    same_unit = k.same_unit;
    typed = k.typed;
    same_room = λ safe.
        let (before, now) = no_fault c.fault _ safe in
        let (held, fits) = no_fault (ltb (length bytes) size) _ now in
        length-overwrite c.assembly coord.offset (take size bytes)
          (omega (arith, length-take size bytes, ltb→le _ _ fits))
        ∙ k.same_room before;
  }

  abbrev KeepsAt : Bool × RxCtx → Type 0
  KeepsAt r = Keeps s room r.1

  write_loop-Keeps :
      (writes : ℕ → ℕ → Option ℕ) (fuel : ℕ) (c : RxCtx) (p : List ℕ) (rem : ℕ) (r : Bool × RxCtx)
      → Keeps s room c
      → write_loop writes fuel c p rem ≡ some r
      → Keeps s room r.1
  unfolding write_loop
  write_loop-Keeps writes zero c p rem r k e = absurd (cc)
  write_loop-Keeps writes (suc fuel) c p rem r k e =
      either_branch KeepsAt (rem == 0) _ _ r (on_some KeepsAt _ r k)
        (either_way-end KeepsAt (writes c.calls rem) _ _ r
          (on_some KeepsAt _ r (record {
            same_magic = k.same_magic;
            same_unit = k.same_unit;
            typed = k.typed;
            same_room = k.same_room;
          }))
          (λ n.
            write_loop-Keeps writes fuel
              (record c { calls = suc c.calls; written = c.written ++ take n p }) (drop n p)
              (sub32 rem n) r
              (record {
                same_magic = k.same_magic;
                same_unit = k.same_unit;
                typed = k.typed;
                same_room = k.same_room;
              })))
        e

  -- A further fault asks no more of the rest.
  faulty-Keeps :
      (c : RxCtx) (b : Bool) → Keeps s room c → Keeps s room (record c { fault = c.fault || b })
  faulty-Keeps c b k = record {
    same_magic = k.same_magic;
    same_unit = k.same_unit;
    typed = k.typed;
    same_room = λ safe. k.same_room (no_fault c.fault b safe).0;
  }

  deliver_loop-Keeps :
      (writes : ℕ → ℕ → Option ℕ) (fuel : ℕ) (c : RxCtx) (coord : Coordinate) (watermark p off : ℕ)
      (c' : RxCtx)
      → Keeps s room c
      → deliver_loop writes fuel c coordinator coord watermark p off ≡ some c'
      → Keeps s room c'
  unfolding deliver_loop
  deliver_loop-Keeps writes zero c coord watermark p off c' k e = absurd (cc)
  deliver_loop-Keeps writes (suc fuel) c coord watermark p off c' k e =
      either_branch (Keeps s room) (ltb off watermark) _ _ c'
        (>>=-end (Keeps s room) _ _ c' (λ (all, c''). λ wrote.
          either_branch (Keeps s room) all _ _ c'
            (deliver_loop-Keeps writes fuel c'' coord watermark p (u32 (off + p)) c'
              (write_loop-Keeps writes _ _ _ _ (all, c'') (faulty-Keeps c _ k) wrote))
            (on_some (Keeps s room) c'' c'
              (write_loop-Keeps writes _ _ _ _ (all, c'') (faulty-Keeps c _ k) wrote))))
        (on_some (Keeps s room) c c' k) e

  on_event-Keeps :
      (writes : ℕ → ℕ → Option ℕ) (c : RxCtx) (ev : StreamEvent) (coord : Coordinate)
      (state : SliceState) (old : ℕ) (payload : List ℕ) (size : ℕ) (c' : RxCtx)
      → Keeps s room c
      → on_event writes c ev coord coordinator state old payload size ≡ some c'
      → Keeps s room c'
  unfolding on_event coordinator
  on_event-Keeps writes c ev coord state old payload size c' k e =
      let stored : Keeps s room (if ltb 0 size then payload_put c coord payload size else c) =
        elim (Bool-cases (ltb 0 size)) [
          | inl more ↦
              subst (λ b. Keeps s room (if b then payload_put c coord payload size else c))
                (sym more) (put-Keeps c coord payload size k)
          | inr empty ↦
              subst (λ b. Keeps s room (if b then payload_put c coord payload size else c))
                (sym empty) k
        ] in
      either_branch (Keeps s room) (ltb old state.watermark) _ _ c'
        (deliver_loop-Keeps writes _ _ coord state.watermark _ old c' stored)
        (on_some (Keeps s room) _ c' stored) e

  state_put-Keeps :
      (c : RxCtx) (coord : Coordinate) (st : SliceState)
      → IsTyped st
      → Keeps s room c
      → Keeps s room (state_put c coord st)
  unfolding state_put
  state_put-Keeps c coord st t k = record {
    same_magic = k.same_magic;
    same_unit = k.same_unit;
    typed = t;
    same_room = k.same_room;
  }

  -- The stream of the command, with what its callbacks reach.
  abbrev stream_with : (ℕ → ℕ → Option ℕ) → Config → RxCtx → RxStream RxCtx
  stream_with writes config c = record {
    config = config;
    coordinator = coordinator;
    on_event = on_event writes;
    world = c;
  }

  abbrev StreamKeeps : (ℕ → ℕ → Option ℕ) → Config → RxStream RxCtx → Type 0
  StreamKeeps writes config stream =
      (c : RxCtx) × (stream ≡ stream_with writes config c) × Keeps s room c

  persisted-IsTyped :
      (e : StreamEvent) (next : SliceState)
      → IsTyped next
      → IsTyped (persisted (record { e = e; next_state = next }))
  persisted-IsTyped duplicate next t = t
  persisted-IsTyped new_slice_out_of_order next t = t
  persisted-IsTyped new_slice_in_order next t = t
  persisted-IsTyped complete next t = zero_state-IsTyped

  module _ (writes : ℕ → ℕ → Option ℕ) (config : Config) where
    told-Keeps :
        (c : RxCtx) (e : StreamEvent) (coord : Coordinate) (next : SliceState) (old : ℕ)
        (payload : List ℕ) (size : ℕ) (stream : RxStream RxCtx)
        → IsTyped next
        → Keeps s room c
        → (on_event writes
              (state_put c coord (persisted (record { e = e; next_state = next })))
              e
              coord
              coordinator
              next
              old
              payload
              size
            >>= (λ w. some (stream_with writes config w)))
          ≡ some stream
        → StreamKeeps writes config stream
    told-Keeps c e coord next old payload size stream t k =
        >>=-end (StreamKeeps writes config) _ _ stream (λ w told.
          on_some (StreamKeeps writes config) (stream_with writes config w) stream (
            w,
            refl,
            on_event-Keeps writes _ e coord next old payload size w
                (state_put-Keeps c coord _ (persisted-IsTyped e next t) k) told,
          ))

    after_step-Keeps :
        (c : RxCtx) (coord : Coordinate) (old : ℕ) (payload : List ℕ) (size : ℕ) (e : StreamEvent)
        (next : SliceState) (stream : RxStream RxCtx)
        → IsTyped next
        → Keeps s room c
        → after_step
            (stream_with writes config c)
            coord
            old
            payload
            size
            (record { e = e; next_state = next })
          ≡ some stream
        → StreamKeeps writes config stream
    unfolding after_step coordinator
    after_step-Keeps c coord old payload size duplicate next stream t k =
        on_some (StreamKeeps writes config) _ stream (c, refl, k)
    after_step-Keeps c coord old payload size new_slice_out_of_order next stream t k =
        told-Keeps c new_slice_out_of_order coord next old payload size stream t k
    after_step-Keeps c coord old payload size new_slice_in_order next stream t k =
        told-Keeps c new_slice_in_order coord next old payload size stream t k
    after_step-Keeps c coord old payload size complete next stream t k =
        told-Keeps c complete coord next old payload size stream t k

    feed-Keeps :
        (c : RxCtx) (frame : List ℕ) (size : ℕ) (stream : RxStream RxCtx)
        → Keeps s room c
        → rx_stream_feed (stream_with writes config c) frame size ≡ some stream
        → StreamKeeps writes config stream
    unfolding rx_stream_feed coordinator state_get
    feed-Keeps c frame size stream k =
        let hdr = header_unpack (array_to_packed_header frame) in
        let coord = header_to_coordinate config hdr in
        let old = c.session.state in
        let payload = drop header_size frame in
        either_branch (StreamKeeps writes config) (ltb size header_size) _ _ stream
          (on_some (StreamKeeps writes config) (stream_with writes config c) stream (c, refl, k))
          (>>=-end (StreamKeeps writes config)
            (calc_slice_step old hdr.slice_serial hdr.slice_payload_size (max_payload config)
              (not (hdr.eop == 0)))
            (after_step (stream_with writes config c) coord old.watermark payload
              hdr.slice_payload_size)
            stream
            (λ inst steps.
              after_step-Keeps c coord old.watermark payload hdr.slice_payload_size inst.e
                inst.next_state stream
                (calc_slice_step-IsTyped old hdr.slice_serial hdr.slice_payload_size
                  (max_payload config) (not (hdr.eop == 0)) inst k.typed steps)
                k))

    rx_loop-Keeps :
        (fuel : ℕ) (c : RxCtx) (tu : ℕ) (input : List ℕ) (stream : RxStream RxCtx)
        → Keeps s room c
        → rx_loop writes fuel (stream_with writes config c) tu input ≡ some stream
        → StreamKeeps writes config stream
    unfolding rx_loop
    rx_loop-Keeps zero c tu input stream k e = absurd (cc)
    rx_loop-Keeps (suc fuel) c tu input stream k e =
        either_branch (StreamKeeps writes config) (leb tu (length input)) _ _ stream
          (>>=-end (StreamKeeps writes config) _ _ stream (λ mid fed goes_on.
            let (c', same, k') = feed-Keeps c (take tu input) tu mid k fed in
            rx_loop-Keeps fuel c' tu (drop tu input) stream k'
              (sym (ap (λ m. rx_loop writes fuel m tu (drop tu input)) same) ∙ goes_on)))
          (on_some (StreamKeeps writes config) _ stream (c, refl, k)) e

-- The result of any run keeps the session's magic number and transmission unit, a state within its C
-- types, and, unless the run has made an access out of bounds, the length of the buffer.
pub cmd_rx-Keeps :
    (writes : ℕ → ℕ → Option ℕ) (s : RxSession) (assembly input : List ℕ) (c : RxCtx)
    → IsTyped s.state
    → cmd_rx writes (s, assembly) input ≡ some c
    → Keeps s (length assembly) c
unfolding cmd_rx rx_stream_of
cmd_rx-Keeps writes s assembly input c t = >>=-end (Keeps s (length assembly)) _ _ c (λ stream runs.
    let (c', same, k) =
      rx_loop-Keeps s (length assembly) writes _ _ _ s.transmission_unit input stream
        (record { same_magic = refl; same_unit = refl; typed = t; same_room = λ safe. refl })
        runs in
    on_some (Keeps s (length assembly)) stream.world c
      (subst (λ (r : RxStream RxCtx). Keeps s (length assembly) r.world) (sym same) k))
