-- ===== src/Embedded/Decode/Package.antt =====
-- What the embedded decoder makes of the frames of a package.
use mathlib.Core.Path.{subst}
use native.Mathlib.Nat.{mul-le-mul_right}
use master_pilot_custom_data.Base.{
  ℕ, ◌+◌, ◌*◌, ◌≤◌, ◌<◌, ◌^◌, Bool, true, false, Option, none, some, List, [], ◌∷◌, ◌++◌, ◌≡◌, refl,
  arith, ap, ◌∙◌, sym, length, take, ◌>>=◌,
}
use master_pilot_custom_data.Header.{header_size}
use master_pilot_custom_data.Coordinate.{Coordinate, max_payload}
use master_pilot_custom_data.Coordinate.Laws.{offset_exact}
use master_pilot_custom_data.Tx.Laws.{slot_header}
use master_pilot_custom_data.Rx.{SliceState, SliceInst, zero_state, header_to_coordinate}
use master_pilot_custom_data.Rx.Received.{Received, with_slice, nothing}
use master_pilot_custom_data.Rx.Package.{Shape, IsShape, total, size_of, eop_of, zero_state-Waits}
use master_pilot_custom_data.Rx.Step.{step}
use master_pilot_custom_data.RxStream.{after_step}
use master_pilot_custom_data.RxStream.Frame.{feed-frame}
use master_pilot_custom_data.RxStream.Arrivals.{slice_frame, AllWithin}
use master_pilot_custom_data.RxStream.Complete.{OnlyMissing}
use master_pilot_custom_data.RxStream.Course.{
  feed_each, Returns, Receives, course, under_way, missing-take, AllWithin-take,
}
use master_pilot_custom_data.Tools.Rx.Delivery.{part_of}
use master_pilot_custom_data.Embedded.Decode.{
  PbDecoder, DecoderInst, Reader, pb_coordinator, decoder_stream, decoded, pb_decode_init,
  pb_decode_feed,
}
use master_pilot_custom_data.Embedded.Decode.Pull.{Within, run_list}
use master_pilot_custom_data.Embedded.Decode.Events.{
  Memory, Stores, at_first, Stored, kept, Puts, put-Stored, later-told, grows-told, whole-told,
}

-- An instance and what the last call returned.
abbrev pub Called : Type 0 → Type 0
Called U = DecoderInst U × Bool

-- The end: a message reaches the user's callback, or the decoding fails.
abbrev pub reported : {U M : Type 0} → PbDecoder U M → U → Option M → Called U
reported decoder u none = (record { state = zero_state; last_decode_ok = false; outer = u }, false)
reported decoder u (some msg) =
    (record { state = zero_state; last_decode_ok = true; outer = decoder.on_message u msg }, true)

module _ {U M : Type 0} (decoder : PbDecoder U M) (mem : Memory decoder) (pb_decode : ℕ → Reader M)
    (sh : Shape) (good : IsShape sh) (bytes : List ℕ) (filled : length bytes ≡ total sh)
    (modest : Within (total sh) (pb_decode (total sh))) (sender pkg frame_size : ℕ)
    (rest : ℕ → List ℕ) (rest_long : (i : ℕ) → i ≤ sh.last → size_of sh i ≤ length (rest i))
    (rest_content : (i : ℕ) → i ≤ sh.last → take (size_of sh i) (rest i) ≡ part_of sh.p bytes i)
    (small : sh.p < 2 ^ 12) (units : max_payload decoder.config ≡ sh.p) (pkg_fits : pkg < 2 ^ 8)
    (long : header_size ≤ frame_size) (u0 : U) where
  open sh use {p, last, tail}

  abbrev coord_of : ℕ → Coordinate
  coord_of i =
      header_to_coordinate decoder.config (slot_header sender pkg i (size_of sh i) (eop_of sh i))

  place_of : (i : ℕ) → i ≤ last → (coord_of i).offset ≡ i * p
  unfolding header_to_coordinate
  place_of i within = rw units (
      offset_exact i p
        (omega (arith, good, mul-le-mul_right {m = i} {n = last + 1} p (omega arith))))

  abbrev pub takes_frame : Called U → ℕ → Option (Called U)
  takes_frame (inst, ok) i =
      pb_decode_feed decoder pb_decode inst (slice_frame sh sender pkg rest i) frame_size

  abbrev returned : DecoderInst U → Called U
  returned inst = (inst, inst.last_decode_ok)

  -- The slices `got` are stored, and nothing is decoded.
  record Gathers (got : Received) (k : ℕ) (st : SliceState) (called : Called U) : Type 0 where
    at_state : called.0.state ≡ st
    quiet : called ≡ (called.0, true)
    fine : called.0.last_decode_ok ≡ true
    holds : Stored decoder mem pb_decode sh good bytes filled got called.0.outer
    stores : Stores decoder u0 called.0.outer

  abbrev pub Reports : Called U → Type 0
  Reports called =
      (u : U) × Stores decoder u0 u
      × (called ≡ reported decoder u (run_list (pb_decode (total sh)) bytes))

  -- After each of the first calls, which return true, only payload has been written.
  abbrev pub OnlyStores : Called U → List ℕ → Type 0
  OnlyStores start order =
      (n : ℕ)
      → Returns (feed_each takes_frame start (take n order))
          (λ (called : Called U). (called.1 ≡ true) × Stores decoder u0 called.0.outer)

  feed-step :
      (got : Received) (k i : ℕ) (st : SliceState) (called : Called U) (inst : SliceInst)
      → Gathers got k st called
      → i ≤ last
      → step sh st i ≡ some inst
      → takes_frame called i ≡ (
          after_step
            (decoder_stream decoder pb_decode called.0)
            (coord_of i)
            st.watermark
            (rest i)
            (size_of sh i)
            inst
          >>= (λ s. some (returned s.world)))
  unfolding pb_decode_feed decoder_stream pb_coordinator
  feed-step got k i st called inst gathers within steps =
      ap (λ r. r >>= (λ s. some (returned s.world)))
        (feed-frame sh good small (decoder_stream decoder pb_decode called.0) sender pkg i (rest i)
            frame_size units pkg_fits within long
          ∙ ap
              (λ s.
                step sh s i
                >>= after_step (decoder_stream decoder pb_decode called.0) (coord_of i) s.watermark
                    (rest i) (size_of sh i))
              gathers.at_state
          ∙ ap
              (λ r.
                r
                >>= after_step (decoder_stream decoder pb_decode called.0) (coord_of i) st.watermark
                    (rest i) (size_of sh i))
              steps)

  -- The instance with its payload stored, after `st'` is put.
  module _ (got : Received) (k i : ℕ) (st st' : SliceState) (called : Called U)
      (g : Gathers got k st called) (within : i ≤ last) where
    abbrev base : DecoderInst U
    base = let inst = called.0 in record inst { state = st' }

    abbrev filled_in : DecoderInst U
    filled_in =
        kept decoder mem pb_decode sh good bytes filled got u0 base (coord_of i) i (rest i) within
          (place_of i within) (rest_long i within) (rest_content i within) g.holds g.stores

    filling : Puts decoder mem pb_decode sh good bytes filled got u0 base i filled_in
    filling =
        put-Stored decoder mem pb_decode sh good bytes filled got u0 base (coord_of i) i (rest i)
          within (place_of i within) (rest_long i within) (rest_content i within) g.holds g.stores

    Gathers-filled_in : (k' : ℕ) → Gathers (with_slice got i) k' st' (returned filled_in)
    Gathers-filled_in k' =
        let (u, puts, holds', stores') = filling in
        let fine : filled_in.last_decode_ok ≡ true =
          ap (λ (d : DecoderInst U). d.last_decode_ok) puts ∙ g.fine in
        let outer : u ≡ filled_in.outer = sym (ap (λ (d : DecoderInst U). d.outer) puts) in
        record {
          at_state = ap (λ (d : DecoderInst U). d.state) puts;
          quiet = ap (λ b. (filled_in, b)) fine;
          fine = fine;
          holds =
              subst (Stored decoder mem pb_decode sh good bytes filled (with_slice got i)) outer
                holds';
          stores = subst (Stores decoder u0) outer stores';
        }

    -- `decoded` on the instance with its payload, by what `pb_decode` returned.
    Reports-decoded :
        st' ≡ zero_state
        → Reports
            (returned (decoded decoder pb_decode filled_in (run_list (pb_decode (total sh)) bytes)))
    Reports-decoded zeroed =
        let (u, puts, holds', stores') = filling in
        (
          u,
          stores',
          ending u (run_list (pb_decode (total sh)) bytes) (
              puts
              ∙ ap (λ s. record { state = s; last_decode_ok = called.0.last_decode_ok; outer = u })
                  zeroed),
        )
      where
        ending :
            (u : U) (result : Option M)
            → filled_in
              ≡ record { state = zero_state; last_decode_ok = called.0.last_decode_ok; outer = u }
            → returned (decoded decoder pb_decode filled_in result) ≡ reported decoder u result
        ending u none e = ap (λ (d : DecoderInst U). returned (decoded decoder pb_decode d none)) e
        ending u (some msg) e =
            ap (λ (d : DecoderInst U). returned (decoded decoder pb_decode d (some msg))) e

  -- What the stream and the feed do with the callback's result.
  abbrev passed_on : DecoderInst U → Option (DecoderInst U) → Option (Called U)
  passed_on inst told =
      told
      >>= (λ w. some (record (decoder_stream decoder pb_decode inst) { world = w }))
      >>= (λ s. some (returned s.world))

  receives : Receives sh takes_frame Gathers Reports
  unfolding after_step decoder_stream pb_coordinator
  receives = record {
    repeats = λ got k i st called g within steps. (
      called,
      feed-step got k i st called _ g within steps
          ∙ ap (λ b. some (called.0, b)) g.fine
          ∙ ap some (sym g.quiet),
      g,
    );
    keeps = λ got k i st next called g waits within steps waits'. (
      returned (filled_in got k i st next called g within),
      feed-step got k i st called _ g within steps
          ∙ ap (passed_on called.0) (
              later-told decoder mem pb_decode sh good bytes filled got u0
                (base got k i st next called g within) (coord_of i) i (rest i) within
                (place_of i within) (rest_long i within) (rest_content i within) g.holds g.stores
                next st.watermark),
      Gathers-filled_in got k i st next called g within k,
    );
    grows_to = λ got k k' i st next called g waits within further steps waits'. (
      returned (filled_in got k i st next called g within),
      feed-step got k i st called _ g within steps
          ∙ ap (passed_on called.0) (
              grows-told decoder mem pb_decode sh good bytes filled got u0
                (base got k i st next called g within) (coord_of i) i (rest i) within
                (place_of i within) (rest_long i within) (rest_content i within) g.holds g.stores
                next st.watermark),
      Gathers-filled_in got k i st next called g within k',
    );
    finishes = λ got k i st next called g waits within all steps at_end ends. (
      returned (
          decoded decoder pb_decode (filled_in got k i st zero_state called g within)
            (run_list (pb_decode (total sh)) bytes)),
      feed-step got k i st called _ g within steps
          ∙ ap (passed_on called.0) (
              whole-told decoder mem pb_decode sh good bytes filled got u0
                (base got k i st zero_state called g within) (coord_of i) i (rest i) within
                (place_of i within) (rest_long i within) (rest_content i within) g.holds g.stores
                next st.watermark units ends modest (λ m hm. all m (omega arith) (omega arith))),
      Reports-decoded got k i st zero_state called g within refl,
    );
  }

  initialised :
      total sh ≤ length (mem.memory u0)
      → Gathers nothing 0 zero_state (pb_decode_init decoder pb_decode u0, true)
  unfolding pb_decode_init
  initialised roomy = record {
    at_state = refl;
    quiet = refl;
    fine = refl;
    holds = record { roomy = roomy; held = λ m within seen. absurd (cc) };
    stores = at_first;
  }

  -- For a package that is not empty, has at most 256 slices, whose slots end below 2^16, and whose
  -- slices have fewer than 2^12 bytes of payload, payload callbacks over an array with room for
  -- it, a decoder that asks for no more bytes than are left, and frames that carry the slices:
  -- from the initialised instance, on all slices but one, in any order and with repetitions, and
  -- then the missing one, every call returns. After each of the calls before the last, which
  -- return true, only payload has been written; at the last, the decoder runs on the bytes of the
  -- package, and the message goes to the message callback, once, and the call returns true, or the
  -- decoder fails and the call returns false. The state is zeroed.
  pub decode-package :
      (order : List ℕ) (i : ℕ)
      → total sh ≤ length (mem.memory u0)
      → AllWithin last order
      → i ≤ last
      → OnlyMissing last order i
      → OnlyStores (pb_decode_init decoder pb_decode u0, true) order
        × Returns
            (feed_each takes_frame (pb_decode_init decoder pb_decode u0, true) (order ++ i ∷ []))
            Reports
  decode-package order i roomy inside within only = (
    (λ n.
        let (called, goes, (k, st, g)) =
          under_way sh good takes_frame Gathers Reports receives (take n order) i
            (AllWithin-take last n order inside) within nothing 0 zero_state
            (pb_decode_init decoder pb_decode u0, true) (zero_state-Waits sh) (initialised roomy)
            (missing-take n order nothing i only.0) in
        (called, goes, (ap (λ (c : Called U). c.1) g.quiet, g.stores))),
    course sh good takes_frame Gathers Reports receives order i inside within nothing 0 zero_state
        (pb_decode_init decoder pb_decode u0, true) (zero_state-Waits sh) (initialised roomy) only,
  )
