-- ===== src/Embedded/Decode.antt =====
-- The embedded decoder, src/embedded/customdata-embedded-decode.h and customdata-embedded-decode.c.
-- `pb_decode` of nanopb is a parameter: a program that reads from its input stream.
pub mod Pull
pub mod Events
pub mod Package
use master_pilot_custom_data.Base.{
  ℕ, zero, suc, ◌+◌, ◌-◌, Bool, true, false, Option, none, some, List, [], ◌++◌, ltb, leb, ◌==◌,
  if◌then◌else◌, ◌>>=◌, take, drop, u16, u32, sub32,
}
use master_pilot_custom_data.Coordinate.{
  Config, Coordinate, max_payload, offset_to_slice_idx, slice_idx_to_offset,
}
use master_pilot_custom_data.Rx.{
  SliceState, StreamEvent, duplicate, new_slice_out_of_order, new_slice_in_order, complete,
  zero_state,
}
use master_pilot_custom_data.RxStream.{RxStream, RxCoordinator, rx_stream_feed}

-- What a decoder does with its input: it ends, with a message or with an error, or it asks for
-- `count` bytes and goes on with them.
pub data Reader (Message : Type 0) : Type 0 where
  ends : Option Message → Reader Message
  reads : (count : ℕ) → (List ℕ → Reader Message) → Reader Message

-- `mp_pb_slice_pull_t`, without its pointer to the coordinator.
pub record SlicePull : Type 0 where
  pub base_coord : Coordinate
  pub termination : ℕ
  pub max_payload : ℕ
  pub consumed : ℕ

module _ {W : Type 0} (store : RxCoordinator W) (w : W) where
  -- The bytes of one round: from where the stream stands to the end of the slice, of the package or
  -- of the request.
  unfoldable pub pull_take : SlicePull → ℕ → ℕ
  pull_take st count =
      let slice_off =
        slice_idx_to_offset (offset_to_slice_idx (u16 st.consumed) st.max_payload) st.max_payload in
      let avail = sub32 st.termination st.consumed in
      let chunk = sub32 st.max_payload (sub32 st.consumed slice_off) in
      let chunk' = if ltb avail chunk then avail else chunk in
      if ltb (u32 count) chunk' then u32 count else chunk'

  unfoldable pub pull_bytes : SlicePull → ℕ → List ℕ
  pull_bytes st n =
      let slice_off =
        slice_idx_to_offset (offset_to_slice_idx (u16 st.consumed) st.max_payload) st.max_payload in
      let coord = st.base_coord in
      let src = store.payload_get w (record coord { offset = slice_off }) in
      take n (drop (sub32 st.consumed slice_off) src)

  -- `while (count > 0)` of `mp_pb_slice_pull_callback`, on fuel: the bytes put into `buf`, and the
  -- stream after them.
  unfoldable pub pull_loop : ℕ → SlicePull → ℕ → Option (List ℕ × SlicePull)
  pull_loop zero st count = none
  pull_loop (suc fuel) st count =
      let n = pull_take st count in
      let st' = record st { consumed = u32 (st.consumed + n) } in
      let more = do
        (bytes, st'') ← pull_loop fuel st' (count - n)
        some (pull_bytes st n ++ bytes, st'')
      in let result =
          if leb st'.termination st'.consumed then some (pull_bytes st n, st') else more in
        if count == 0 then some ([], st) else result

  -- `mp_pb_slice_pull_callback`. A round takes a byte at least, or is the last.
  unfoldable pub slice_pull_callback : SlicePull → ℕ → Option (List ℕ × SlicePull)
  slice_pull_callback st count = pull_loop (suc count) st count

  -- The decoder on the stream: the outer `none` is a callback that does not return.
  unfoldable pub run_reader : {M : Type 0} → Reader M → SlicePull → Option (Option M)
  run_reader (ends result) st = some result
  run_reader (reads count next) st =
      slice_pull_callback st count >>= (λ (bytes, st'). run_reader (next bytes) st')

-- `mp_pb_slice_istream_init`.
unfoldable pub slice_istream_init : Coordinate → (termination max_payload : ℕ) → SlicePull
slice_istream_init base_coord termination max_payload = record {
  base_coord = base_coord;
  termination = termination;
  max_payload = max_payload;
  consumed = 0;
}

-- What the decoder is built from: `mp_pb_decoder_inst_t` and `mp_pb_output_config_t` without what
-- changes. `U` is what the user's callbacks reach.
pub record PbDecoder (U M : Type 0) : Type 0 where
  pub config : Config
  pub payload_put : U → Coordinate → List ℕ → ℕ → U
  pub payload_get : U → Coordinate → List ℕ
  pub on_message : U → M → U

-- What changes of an instance.
pub record DecoderInst (U : Type 0) : Type 0 where
  pub state : SliceState
  pub last_decode_ok : Bool
  pub outer : U

module _ {U M : Type 0} (decoder : PbDecoder U M) (pb_decode : (bytes_left : ℕ) → Reader M) where
  unfoldable pub pb_coordinator : RxCoordinator (DecoderInst U)
  pb_coordinator = record {
    state_get = λ inst coord. inst.state;
    state_put = λ inst coord state. record inst { state = state };
    payload_put = λ inst coord bytes size. record inst {
      outer = decoder.payload_put inst.outer coord bytes size;
    };
    payload_get = λ inst coord. decoder.payload_get inst.outer coord;
  }

  -- What follows `pb_decode`.
  abbrev pub decoded : DecoderInst U → Option M → DecoderInst U
  decoded inst none = record inst { last_decode_ok = false }
  decoded inst (some msg) = record inst {
    outer = decoder.on_message inst.outer msg;
    last_decode_ok = true;
  }

  -- `mp_pb_on_event`.
  unfoldable pub pb_on_event :
      DecoderInst U
      → StreamEvent
      → Coordinate
      → RxCoordinator (DecoderInst U)
      → SliceState
      → (old_watermark : ℕ) → (payload : List ℕ) → (payload_size : ℕ) → Option (DecoderInst U)
  pb_on_event inst e coord store state old_watermark payload payload_size =
      let inst' =
        if ltb 0 payload_size then store.payload_put inst coord payload payload_size else inst in
      let pull = slice_istream_init coord state.termination (max_payload decoder.config) in
      let decoding =
        run_reader store inst' (pb_decode state.termination) pull
        >>= (λ result. some (decoded inst' result)) in
      elim e [ complete ↦ decoding | _ ↦ some inst' ]

  -- The instance's stream, as `mp_pb_decode_init` builds it.
  unfoldable pub decoder_stream : DecoderInst U → RxStream (DecoderInst U)
  decoder_stream inst = record {
    config = decoder.config;
    coordinator = pb_coordinator;
    on_event = pb_on_event;
    world = inst;
  }

  -- `mp_pb_decode_init`.
  unfoldable pub pb_decode_init : U → DecoderInst U
  pb_decode_init outer = record { state = zero_state; last_decode_ok = true; outer = outer }

  -- `mp_pb_decode_feed`: the instance, and the result.
  unfoldable pub pb_decode_feed : DecoderInst U → List ℕ → ℕ → Option (DecoderInst U × Bool)
  unfolding decoder_stream
  pb_decode_feed inst block size = do
    stream ← rx_stream_feed (decoder_stream inst) block size
    let inst' = stream.world
    some (inst', inst'.last_decode_ok)
