-- ===== src/Tools/Rx.antt =====
-- The `rx` command, src/tools/rx.c. `writes n count` is what the `n`-th `write` of `count` bytes to
-- the standard output returns, `none` for a negative result.
pub mod Delivery
pub mod Assembly
pub mod Event
pub mod Spans
pub mod Slices
pub mod Package
pub mod Kept
use master_pilot_custom_data.Base.{
  ℕ, zero, suc, ◌+◌, Bool, true, false, ◌||◌, Option, none, some, List, [], ◌++◌, ltb, leb, ◌==◌,
  if◌then◌else◌, ◌>>=◌, either_way, length, take, drop, overwrite, u16, u32, sub32,
}
use master_pilot_custom_data.Coordinate.{Config, Coordinate, max_payload}
use master_pilot_custom_data.Rx.{SliceState, StreamEvent, deliver_size}
use master_pilot_custom_data.RxStream.{RxStream, RxCoordinator, RxEventCb, rx_stream_feed}
use master_pilot_custom_data.Tools.Session.{RxSession}

-- `rx_ctx_t` with what it points at, and the output: its bytes and the calls made. `fault` marks an
-- access outside the assembly buffer or the frame, which C leaves undefined.
pub record RxCtx : Type 0 where
  pub session : RxSession
  pub assembly : List ℕ
  pub written : List ℕ
  pub calls : ℕ
  pub fault : Bool

unfoldable pub state_get : RxCtx → Coordinate → SliceState
state_get c coord = c.session.state

unfoldable pub state_put : RxCtx → Coordinate → SliceState → RxCtx
state_put c coord state =
    let session = c.session in record c { session = record session { state = state } }

unfoldable pub payload_put : RxCtx → Coordinate → List ℕ → ℕ → RxCtx
payload_put c coord bytes size = record c {
  assembly = overwrite c.assembly coord.offset (take size bytes);
  fault = c.fault || (ltb (length bytes) size || ltb (length c.assembly) (coord.offset + size));
}

unfoldable pub payload_get : RxCtx → Coordinate → List ℕ
payload_get c coord = drop coord.offset c.assembly

unfoldable pub coordinator : RxCoordinator RxCtx
coordinator = record {
  state_get = state_get;
  state_put = state_put;
  payload_put = payload_put;
  payload_get = payload_get;
}

module _ (writes : ℕ → ℕ → Option ℕ) where
  -- `while (rem > 0)`, on fuel. The result says whether all was written; after an error nothing
  -- more is.
  unfoldable pub write_loop : ℕ → RxCtx → List ℕ → ℕ → Option (Bool × RxCtx)
  write_loop zero c p rem = none
  write_loop (suc fuel) c p rem =
      let result =
        either_way (writes c.calls rem) (some (false, record c { calls = suc c.calls })) (λ n.
          write_loop fuel (record c { calls = suc c.calls; written = c.written ++ take n p })
            (drop n p) (sub32 rem n)) in
      if rem == 0 then some (true, c) else result

  -- `while (cur_off < state->watermark)`, on fuel.
  unfoldable pub deliver_loop :
      ℕ → RxCtx → RxCoordinator RxCtx → Coordinate → (watermark max_p cur_off : ℕ) → Option RxCtx
  deliver_loop zero c store coord watermark max_p cur_off = none
  deliver_loop (suc fuel) c store coord watermark max_p cur_off =
      let sz = deliver_size cur_off watermark max_p in
      let p = store.payload_get c (record coord { offset = u16 cur_off }) in
      let c' = record c { fault = c.fault || ltb (length p) sz } in
      let result = write_loop (suc sz) c' p sz >>= (λ (all, c'').
        if all
        then deliver_loop fuel c'' store coord watermark max_p (u32 (cur_off + max_p))
        else some c'') in
      if ltb cur_off watermark then result else some c

  -- `on_event`. Each round of the delivery goes a slice further, at least one byte.
  unfoldable pub on_event : RxEventCb RxCtx
  on_event c e coord store state old_watermark payload payload_size =
      let c' = if ltb 0 payload_size then store.payload_put c coord payload payload_size else c in
      let max_p = max_payload (record { transmission_unit = c.session.transmission_unit }) in
      let delivered =
        deliver_loop (suc state.watermark) c' store coord state.watermark max_p old_watermark in
      if ltb old_watermark state.watermark then delivered else some c'

  unfoldable pub rx_stream_of : RxCtx → RxStream RxCtx
  rx_stream_of c = record {
    config = record { transmission_unit = c.session.transmission_unit };
    coordinator = coordinator;
    on_event = on_event;
    world = c;
  }

  -- `for (;;)` over what is left of the input, on fuel: a last block that is not whole is dropped.
  unfoldable pub rx_loop : ℕ → RxStream RxCtx → (tu : ℕ) → List ℕ → Option (RxStream RxCtx)
  rx_loop zero stream tu input = none
  rx_loop (suc fuel) stream tu input =
      let result =
        rx_stream_feed stream (take tu input) tu >>= (λ s. rx_loop fuel s tu (drop tu input)) in
      if leb tu (length input) then result else some stream

  -- `cmd_rx`, from the loaded session on. With `tu = 0` the loop never ends.
  unfoldable pub cmd_rx : RxSession × List ℕ → List ℕ → Option RxCtx
  unfolding rx_stream_of
  cmd_rx (session, assembly) input = do
    stream ←
        rx_loop (suc (length input))
          (rx_stream_of (record {
            session = session;
            assembly = assembly;
            written = [];
            calls = 0;
            fault = false;
          }))
          session.transmission_unit input
    some stream.world
