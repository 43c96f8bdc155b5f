-- ===== src/Embedded/Encode/Packages.antt =====
-- What the embedded encoder sends for a message.
use mathlib.Core.List.{flatten}
use mathlib.Core.Path.{subst, fun_ext}
use master_pilot_custom_data.Base.{
  ℕ, ◌*◌, ◌<◌, ◌^◌, Bool, true, false, ◌&&◌, not, some, List, [], ◌∷◌, ◌≡◌, refl, arith, ap, ◌∙◌,
  sym, ◌==◌, length, ◌>>=◌, >>=-through, u16, ==→eq, Bool-cases, inl, inr,
}
use master_pilot_custom_data.Coordinate.{max_payload}
use master_pilot_custom_data.Coordinate.Laws.{max_payload_lem}
use master_pilot_custom_data.TxStream.{TxStream, tx_stream_feed, feed_loop}
use master_pilot_custom_data.TxStream.Framer.{Slice}
use master_pilot_custom_data.TxStream.Simulation.{send_with}
use master_pilot_custom_data.TxStream.Package.{
  feed_all, send, AreBuffers, Packaged, framer-Packaged, opening,
}
use master_pilot_custom_data.Tools.Tx.Sink.{AreFrames, no_frames}
use master_pilot_custom_data.Embedded.Encode.{
  PbEncoder, Pipeline, tx_push_pipeline, pb_ostream_pipeline, encoder_stream, all_empty,
  pb_encode_message,
}
use master_pilot_custom_data.Embedded.Encode.Device.{Device, Mirrors, pipeline-Follows}

module _ {W : Type 0} (encoder : PbEncoder W) where
  -- Each buffer goes to the stream whole.
  pipeline-feed_all :
      (bufs : List (List ℕ)) (s : TxStream (Pipeline W))
      → AreBuffers bufs
      → pb_ostream_pipeline encoder s bufs ≡ feed_all s bufs
  unfolding pb_ostream_pipeline feed_all
  pipeline-feed_all [] s fit = refl
  pipeline-feed_all (b ∷ bufs) s fit =
      let count : u16 (length b) ≡ length b = omega (arith, fit.0) in
      ap (λ n. tx_stream_feed s b n >>= (λ s'. pb_ostream_pipeline encoder s' bufs)) count
      ∙ ap (λ f. tx_stream_feed s b (length b) >>= f)
          (fun_ext λ s'. pipeline-feed_all bufs s' fit.1)

  never_ends : (ok : Bool) → (ok && not true) ≡ false
  never_ends true = refl
  never_ends false = refl

  feed-empty : (s : TxStream (Pipeline W)) (bytes : List ℕ) → tx_stream_feed s bytes 0 ≡ some s
  unfolding tx_stream_feed feed_loop
  feed-empty s bytes = ground arith

  pipeline-empty :
      (bufs : List (List ℕ)) (s : TxStream (Pipeline W))
      → all_empty encoder bufs ≡ true
      → pb_ostream_pipeline encoder s bufs ≡ some s
  unfolding pb_ostream_pipeline
  pipeline-empty [] s e = refl
  pipeline-empty (b ∷ bufs) s e = elim (Bool-cases (length b == 0)) [
    | inr some_bytes ↦
        let false_all : all_empty encoder (b ∷ bufs) ≡ false =
          ap (λ c. c && all_empty encoder bufs) some_bytes in
        absurd (cc)
    | inl none_there ↦
        let rest : all_empty encoder bufs ≡ true =
          ap (λ c. c && all_empty encoder bufs) (sym none_there) ∙ e in
        let count : u16 (length b) ≡ 0 = omega (arith, ==→eq (length b) 0 none_there) in
        ap (λ n. tx_stream_feed s b n >>= (λ s'. pb_ostream_pipeline encoder s' bufs)) count
        ∙ ap (λ r. r >>= (λ s'. pb_ostream_pipeline encoder s' bufs)) (feed-empty s b)
        ∙ pipeline-empty bufs s rest
  ]

  module _ {Message : Type 0} (pb_encode : Message → Bool × List (List ℕ)) where
    abbrev bufs_of : Message → List (List ℕ)
    bufs_of message = (pb_encode message).1

    -- A message for which pb_encode hands on no byte sends nothing: the device is as before, and
    -- the result is that of pb_encode.
    pub encode-empty :
        (user : W) (message : Message) (package_serial : ℕ)
        → all_empty encoder (bufs_of message) ≡ true
        → pb_encode_message encoder pb_encode user message package_serial
          ≡ some ((pb_encode message).0, user)
    unfolding pb_encode_message encoder_stream
    encode-empty user message package_serial e =
        rw
          (
            pipeline-empty (bufs_of message) (encoder_stream encoder user package_serial) e,
            e,
            never_ends (pb_encode message).0,
          )
          refl

    abbrev begun : W → (package_serial offset : ℕ) → TxStream (Pipeline W)
    begun user package_serial offset = record {
      config = encoder.config;
      cursor = record {
        sender_id = encoder.sender_id;
        package_id = package_serial;
        offset = offset;
      };
      fill = 0;
      downstream = record {
        push = tx_push_pipeline encoder;
        user = record { user = user; accumulated = 0 };
      };
    }

    -- A message that is encoded, with at least a byte, is a package that is sent whole.
    encode-send :
        (user : W) (message : Message) (package_serial : ℕ)
        → (pb_encode message).0 ≡ true
        → all_empty encoder (bufs_of message) ≡ false
        → AreBuffers (bufs_of message)
        → pb_encode_message encoder pb_encode user message package_serial ≡ (
            send (begun user package_serial 0) (bufs_of message)
            >>= (λ s. some (true, s.downstream.user.user)))
    unfolding pb_encode_message encoder_stream send
    encode-send user message package_serial ok some_bytes fit =
        rw (pipeline-feed_all (bufs_of message) (begun user package_serial 0) fit, ok, some_bytes)
          (>>=-through (feed_all (begun user package_serial 0) (bufs_of message)) _ _ _ (λ s. refl))

    -- For a transmission unit from 5 to 2^16 - 1, a device that keeps a block of its size,
    -- writes to it in place and sends all of it on the signal, and has sent nothing so far: a
    -- message that pb_encode encodes into fewer than 2^16 bytes, at least one, which fit 256
    -- slices, in any buffers, is encoded with success, and the device has sent the frames of the
    -- slices of the package that holds these bytes.
    pub encode-Packaged :
        (device : Device encoder) (user : W) (message : Message) (package_serial : ℕ)
        → 4 < encoder.config.transmission_unit
        → encoder.config.transmission_unit < 2 ^ 16
        → (pb_encode message).0 ≡ true
        → all_empty encoder (bufs_of message) ≡ false
        → AreBuffers (bufs_of message)
        → length (flatten (bufs_of message)) < 2 ^ 16
        → length (flatten (bufs_of message)) < 2 ^ 8 * max_payload encoder.config
        → device.sent user ≡ []
        → (slices : List Slice) × (user' : W) × Packaged
            (max_payload encoder.config)
            encoder.sender_id
            package_serial
            0
            (flatten (bufs_of message))
            slices
          × (pb_encode_message encoder pb_encode user message package_serial ≡ some (true, user'))
          × AreFrames encoder.config.transmission_unit slices (device.sent user')
    encode-Packaged device user message package_serial more word ok some_bytes fit short few
          silent =
        let config = encoder.config in
        let bufs = bufs_of message in
        let pos : 0 < max_payload config =
          omega (arith, max_payload_lem config (omega arith) word) in
        let f = opening config encoder.sender_id package_serial in
        let first : 0 ≡ 0 * max_payload config = omega arith in
        let begins : Mirrors encoder device (record { user = user; accumulated = 0 }) f.gathered =
          record {
            filled = refl;
            holds = refl;
            wrote = subst (AreFrames config.transmission_unit []) (sym silent) no_frames;
          } in
        let (sink, sends, mirrors) =
          send_with config (tx_push_pipeline encoder) (Mirrors encoder device)
            (pipeline-Follows encoder device (omega arith) word) pos bufs f
            (record { user = user; accumulated = 0 }) begins pos fit in
        let (slices, packaged, sent) =
          framer-Packaged config pos encoder.sender_id package_serial (flatten bufs) 0 [] [] pos
            (omega arith) (omega arith) in
        (
          slices,
          sink.user,
          packaged,
          encode-send user message package_serial ok some_bytes fit
              ∙ ap (λ r. r >>= (λ s. some (true, s.downstream.user.user)))
                  (ap (λ o. send (begun user package_serial o) bufs) first ∙ sends),
          subst (λ g. AreFrames config.transmission_unit g.sent (device.sent sink.user)) sent
              mirrors.wrote,
        )
