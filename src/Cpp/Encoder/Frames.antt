-- ===== src/Cpp/Encoder/Frames.antt =====
-- The size of the frames that the C++ sender's observer is given, whatever protobuf does.
use mathlib.Core.Path.{subst}
use master_pilot_custom_data.Base.{
  ℕ, ◌+◌, ◌-◌, ◌≤◌, Bool, true, false, List, ◌++◌, ◌≡◌, refl, arith, ap, ◌∙◌, sym, length, take,
  overwrite, length-append, length-overwrite, length-take, length-drop, if◌then◌else◌,
}
use master_pilot_custom_data.Header.{header_size, header_pack, packed_header_to_array}
use master_pilot_custom_data.Tx.{tx_prepare}
use master_pilot_custom_data.Cpp.Encoder.{
  Serialization, returns, next, back_up, OutputStream, commit_slice, commit_used, stream_next,
  fill_buffer, stream_back_up, finalize, serialize_to, TxEncoderCore, CoreState, open_stream, push,
}

module _ {V : Type 0} (observer : V → List ℕ → V) (P : V → Type 0) (n : ℕ)
    (keeps : (v : V) (frame : List ℕ) → length frame ≡ n → P v → P (observer v frame)) where
  record Sized (s : OutputStream V) : Type 0 where
    observes : s.observer ≡ observer
    header_room : length s.hdr_buf ≡ 4
    room : length s.hdr_buf + length s.payload_buf ≡ n
    holds : P s.outer

  commit-Sized :
      (s : OutputStream V) (eop : Bool) (size : ℕ) → Sized s → Sized (commit_slice s eop size)
  unfolding commit_slice packed_header_to_array
  commit-Sized s eop size i =
      let hdr = packed_header_to_array (header_pack (tx_prepare s.config s.cursor _ eop).header) in
      let four : length (overwrite s.hdr_buf 0 hdr) ≡ length s.hdr_buf =
        length-overwrite s.hdr_buf 0 hdr (omega (arith, i.header_room)) in
      let frame = overwrite s.hdr_buf 0 hdr ++ s.payload_buf in
      let long : length frame ≡ n =
        omega (arith, four, i.room, length-append (overwrite s.hdr_buf 0 hdr) s.payload_buf) in
      record {
        observes = i.observes;
        header_room = four ∙ i.header_room;
        room = ap (λ k. k + length s.payload_buf) four ∙ i.room;
        holds =
            subst (λ o. P (o s.outer frame)) (sym i.observes) (keeps s.outer frame long i.holds);
      }

  fill-Sized : (s : OutputStream V) (bytes : List ℕ) → Sized s → Sized (fill_buffer s bytes)
  fill-Sized s bytes i = record {
    observes = i.observes;
    header_room = i.header_room;
    room =
        ap (λ k. length s.hdr_buf + k)
          (length-overwrite s.payload_buf 0 (take (length s.payload_buf) bytes)
            (omega (arith, length-take (length s.payload_buf) bytes)))
        ∙ i.room;
    holds = i.holds;
  }

  -- What does not depend on the flags.
  flags-Sized :
      (s : OutputStream V) (written : ℕ) (called : Bool)
      → Sized s
      → Sized (record s { written = written; next_called = called })
  flags-Sized s written called i = record {
    observes = i.observes;
    header_room = i.header_room;
    room = i.room;
    holds = i.holds;
  }

  pick-Sized : (b : Bool) (x y : OutputStream V) → Sized x → Sized y → Sized (if b then x else y)
  pick-Sized true x y i j = i
  pick-Sized false x y i j = j

  used-Sized : (s : OutputStream V) → Sized s → Sized (commit_used s)
  unfolding commit_used
  used-Sized s i = pick-Sized s.next_called _ s (commit-Sized s false (length s.payload_buf) i) i

  finalize-Sized : (s : OutputStream V) → Sized s → Sized (finalize s)
  unfolding finalize
  finalize-Sized s i = pick-Sized s.next_called _ s (commit-Sized s true _ i) i

  serialize-Sized :
      (msg : Serialization) (s : OutputStream V) → Sized s → Sized (serialize_to msg s).1
  unfolding serialize_to stream_next stream_back_up
  serialize-Sized (returns ok) s i = i
  serialize-Sized (next bytes after) s i =
      let size = length (commit_used s).payload_buf in
      let s' : OutputStream V = record (commit_used s) { written = 0; next_called = true } in
      serialize-Sized (after size) (fill_buffer s' (bytes size))
        (fill-Sized s' (bytes size) (flags-Sized (commit_used s) 0 true (used-Sized s i)))
  serialize-Sized (back_up count after) s i =
      serialize-Sized after (stream_back_up s count)
        (flags-Sized s (length s.payload_buf - count) s.next_called i)

module _ {V : Type 0} (core : TxEncoderCore V) where
  -- Whatever the serialization does, for a buffer of at least four bytes: each frame that the
  -- observer is given has the size of the buffer that was passed in, which need not be the
  -- transmission unit.
  pub push-frame_size :
      (P : V → Type 0) (state : CoreState V) (msg : Serialization) (buffer : List ℕ)
      → header_size ≤ length buffer
      → P state.outer
      → ((v : V) (frame : List ℕ) → length frame ≡ length buffer → P v → P (core.observer v frame))
      → P (push core state msg buffer).1.outer
  unfolding push open_stream
  push-frame_size P state msg buffer room start keeps =
      let s = open_stream core state buffer in
      let i : Sized core.observer P (length buffer) keeps s = record {
        observes = refl;
        header_room = omega (arith, length-take 4 buffer);
        room = omega (arith, length-take 4 buffer, length-drop 4 buffer);
        holds = start;
      } in
      let r = serialize_to msg s in
      let after = serialize-Sized core.observer P (length buffer) keeps msg s i in
      let ending =
        pick-Sized core.observer P (length buffer) keeps r.0 (finalize r.1) r.1
          (finalize-Sized core.observer P (length buffer) keeps r.1 after) after in
      ending.holds
