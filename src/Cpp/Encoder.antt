-- ===== src/Cpp/Encoder.antt =====
-- The C++ sender: TxStream and TxEncoderCore of src/cpp/customdata-protobuf-tx.cpp and
-- customdata-protobuf-tx.hpp. `SerializeToZeroCopyStream` of protobuf is a parameter: the calls that
-- it makes on the stream. The observer is a function on what it reaches.
pub mod Slices
pub mod Serialize
pub mod Package
pub mod Frames
use master_pilot_custom_data.Base.{
  ℕ, ◌+◌, ◌-◌, Bool, true, false, List, [], ◌∷◌, ◌++◌, ltb, if◌then◌else◌, length, take, drop,
  overwrite, u8, u16,
}
use master_pilot_custom_data.Header.{header_size, header_pack, packed_header_to_array}
use master_pilot_custom_data.Coordinate.{Config, Coordinate}
use master_pilot_custom_data.Tx.{tx_prepare}

-- What a message's serialization does on a stream, and what it returns. After `Next` it writes
-- bytes from the start of the buffer on; they and what follows depend on the buffer's size.
pub data Serialization : Type 0 where
  returns : Bool → Serialization
  next : (bytes : ℕ → List ℕ) → (ℕ → Serialization) → Serialization
  back_up : (count : ℕ) → Serialization → Serialization

-- `TxStream`, an adapter of `ZeroCopyOutputStream`. `V` is what the observer reaches.
pub record OutputStream (V : Type 0) : Type 0 where
  pub config : Config
  pub cursor : Coordinate
  pub hdr_buf : List ℕ
  pub payload_buf : List ℕ
  pub observer : V → List ℕ → V
  pub outer : V
  pub accumulated : ℕ
  pub written : ℕ
  pub next_called : Bool

module _ {V : Type 0} where
  -- `commit_slice`. The frame that is observed is both buffers.
  unfoldable pub commit_slice : OutputStream V → (eop : Bool) → (size : ℕ) → OutputStream V
  commit_slice s eop size =
      let slice = tx_prepare s.config s.cursor (u16 size) eop in
      let hdr_buf = overwrite s.hdr_buf 0 (packed_header_to_array (header_pack slice.header)) in
      record s {
        hdr_buf = hdr_buf;
        outer = s.observer s.outer (hdr_buf ++ s.payload_buf);
        cursor = slice.next;
        accumulated = s.accumulated + size;
      }

  -- The buffer of the call before has been used up.
  unfoldable pub commit_used : OutputStream V → OutputStream V
  commit_used s = if s.next_called then commit_slice s false (length s.payload_buf) else s

  -- `Next`: the stream, and the size of the buffer that is given out.
  unfoldable pub stream_next : OutputStream V → OutputStream V × ℕ
  stream_next s = (
    record (commit_used s) { next_called = true; written = 0 },
    length (commit_used s).payload_buf,
  )

  -- The caller writes to the buffer that it was given.
  abbrev pub fill_buffer : OutputStream V → List ℕ → OutputStream V
  fill_buffer s bytes = record s {
    payload_buf = overwrite s.payload_buf 0 (take (length s.payload_buf) bytes);
  }

  -- `BackUp`. Where the source's difference is negative it counts as 0 in `finalize`.
  unfoldable pub stream_back_up : OutputStream V → ℕ → OutputStream V
  stream_back_up s count = record s { written = length s.payload_buf - count }

  -- `ByteCount`.
  unfoldable pub byte_count : OutputStream V → ℕ
  byte_count s = s.accumulated

  unfoldable pub finalize : OutputStream V → OutputStream V
  finalize s =
      let size = if ltb 0 s.written then s.written else length s.payload_buf in
      if s.next_called then commit_slice s true size else s

  -- `SerializeToZeroCopyStream`.
  unfoldable pub serialize_to : Serialization → OutputStream V → Bool × OutputStream V
  serialize_to (returns ok) s = (ok, s)
  serialize_to (next bytes after) s =
      let (s', size) = stream_next s in serialize_to (after size) (fill_buffer s' (bytes size))
  serialize_to (back_up count after) s = serialize_to after (stream_back_up s count)

-- `TxEncoderCore`.
pub record TxEncoderCore (V : Type 0) : Type 0 where
  pub observer : V → List ℕ → V
  pub sender_id : ℕ
  pub tu : ℕ

-- What changes: `_current_package_id`, and what the observer reaches.
pub record CoreState (V : Type 0) : Type 0 where
  pub current_package_id : ℕ
  pub outer : V

module _ {V : Type 0} (core : TxEncoderCore V) where
  -- The stream that `Push` makes.
  unfoldable pub open_stream : CoreState V → (buffer : List ℕ) → OutputStream V
  open_stream state buffer = record {
    config = record { transmission_unit = core.tu };
    cursor = record {
      sender_id = core.sender_id;
      package_id = state.current_package_id;
      offset = 0;
    };
    hdr_buf = take header_size buffer;
    payload_buf = drop header_size buffer;
    observer = core.observer;
    outer = state.outer;
    accumulated = 0;
    written = 0;
    next_called = false;
  }

  -- `TxEncoderCore::Push`.
  unfoldable pub push : CoreState V → Serialization → (buffer : List ℕ) → Bool × CoreState V
  push state msg buffer =
      let (ok, stream) = serialize_to msg (open_stream state buffer) in
      let stream' = if ok then finalize stream else stream in
      (ok, record { current_package_id = u8 (state.current_package_id + 1); outer = stream'.outer })
