-- ===== src/Lib.antt =====
-- The custom data transport of MasterPilot: a sender cuts a package of bytes into slices of the
-- size of a transmission unit, each with a 4-byte header, and a receiver puts the package
-- together from the slices in whatever order and however often they arrive. The core, src/core,
-- is pure functions on headers, coordinates and receive states, with two thin streams on top
-- that call back into the application; the tools in src/tools are such applications on standard
-- input and output, src/embedded joins the streams with nanopb, and src/cpp the pure functions
-- with protobuf.
--
-- How a byte goes: `mp_tx_stream_feed` hands payload to the sink's push callback and asks
-- `mp_tx_prepare` for a header when a slice is full; the sink writes header and payload as a
-- frame. `mp_rx_stream_feed` reads the header of a frame, gets the state of its coordinate from
-- the coordinator, takes `mp_rx_calc_slice_step`, stores the new state, and tells the
-- application.
--
-- Which file models what (the tree of modules follows the program's parts, and a child of a part
-- holds lemmas named for what they are about):
-- - Header: src/core/customdata-common.h, mp_header_meta_t, mp_header_pack, mp_header_unpack,
--   mp_header_equals and the casts between the word and its bytes. Layout has the fields of the
--   word as a sum, Wire the bytes.
-- - Coordinate: src/core/customdata-common.h, mp_config_t, mp_coordinate_t, mp_max_payload and
--   the maps between slice index and offset.
-- - Tx: src/core/customdata-tx.h, mp_tx_advance, mp_tx_make_header, mp_tx_prepare.
-- - TxStream: src/core/customdata-stream-tx.h and .c, mp_tx_stream_feed and
--   mp_tx_stream_finalize. Framer is its specification, one byte at a time, with a sink that
--   gathers slices; Feed relates the loop to it, Package is about a whole package, Rounds and
--   Simulation about sinks that follow the gathering one.
-- - Rx: src/core/customdata-rx.h, mp_rx_calc_slice_step and what it calls. Bitmap reads the
--   bitmap as a set, Scan follows the watermark, Received and Package are the specification (the
--   slices of a package, those received, the first gap), Step the step against it, Wrap and
--   Empty two cases outside of it, Typed the ranges of the state's fields.
-- - RxStream: src/core/customdata-stream-rx.h and .c, mp_rx_stream_feed. Frame is the reaction
--   to one frame, Arrivals and Complete what a sequence of frames does, and Course the same for
--   any receiver that keeps an invariant of its own on each outcome of the step.
-- - Tools: src/tools/session.h, session.c, tx.c and rx.c. Session has the sessions, Tx the tx
--   command with its sink (Tx.Sink) and what it writes (Tx.Frames), Rx the rx command with its
--   delivery (Rx.Delivery, Rx.Spans), its assembly buffer (Rx.Assembly), its event callback
--   (Rx.Event), and what it does on a frame (Rx.Slices) and on the frames of a package
--   (Rx.Package). Transfer takes the blocks that tx writes to rx: Transfer what each block
--   carries, Transfer.RoundTrip the whole way, Transfer.Packages several packages in turn.
--   Session.File has the bytes of the session files and the loops that write them out,
--   Session.Create what loading makes of a file that was created, Session.Save of one that was
--   saved, and Session.Reload of what a run of rx has saved. Rx.Kept is about what a run of rx
--   keeps, whatever its input.
-- - Tools.Main: src/tools/main.c, main, cmd_config, tx_parse_args and require_session_file, with
--   what the config command comes to in Main.Config and the options of tx in Main.Args.
--   Tools.Command joins options, session files and the two commands, and Command.Transfer takes
--   both from new session files to the delivered bytes.
-- - Embedded: src/embedded, customdata-embedded-encode.h and .c, customdata-embedded-decode.h
--   and .c. Encode.Device relates the encoder's sink to a device that sends blocks,
--   Encode.Packages says what is sent for a message. Decode.Pull is about the pull stream,
--   Decode.Events about the event callback over an array, Decode.Package about the frames of a
--   package; RoundTrip takes the encoder's blocks to the decoder.
-- - Cpp: src/cpp, customdata-protobuf-tx.hpp and .cpp, customdata-protobuf-rx.cpp. Coordinator
--   has the receiver's slots, with the numbers of the slots in Slots, their growing arrays in
--   Bytes and their generations in Clock; Decoder is RxDecoder::Impl, with what a block leaves
--   alone (Isolation), packages of one sender (Generations), and the blocks of one package
--   (Filling, Package). Encoder is TxStream and TxEncoderCore, with the slices of a package
--   (Slices), what a serialization (Serialize) and a push (Package) send, and the size of frames
--   (Frames). RoundTrip takes frames to the receiver.
-- - Base has the types, lemmas on lists, machine words and bits that the parts share. Tests has
--   concrete runs.
--
-- How the C is read. A uint8_t, uint16_t or uint32_t is a natural number with the wrap-around of
-- each assignment and cast written out (u8, u16, u32, sub16, sub32); promotions to int are kept
-- where they matter. A pointer to bytes is the list of the bytes from it on; a null pointer is
-- none. What callbacks reach through a void pointer is one value, which each call replaces. The
-- casts between a word and bytes are those of a little-endian machine. In C++ a reference that
-- an access gives out is its value and the object after the access, an array a function of the
-- index. Division by a max_payload of 0, which C leaves undefined, is the native division's; the
-- theorems on what is sent and delivered ask for a positive max_payload.
--
-- Fuel. The loop of mp_tx_stream_feed has size + 2 rounds, enough as each round takes a byte,
-- but for a first one that meets a full slice. The watermark scan of mp_rx_advance_watermark has
-- 65537 rounds, more than there are 16-bit watermarks, so that a scan that runs out would go on
-- for ever. The pull callback of the embedded decoder has one round more than the bytes that are
-- asked for. The delivery of the rx command has one round more than the watermark counts bytes,
-- its write loop one more than there are bytes to write, and its main loop one more than there
-- are bytes of input. The loops that write a session file have one round more than there are
-- bytes to write. A write that takes 0 bytes uses up a round of these loops, where the C goes
-- on; so what is said of them is for an output that takes at least one byte at each call.
--
-- Not modelled: the texts of messages, memory mapping and its failures, malloc that fails, the
-- C# binding and generated code. Parameters are getopt_long (the list of its results), what is
-- in the file at a path, the results of read and write, nanopb's pb_encode (the buffers that it
-- hands on), its pb_decode (a program that asks its stream for bytes), protobuf's
-- SerializeToZeroCopyStream (the calls that it makes on the stream) and its ParseFromArray (a
-- function of the bytes). atoi is written out; a value that does not fit an int, which C leaves
-- undefined, is kept as it is.
pub mod Base
pub mod Header
pub mod Coordinate
pub mod Tx
pub mod TxStream
pub mod Rx
pub mod RxStream
pub mod Tools
pub mod Embedded
pub mod Cpp
mod Tests
