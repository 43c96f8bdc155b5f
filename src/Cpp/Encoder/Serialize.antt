-- ===== src/Cpp/Encoder/Serialize.antt =====
-- What a serialization makes the C++ sender's stream send.
use mathlib.Core.Path.{subst}
use native.Mathlib.Decide.{dec_lt}
use master_pilot_custom_data.Base.{
  ℕ, suc, ◌+◌, ◌-◌, ◌*◌, ◌≤◌, ◌<◌, ◌^◌, Bool, true, false, List, [], ◌∷◌, ◌++◌, foldl, ◌≡◌, refl,
  arith, ap, ◌∙◌, sym, length, take, drop, overwrite, u16, length-append, take_all, lt→ltb,
  drop_all, append-nil, length-drop, length-zero,
}
use master_pilot_custom_data.Header.{HeaderMeta, header_pack, packed_header_to_array}
use master_pilot_custom_data.Coordinate.{Config, max_payload}
use master_pilot_custom_data.Tx.{tx_prepare}
use master_pilot_custom_data.Tx.Laws.{slot, slot_header, make_header-slot, advance-slot}
use master_pilot_custom_data.TxStream.Framer.{Slice}
use master_pilot_custom_data.TxStream.Package.{index_fits}
use master_pilot_custom_data.Coordinate.Laws.{max_payload-lt}
use master_pilot_custom_data.RxStream.Frame.{frame_of}
use master_pilot_custom_data.Tools.Tx.Sink.{AreFrames, no_frames, frame_and}
use master_pilot_custom_data.Cpp.Encoder.{
  Serialization, returns, next, back_up, OutputStream, commit_slice, commit_used, stream_next,
  stream_back_up, finalize, serialize_to,
}
use master_pilot_custom_data.Cpp.Encoder.Slices.{
  Sliced, last, full, Serializes, none_left, part, whole,
}

module _ {V : Type 0} (config : Config) (pos : 0 < max_payload config) (observer : V → List ℕ → V)
    (sender pkg : ℕ) where
  abbrev p : ℕ
  p = max_payload config

  -- The stream at slice `i`.
  abbrev pub at : ℕ → V → (hdr buf : List ℕ) → (accumulated written : ℕ) → Bool → OutputStream V
  at i v hdr buf accumulated written next_called = record {
    config = config;
    cursor = slot config sender pkg i;
    hdr_buf = hdr;
    payload_buf = buf;
    observer = observer;
    outer = v;
    accumulated = accumulated;
    written = written;
    next_called = next_called;
  }

  abbrev header_bytes : ℕ → ℕ → Bool → List ℕ
  header_bytes i size eop = packed_header_to_array (header_pack (slot_header sender pkg i size eop))

  module _ (i : ℕ) (v : V) (hdr buf : List ℕ) (acc wr : ℕ) (called : Bool) (four : drop 4 hdr ≡ [])
      (few : i < 2 ^ 8) where
    -- A committed slice is observed as a frame of what the payload buffer holds.
    commit-frame :
        (size : ℕ) (eop : Bool)
        → size < 2 ^ 16
        → (commit_slice (at i v hdr buf acc wr called) eop size).outer
          ≡ observer v (frame_of (slot_header sender pkg i size eop) buf)
    unfolding commit_slice tx_prepare packed_header_to_array
    commit-frame size eop word =
        let cut : u16 size ≡ size = omega (arith, word) in
        rw (cut, make_header-slot config sender pkg i size eop pos few, four) refl

    commit-full :
        (i + 1) * p < 2 ^ 16
        → commit_slice (at i v hdr buf acc wr called) false p
          ≡ at
              (i + 1)
              (observer v (frame_of (slot_header sender pkg i p false) buf))
              (overwrite hdr 0 (header_bytes i p false))
              buf
              (acc + p)
              wr
              called
    unfolding commit_slice tx_prepare packed_header_to_array
    commit-full fits =
        let cut : u16 p ≡ p = omega (arith, fits) in
        rw
          (
            cut,
            make_header-slot config sender pkg i p false pos few,
            four,
            advance-slot config sender pkg i fits,
          )
          refl

  -- What the serialization and then `finalize` come to.
  abbrev Sends : V → ℕ → List ℕ → Bool × OutputStream V → Type 0
  Sends v i xs result =
      (slices : List Slice) × (blocks : List (List ℕ)) × Sliced p sender pkg i xs slices
      × AreFrames (p + 4) slices blocks
      × (result.0 ≡ true)
      × ((finalize result.1).outer ≡ foldl observer v blocks)

  -- `Next` on a stream whose used buffer, if there is one, is committed as `at`.
  next-at :
      (s : OutputStream V) (i : ℕ) (v : V) (hdr buf : List ℕ) (acc wr : ℕ) (called : Bool)
      (bytes : ℕ → List ℕ) (after : ℕ → Serialization)
      → commit_used s ≡ at i v hdr buf acc wr called
      → length buf ≡ p
      → serialize_to (next bytes after) s
        ≡ serialize_to (after p) (at i v hdr (overwrite buf 0 (take p (bytes p))) acc 0 true)
  unfolding serialize_to stream_next
  next-at s i v hdr buf acc wr called bytes after e size = rw (e, size) refl

  Serializes-nil :
      (xs : List ℕ) (w : Serialization) → Serializes p xs w → length xs ≡ 0 → w ≡ returns true
  Serializes-nil xs w none_left e = refl
  Serializes-nil xs w (part more _ _ _) e = absurd (omega arith)
  Serializes-nil xs w (whole {bytes = bytes} rest size split _) e =
      absurd (omega (arith, size, pos, ap length split, length-append (bytes p) rest))

  -- The last buffer, of which `xs` has been written.
  finalize-part :
      (i : ℕ) (v : V) (hdr stale xs : List ℕ) (acc : ℕ)
      → drop 4 hdr ≡ []
      → i < 2 ^ 8
      → p < 2 ^ 16
      → 0 < length xs
      → length (xs ++ stale) ≡ p
      → (finalize (stream_back_up (at i v hdr (xs ++ stale) acc 0 true) (p - length xs))).outer
        ≡ observer v (frame_of (slot_header sender pkg i (length xs) true) (xs ++ stale))
  unfolding finalize stream_back_up
  finalize-part i v hdr stale xs acc four few word more size =
      let written : length (xs ++ stale) - (p - length xs) ≡ length xs =
        omega (arith, size, length-append xs stale) in
      rw (written, lt→ltb 0 (length xs) more)
        (commit-frame i v hdr (xs ++ stale) acc (length xs) true four few (length xs) true
          (omega (arith, size, length-append xs stale)))

  finalize-whole :
      (i : ℕ) (v : V) (hdr xs : List ℕ) (acc : ℕ)
      → drop 4 hdr ≡ []
      → i < 2 ^ 8
      → p < 2 ^ 16
      → length xs ≡ p
      → (finalize (at i v hdr xs acc 0 true)).outer
        ≡ observer v (frame_of (slot_header sender pkg i (length xs) true) xs)
  unfolding finalize
  finalize-whole i v hdr xs acc four few word size =
      commit-frame i v hdr xs acc 0 true four few (length xs) true (omega (arith, size))

  length-framed : (h : HeaderMeta) (xs : List ℕ) → length xs ≡ p → length (frame_of h xs) ≡ p + 4
  unfolding packed_header_to_array
  length-framed h xs size = omega (arith, size)

  serialize-returns : (s : OutputStream V) → serialize_to (returns true) s ≡ (true, s)
  unfolding serialize_to
  serialize-returns s = refl

  serialize-back_up :
      (s : OutputStream V) (n : ℕ)
      → serialize_to (back_up n (returns true)) s ≡ (true, stream_back_up s n)
  unfolding serialize_to
  serialize-back_up s n = refl

  -- A buffer that has been used up is committed before the next one.
  commit_used-full :
      (i : ℕ) (v : V) (hdr xs : List ℕ) (acc : ℕ)
      → drop 4 hdr ≡ []
      → i < 2 ^ 8
      → length xs ≡ p
      → suc i * p < 2 ^ 16
      → commit_used (at i v hdr xs acc 0 true)
        ≡ at
            (suc i)
            (observer v (frame_of (slot_header sender pkg i p false) xs))
            (overwrite hdr 0 (header_bytes i p false))
            xs
            (acc + p)
            0
            true
  unfolding commit_used
  commit_used-full i v hdr xs acc four few size fits =
      let step : i + 1 ≡ suc i = omega arith in
      ap (commit_slice (at i v hdr xs acc 0 true) false) size
      ∙ commit-full i v hdr xs acc 0 true four few (omega (arith, fits))
      ∙ ap
          (λ k.
            at k (observer v (frame_of (slot_header sender pkg i p false) xs))
              (overwrite hdr 0 (header_bytes i p false)) xs (acc + p) 0 true)
          step

  still_four :
      (hdr : List ℕ) (i : ℕ)
      → drop 4 hdr ≡ []
      → drop 4 (overwrite hdr 0 (header_bytes i p false)) ≡ []
  unfolding packed_header_to_array
  still_four hdr i four = four

  pub sends :
      (xs : List ℕ) (w : Serialization) (s : OutputStream V) (i : ℕ) (v : V) (hdr buf : List ℕ)
      (acc wr : ℕ) (called : Bool)
      → Serializes p xs w
      → commit_used s ≡ at i v hdr buf acc wr called
      → length buf ≡ p
      → drop 4 hdr ≡ []
      → 0 < length xs
      → i * p + length xs < 2 ^ 16
      → i * p + length xs ≤ 2 ^ 8 * p
      → Sends v i xs (serialize_to w s)
  sends xs w s i v hdr buf acc wr called none_left e size four more word few = absurd (omega arith)
  sends xs w s i v hdr buf acc wr called
        (part {bytes = bytes} {after = after} some_bytes short writes backs) e size four more word
        few =
      let few_i : i < 2 ^ 8 = index_fits i p 0 0 (omega arith) in
      let stale = drop (length xs) buf in
      let block : overwrite buf 0 (take p (bytes p)) ≡ xs ++ stale =
        ap (overwrite buf 0) (ap (take p) writes ∙ take_all p xs (omega arith))
        ∙ ap (λ n. xs ++ drop n buf) {x = 0 + length xs} {y = length xs} (omega arith) in
      let size' : length (xs ++ stale) ≡ p =
        omega (arith, size, length-append xs stale, length-drop (length xs) buf) in
      let goes : serialize_to w s
          ≡ (true, stream_back_up (at i v hdr (xs ++ stale) acc 0 true) (p - length xs)) =
        next-at s i v hdr buf acc wr called bytes after e size
        ∙ ap (λ b. serialize_to (after p) (at i v hdr b acc 0 true)) block
        ∙ ap (λ a. serialize_to a (at i v hdr (xs ++ stale) acc 0 true)) backs
        ∙ serialize-back_up _ _ in
      let header = slot_header sender pkg i (length xs) true in
      (
        record { header = header; payload = xs } ∷ [],
        frame_of header (xs ++ stale) ∷ [],
        last i xs some_bytes (omega arith),
        frame_and (record { header = header; payload = xs }) stale
            (length-framed header (xs ++ stale) size') no_frames,
        ap (λ (r : Bool × OutputStream V). r.0) goes,
        ap (λ (r : Bool × OutputStream V). (finalize r.1).outer) goes
            ∙ finalize-part i v hdr stale xs acc four few_i (max_payload-lt config) some_bytes
                size',
      )
  sends xs w s i v hdr buf acc wr called
        (whole {bytes = bytes} {after = after} rest filled split onward) e size four more word few =
      let few_i : i < 2 ^ 8 = index_fits i p 0 0 (omega arith) in
      let xs' = bytes p in
      let block : overwrite buf 0 (take p xs') ≡ xs' =
        ap (overwrite buf 0) (take_all p xs' (omega (arith, filled)))
        ∙ ap (λ l. xs' ++ l) (drop_all (0 + length xs') buf (omega (arith, size, filled)))
        ∙ append-nil xs' in
      let goes : serialize_to w s ≡ serialize_to (after p) (at i v hdr xs' acc 0 true) =
        next-at s i v hdr buf acc wr called bytes after e size
        ∙ ap (λ b. serialize_to (after p) (at i v hdr b acc 0 true)) block in
      let long : length xs ≡ p + length rest =
        omega (arith, ap length split, length-append xs' rest, filled) in
      let stands : Sends v i xs (serialize_to (after p) (at i v hdr xs' acc 0 true)) =
        elim (dec_lt 0 (length rest)) [
          | yes more' ↦
              let header = slot_header sender pkg i p false in
              let (slices, blocks, sliced, frames, ok, outer) =
                sends rest (after p) (at i v hdr xs' acc 0 true) (suc i)
                  (observer v (frame_of header xs')) (overwrite hdr 0 (header_bytes i p false)) xs'
                  (acc + p) 0 true onward
                  (commit_used-full i v hdr xs' acc four few_i filled (omega (arith, long, word)))
                  filled (still_four hdr i four) more' (omega (arith, long, word))
                  (omega (arith, long, few)) in
              (
                record { header = header; payload = xs' } ∷ slices,
                frame_of header (xs' ++ []) ∷ blocks,
                full xs' rest filled more' split sliced,
                frame_and (record { header = header; payload = xs' }) []
                    (length-framed header (xs' ++ []) (ap length (append-nil xs') ∙ filled)) frames,
                ok,
                outer
                    ∙ ap (λ l. foldl observer (observer v (frame_of header l)) blocks)
                        (sym (append-nil xs')),
              )
          | no done ↦
              let nothing_more : rest ≡ [] = length-zero rest (omega arith) in
              let all : xs ≡ xs' = split ∙ ap (λ l. xs' ++ l) nothing_more ∙ append-nil xs' in
              let ended = Serializes-nil rest (after p) onward (omega arith) in
              let ran : serialize_to (after p) (at i v hdr xs' acc 0 true)
                  ≡ (true, at i v hdr xs' acc 0 true) =
                ap (λ a. serialize_to a (at i v hdr xs' acc 0 true)) ended ∙ serialize-returns _ in
              let header = slot_header sender pkg i (length xs') true in
              subst (λ l. Sends v i l (serialize_to (after p) (at i v hdr xs' acc 0 true)))
                (sym all)
                (
                  record { header = header; payload = xs' } ∷ [],
                  frame_of header (xs' ++ []) ∷ [],
                  last i xs' (omega (arith, filled, pos)) (omega (arith, filled)),
                  frame_and (record { header = header; payload = xs' }) []
                      (length-framed header (xs' ++ []) (ap length (append-nil xs') ∙ filled))
                      no_frames,
                  ap (λ (r : Bool × OutputStream V). r.0) ran,
                  ap (λ (r : Bool × OutputStream V). (finalize r.1).outer) ran
                      ∙ finalize-whole i v hdr xs' acc four few_i (max_payload-lt config) filled
                      ∙ ap (λ l. observer v (frame_of header l)) (sym (append-nil xs')),
                )
        ] in
      subst (Sends v i xs) (sym goes) stands
