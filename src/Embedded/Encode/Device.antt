-- ===== src/Embedded/Encode/Device.antt =====
-- The encoder's sink over a device: a block that is written in place, and is sent on a signal.
use mathlib.Core.Path.{subst}
use master_pilot_custom_data.Base.{
  ℕ, zero, suc, ◌+◌, ◌≤◌, ◌<◌, ◌^◌, false, some, List, [], ◌∷◌, ◌++◌, ◌≡◌, refl, arith, ap, ◌∙◌,
  sym, ◌==◌, length, take, drop, overwrite, u16, length-take, length-append, take-append-drop,
  take-drop-overwrite, append-nil,
}
use master_pilot_custom_data.Header.{HeaderMeta, header_size, header_pack, packed_header_to_array}
use master_pilot_custom_data.Coordinate.{max_payload}
use master_pilot_custom_data.Coordinate.Laws.{max_payload_lem}
use master_pilot_custom_data.TxStream.Framer.{Gathered}
use master_pilot_custom_data.TxStream.Rounds.{Follows}
use master_pilot_custom_data.RxStream.Frame.{frame_of}
use master_pilot_custom_data.Tools.Tx.Sink.{AreFrames, AreFrames-snoc}
use master_pilot_custom_data.Embedded.Encode.{
  PbEncoder, Pipeline, put_payload, put_header, tx_push_pipeline,
}

-- What the encoder needs of its callbacks: a block of the transmission unit's size, which
-- `data_put_cb` writes to, and of which `send_signal_cb` sends all.
pub record Device {W : Type 0} (encoder : PbEncoder W) : Type 0 where
  pub block : W → List ℕ
  pub sent : W → List (List ℕ)
  pub sized : (w : W) → length (block w) ≡ encoder.config.transmission_unit
  pub puts :
      (w : W) (off : ℕ) (bytes : List ℕ) (size : ℕ)
      → size ≤ length bytes
      → off + size ≤ length (block w)
      → block (encoder.data_put_cb w off bytes size) ≡ overwrite (block w) off (take size bytes)
  pub puts_quietly :
      (w : W) (off : ℕ) (bytes : List ℕ) (size : ℕ)
      → sent (encoder.data_put_cb w off bytes size) ≡ sent w
  pub sends : (w : W) → sent (encoder.send_signal_cb w) ≡ sent w ++ block w ∷ []

module _ {W : Type 0} (encoder : PbEncoder W) (device : Device encoder) where
  abbrev tu : ℕ
  tu = encoder.config.transmission_unit

  -- The block holds the payload under way, and the frames of the slices are sent.
  pub record Mirrors (u : Pipeline W) (g : Gathered) : Type 0 where
    pub filled : u.accumulated ≡ length g.pending
    pub holds : take (length g.pending) (drop header_size (device.block u.user)) ≡ g.pending
    pub wrote : AreFrames tu g.sent (device.sent u.user)

  payload-Mirrors :
      (u : Pipeline W) (g : Gathered) (bytes : List ℕ) (size : ℕ)
      → tu < 2 ^ 16
      → Mirrors u g
      → size ≤ length bytes
      → length g.pending + size + 4 ≤ tu
      → Mirrors
          (put_payload encoder u (some bytes) size)
          (record g { pending = g.pending ++ take size bytes })
  unfolding put_payload
  payload-Mirrors u g bytes zero word m held room = rw append-nil m
  payload-Mirrors u g bytes (suc n) word m held room =
      let some_bytes : (suc n == 0) ≡ false = ground arith in
      let size_read : length (take (suc n) bytes) ≡ suc n =
        omega (arith, length-take (suc n) bytes) in
      let place : u16 (u.accumulated + header_size) ≡ header_size + length g.pending =
        omega (arith, m.filled) in
      let long = device.sized u.user in
      rw (some_bytes, place)
        (record {
          filled = omega (arith, m.filled, size_read, length-append g.pending (take (suc n) bytes));
          holds =
              ap
                (λ k. take k (
                  drop header_size (
                    device.block
                      (encoder.data_put_cb u.user (header_size + length g.pending) bytes (suc n)))))
                (length-append g.pending (take (suc n) bytes))
              ∙ ap (λ l. take (length g.pending + length (take (suc n) bytes)) (drop header_size l))
                  (device.puts u.user (header_size + length g.pending) bytes (suc n) held
                    (omega (arith, long)))
              ∙ take-drop-overwrite (device.block u.user) header_size (length g.pending)
                  (take (suc n) bytes) (omega (arith, long))
              ∙ ap (λ l. l ++ take (suc n) bytes) m.holds;
          wrote =
              subst (AreFrames tu g.sent)
                (sym (device.puts_quietly u.user (header_size + length g.pending) bytes (suc n)))
                m.wrote;
        })

  header-Mirrors :
      (u : Pipeline W) (g : Gathered) (header : HeaderMeta)
      → Mirrors u g
      → length g.pending + 4 ≤ tu
      → Mirrors (put_header encoder u (some header)) (record {
        pending = [];
        sent = g.sent ++ record { header = header; payload = g.pending } ∷ [];
      })
  unfolding put_header packed_header_to_array
  header-Mirrors u g header m room =
      let bytes = packed_header_to_array (header_pack header) in
      let k = length g.pending in
      let rest = drop header_size (device.block u.user) in
      let stale = drop k rest in
      let long = device.sized u.user in
      let parts : rest ≡ g.pending ++ stale =
        sym (take-append-drop k rest) ∙ ap (λ l. l ++ stale) m.holds in
      let after = encoder.data_put_cb u.user 0 bytes header_size in
      let read : device.block after ≡ frame_of header (g.pending ++ stale) =
        device.puts u.user 0 bytes header_size (omega arith) (omega (arith, long))
        ∙ ap (frame_of header) parts in
      let length_read : length (frame_of header (g.pending ++ stale)) ≡ tu =
        ap length (sym read) ∙ device.sized after in
      record {
        filled = refl;
        holds = refl;
        wrote =
            subst (AreFrames tu (g.sent ++ record { header = header; payload = g.pending } ∷ []))
              (sym (
                device.sends after
                ∙ ap (λ l. l ++ device.block after ∷ [])
                    (device.puts_quietly u.user 0 bytes header_size)
                ∙ ap (λ b. device.sent u.user ++ b ∷ []) read))
              (AreFrames-snoc m.wrote (record { header = header; payload = g.pending }) stale
                length_read);
      }

  -- The encoder's sink stays in step with the gathering one.
  pub pipeline-Follows :
      4 ≤ tu → tu < 2 ^ 16 → Follows encoder.config (tx_push_pipeline encoder) Mirrors
  unfolding tx_push_pipeline put_payload put_header
  pipeline-Follows small word =
      let unit : max_payload encoder.config + 4 ≡ tu = max_payload_lem encoder.config small word in
      record {
        takes_payload = λ u g bytes size m held room.
            payload-Mirrors u g bytes size word m held (omega (arith, unit));
        takes_header = λ u g act header m room.
            rw append-nil (header-Mirrors u g header m (omega (arith, unit)));
      }
