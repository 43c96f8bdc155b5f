-- ===== src/Tools/Session/Save.antt =====
-- What loading makes of a session file that was saved.
use master_pilot_custom_data.Base.{
  ℕ, zero, suc, ◌+◌, ◌*◌, ◌^◌, ◌<◌, true, some, List, [], ◌∷◌, ◌++◌, ◌≡◌, refl, arith, ap, ◌∙◌, sym,
  ◌==◌, length, get_or, u8, ◌>>>◌, append_assoc, length-append, eq→==,
}
use master_pilot_custom_data.Rx.{SliceState}
use master_pilot_custom_data.Rx.Typed.{AllBelow, IsTyped}
use master_pilot_custom_data.Tools.Session.{
  TxSession, RxSession, session_send_magic, session_recv_magic, rx_buffer_size, session_tx_load,
  session_rx_load,
}
use master_pilot_custom_data.Tools.Session.File.{
  bytes16, bytes32, word16, word32, bitmap_bytes, bitmap_of, rx_session_size, tx_session_bytes,
  tx_session_of, rx_session_bytes, rx_session_of, load_tx_file, load_rx_file, save_tx_file,
  save_rx_file,
}
use master_pilot_custom_data.Tools.Session.Create.{load_rx-append}

whole16 : (n : ℕ) → n < 2 ^ 16 → u8 n + u8 (n >>> 8) * 2 ^ 8 ≡ n
whole16 n h = omega (arith, h)

whole32 :
    (n : ℕ)
    → n < 2 ^ 32
    → u8 n + u8 (n >>> 8) * 2 ^ 8 + (u8 (n >>> 16) + u8 (n >>> 24) * 2 ^ 8) * 2 ^ 16 ≡ n
whole32 n h = omega (arith, h)

-- Reading behind what stands in front.
get_or-past :
    (front xs : List ℕ) (i k : ℕ) → i ≡ length front + k → get_or (front ++ xs) i 0 ≡ get_or xs k 0
get_or-past [] xs i k e = ap (λ n. get_or xs n 0) {x = i} {y = k} (omega (arith, e))
get_or-past (f ∷ front) xs i k e =
    ap (λ n. get_or (f ∷ front ++ xs) n 0) {x = i} {y = suc (length front + k)} (omega (arith, e))
    ∙ get_or-past front xs (length front + k) k refl

word16-past :
    (front xs : List ℕ) (i k : ℕ) → i ≡ length front + k → word16 (front ++ xs) i ≡ word16 xs k
word16-past front xs i k e =
    rw (get_or-past front xs i k e, get_or-past front xs (i + 1) (k + 1) (omega (arith, e))) refl

word32-past :
    (front xs : List ℕ) (i k : ℕ) → i ≡ length front + k → word32 (front ++ xs) i ≡ word32 xs k
word32-past front xs i k e =
    rw (word16-past front xs i k e, word16-past front xs (i + 2) (k + 2) (omega (arith, e))) refl

bitmap_of-past :
    (words : ℕ) (front xs : List ℕ) (i k : ℕ)
    → i ≡ length front + k
    → bitmap_of (front ++ xs) words i ≡ bitmap_of xs words k
bitmap_of-past zero front xs i k e = refl
bitmap_of-past (suc words) front xs i k e =
    rw
      (word32-past front xs i k e, bitmap_of-past words front xs (i + 4) (k + 4) (omega (arith, e)))
      refl

bitmap_of-bitmap_bytes :
    (words xs : List ℕ)
    → AllBelow (2 ^ 32) words
    → bitmap_of (bitmap_bytes words ++ xs) (length words) 0 ≡ words
bitmap_of-bitmap_bytes [] xs all = refl
bitmap_of-bitmap_bytes (w ∷ words) xs all =
    rw
      (
        whole32 w all.0,
        bitmap_of-past (length words) (bytes32 w) (bitmap_bytes words ++ xs) 4 0 refl,
        bitmap_of-bitmap_bytes words xs all.1,
      )
      refl

length-bitmap_bytes : (words : List ℕ) → length (bitmap_bytes words) ≡ 4 * length words
length-bitmap_bytes [] = refl
length-bitmap_bytes (w ∷ words) = omega (arith, length-bitmap_bytes words)

-- The session before and behind the bitmap.
abbrev front_of : RxSession → List ℕ
front_of s = bytes32 s.magic ++ bytes16 s.transmission_unit

abbrev fields_of : SliceState → List ℕ
fields_of st =
    bytes16 st.received_count ++ (bytes16 st.termination ++ (bytes16 st.watermark ++ (0 ∷ 0 ∷ [])))

rx_session_bytes-split :
    (s : RxSession) (buf : List ℕ)
    → rx_session_bytes s ++ buf
      ≡ front_of s ++ (bitmap_bytes s.state.bitmap ++ (fields_of s.state ++ buf))
unfolding rx_session_bytes
rx_session_bytes-split s buf =
    ap (λ l. front_of s ++ l) (append_assoc (bitmap_bytes s.state.bitmap) (fields_of s.state) buf)

front-bitmap : RxSession → List ℕ
front-bitmap s = front_of s ++ bitmap_bytes s.state.bitmap

rx_session_of-rx_session_bytes :
    (s : RxSession) (buf : List ℕ)
    → s.magic < 2 ^ 32
    → s.transmission_unit < 2 ^ 16
    → IsTyped s.state
    → rx_session_of (rx_session_bytes s ++ buf) ≡ s
unfolding rx_session_of front-bitmap
rx_session_of-rx_session_bytes s buf magic unit t =
    let words = s.state.bitmap in
    let fields = fields_of s.state ++ buf in
    let file = front_of s ++ (bitmap_bytes words ++ fields) in
    let bitmap : bitmap_of file 8 6 ≡ words =
      bitmap_of-past 8 (front_of s) (bitmap_bytes words ++ fields) 6 0 refl
      ∙ ap (λ n. bitmap_of (bitmap_bytes words ++ fields) n 0) (sym t.eight_words)
      ∙ bitmap_of-bitmap_bytes words fields t.words_fit in
    let behind : (k : ℕ) → word16 file (38 + k) ≡ word16 fields k = λ k.
      word16-past (front-bitmap s) fields (38 + k) k
        (omega (arith, length-bitmap_bytes words, t.eight_words)) in
    let received : word16 file 38 ≡ s.state.received_count =
      behind 0 ∙ whole16 s.state.received_count t.count_fits in
    let ends_at : word16 file 40 ≡ s.state.termination =
      behind 2 ∙ whole16 s.state.termination t.termination_fits in
    let mark : word16 file 42 ≡ s.state.watermark =
      behind 4 ∙ whole16 s.state.watermark t.watermark_fits in
    rw
      (
        rx_session_bytes-split s buf,
        bitmap,
        received,
        ends_at,
        mark,
        whole32 s.magic magic,
        whole16 s.transmission_unit unit,
      )
      refl

length-rx_session_bytes :
    (s : RxSession) → IsTyped s.state → length (rx_session_bytes s) ≡ rx_session_size
unfolding rx_session_bytes
length-rx_session_bytes s t = omega (
  arith,
  length-append (bitmap_bytes s.state.bitmap) (fields_of s.state),
  length-bitmap_bytes s.state.bitmap,
  t.eight_words,
)

-- What the rx command saves is loaded again: for a receive session with its magic number, whose state
-- stays within its C types, with a 16-bit transmission unit and the assembly buffer that this takes,
-- loading the file that was saved gives the session and the buffer back.
pub load_rx_file-save_rx_file :
    (s : RxSession) (assembly_buffer : List ℕ)
    → s.magic ≡ session_recv_magic
    → s.transmission_unit < 2 ^ 16
    → IsTyped s.state
    → length assembly_buffer ≡ rx_buffer_size s.transmission_unit
    → load_rx_file (save_rx_file s assembly_buffer) ≡ some (s, assembly_buffer)
unfolding save_rx_file session_rx_load
load_rx_file-save_rx_file s assembly_buffer magic unit t size =
    let again = rx_session_of-rx_session_bytes s assembly_buffer (omega (arith, magic)) unit t in
    let kind : (s.magic == session_recv_magic) ≡ true = eq→== _ _ magic in
    let whole : (length assembly_buffer == rx_buffer_size s.transmission_unit) ≡ true =
      eq→== _ _ size in
    load_rx-append (rx_session_bytes s) assembly_buffer (length-rx_session_bytes s t)
    ∙ rw (again, kind, whole) refl

-- What the tx command saves is loaded again: for a send session with its magic number and fields that
-- fit their C types, loading the file that was saved gives the session back.
pub load_tx_file-save_tx_file :
    (s : TxSession)
    → s.magic ≡ session_send_magic
    → s.transmission_unit < 2 ^ 16
    → s.coord.offset < 2 ^ 16
    → load_tx_file (save_tx_file s) ≡ some s
unfolding load_tx_file save_tx_file tx_session_bytes tx_session_of session_tx_load
load_tx_file-save_tx_file s magic unit offset =
    let kind : (s.magic == session_send_magic) ≡ true = eq→== _ _ magic in
    rw
      (
        whole32 s.magic (omega (arith, magic)),
        whole16 s.transmission_unit unit,
        whole16 s.coord.offset offset,
        kind,
      )
      refl
