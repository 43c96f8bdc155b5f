-- ===== src/TxStream/Package.antt =====
-- A whole package: buffers fed one after another, then the end.
use mathlib.Core.List.{flatten}
use native.Mathlib.Decide.{ℕ_discrete, dec_lt}
use native.Mathlib.Nat.{le_refl, mul-le-mul_right}
use master_pilot_custom_data.Base.{
  ℕ, suc, ◌+◌, ◌*◌, ◌<◌, ◌^◌, true, false, Option, none, some, List, [], ◌∷◌, ◌++◌, foldl,
  foldl-append, ◌≡◌, refl, arith, length, length-append, take_all, append_assoc, append-nil, ap,
  ◌∙◌, sym, ◌>>=◌,
}
use master_pilot_custom_data.Coordinate.{Config, max_payload}
use master_pilot_custom_data.Tx.Laws.{slot, slot_header, make_header-slot, advance-slot}
use master_pilot_custom_data.TxStream.{TxStream, tx_stream_feed, tx_stream_finalize}
use master_pilot_custom_data.TxStream.Framer.{
  Framer, Gathered, Slice, emit, put_byte, stream_at, put-room,
}
use master_pilot_custom_data.TxStream.Feed.{feed-framer, finalize-framer}

module _ {W : Type 0} where
  -- The stream's callers feed the buffers that they read, one after another.
  unfoldable pub feed_all : TxStream W → List (List ℕ) → Option (TxStream W)
  feed_all s [] = some s
  feed_all s (b ∷ bufs) = do s' ← tx_stream_feed s b (length b); feed_all s' bufs

  unfoldable pub send : TxStream W → List (List ℕ) → Option (TxStream W)
  send s bufs = do s' ← feed_all s bufs; some (tx_stream_finalize s')

-- A buffer's size fits its `uint16_t`.
abbrev pub AreBuffers : List (List ℕ) → Type 0
AreBuffers [] = Unit {0}
AreBuffers (b ∷ bufs) = (length b < 2 ^ 16) × AreBuffers bufs

-- The slices of a package that holds the given bytes, from the `i`-th slice on: full slices
-- without an end mark, then one that is not full and has it.
pub data Packaged (p sender pkg : ℕ) : ℕ → List ℕ → List Slice → Type 0 where
  last :
      (i : ℕ) (xs : List ℕ)
      → length xs < p
      → Packaged p sender pkg i xs
          (record { header = slot_header sender pkg i (length xs) true; payload = xs } ∷ [])
  full :
      {i : ℕ} {all : List ℕ} {slices : List Slice} (xs rest : List ℕ)
      → length xs ≡ p
      → all ≡ xs ++ rest
      → Packaged p sender pkg (suc i) rest slices
      → Packaged p sender pkg i all
          (record { header = slot_header sender pkg i p false; payload = xs } ∷ slices)

pub index_fits : (i p n m : ℕ) → i * p + n + m < 2 ^ 8 * p → i < 2 ^ 8
index_fits i p n m h = elim (dec_lt i (2 ^ 8)) [
  | yes few ↦ few
  | no many ↦ absurd (omega (arith, mul-le-mul_right {m = 2 ^ 8} {n = i} p (omega arith)))
]

module _ (config : Config) (pos : 0 < max_payload config) where
  pub feed_all-framer :
      (bufs : List (List ℕ)) (f : Framer)
      → AreBuffers bufs
      → length f.gathered.pending < max_payload config
      → feed_all (stream_at config f) bufs
        ≡ some (stream_at config (foldl (put_byte config) f (flatten bufs)))
  unfolding feed_all flatten
  feed_all-framer [] f fit room = refl
  feed_all-framer (b ∷ bufs) f fit room =
      rw
        (
          feed-framer config f b (length b) pos room (le_refl _) fit.0,
          take_all (length b) b (le_refl _),
          feed_all-framer bufs (foldl (put_byte config) f b) fit.1 (put-room config pos b f room),
          feed_all,
        )
        (ap (λ g. some (stream_at config g))
          (sym (foldl-append (put_byte config) f b (flatten bufs))))

  abbrev at_slot : (sender pkg i : ℕ) → List ℕ → List Slice → Framer
  at_slot sender pkg i pending sent = record {
    cursor = slot config sender pkg i;
    gathered = record { pending = pending; sent = sent };
  }

  -- A byte that fills the slice sends it, and one that does not stays.
  put_byte-full :
      (sender pkg i x : ℕ) (pending : List ℕ) (sent : List Slice)
      → i < 2 ^ 8
      → (i + 1) * max_payload config < 2 ^ 16
      → length pending + 1 ≡ max_payload config
      → put_byte config (at_slot sender pkg i pending sent) x
        ≡ at_slot sender pkg (suc i) [] (
            sent
            ++ record {
              header = slot_header sender pkg i (max_payload config) false;
              payload = pending ++ x ∷ [];
            }
              ∷ [])
  unfolding put_byte
  put_byte-full sender pkg i x pending sent few fits h = ground (
    arith,
    length-append pending (x ∷ []),
    make_header-slot config sender pkg i (max_payload config) false pos few,
    advance-slot config sender pkg i fits,
  )

  put_byte-part :
      (sender pkg i x : ℕ) (pending : List ℕ) (sent : List Slice)
      → length pending + 1 < max_payload config
      → put_byte config (at_slot sender pkg i pending sent) x
        ≡ at_slot sender pkg i (pending ++ x ∷ []) sent
  unfolding put_byte
  put_byte-part sender pkg i x pending sent h = ground (arith, length-append pending (x ∷ []))

  -- From state `f`, the bytes `xs` and the end make up the slices of `bytes` after those sent.
  abbrev Adds : (sender pkg i : ℕ) → List ℕ → List Slice → List ℕ → Framer → Type 0
  Adds sender pkg i bytes sent xs f =
      (slices : List Slice) × Packaged (max_payload config) sender pkg i bytes slices
      × ((emit config true (foldl (put_byte config) f xs)).gathered
          ≡ record { pending = []; sent = sent ++ slices })

  -- A slice that went out full stands before those of the rest.
  after_full :
      (sender pkg i : ℕ) (all block rest : List ℕ) (sent : List Slice) (xs : List ℕ) (f : Framer)
      → length block ≡ max_payload config
      → all ≡ block ++ rest
      → Adds sender pkg
          (suc i)
          rest
          (sent
            ++ record {
              header = slot_header sender pkg i (max_payload config) false;
              payload = block;
            }
              ∷ [])
          xs
          f
      → Adds sender pkg i all sent xs f
  after_full sender pkg i all block rest sent xs f e split (slices, packaged, sends) = (
    record { header = slot_header sender pkg i (max_payload config) false; payload = block }
        ∷ slices,
    full block rest e split packaged,
    rw (sends, append_assoc),
  )

  Adds-step :
      (sender pkg i : ℕ) (bytes : List ℕ) (sent : List Slice) (x : ℕ) (xs : List ℕ) (f g : Framer)
      → put_byte config f x ≡ g
      → Adds sender pkg i bytes sent xs g
      → Adds sender pkg i bytes sent (x ∷ xs) f
  Adds-step sender pkg i bytes sent x xs f g e (slices, packaged, sends) = (
    slices,
    packaged,
    ap (λ h. (emit config true (foldl (put_byte config) h xs)).gathered) e ∙ sends,
  )

  pub framer-Packaged :
      (sender pkg : ℕ) (xs : List ℕ) (i : ℕ) (pending : List ℕ) (sent : List Slice)
      → length pending < max_payload config
      → i * max_payload config + length pending + length xs < 2 ^ 16
      → i * max_payload config + length pending + length xs < 2 ^ 8 * max_payload config
      → Adds sender pkg i (pending ++ xs) sent xs (at_slot sender pkg i pending sent)
  framer-Packaged sender pkg [] i pending sent room fits few = (
    record { header = slot_header sender pkg i (length pending) true; payload = pending } ∷ [],
    rw append-nil (last i pending room),
    rw (make_header-slot config sender pkg i (length pending) true pos (grind arith)),
  )
  framer-Packaged sender pkg (x ∷ xs) i pending sent room fits few =
      elim (ℕ_discrete (length pending + 1) (max_payload config)) [
        | yes e ↦
            Adds-step sender pkg i (pending ++ x ∷ xs) sent x xs _ _
              (put_byte-full sender pkg i x pending sent
                (index_fits i (max_payload config) (length pending) (suc (length xs)) few)
                (grind arith) e)
              (after_full sender pkg i (pending ++ x ∷ xs) (pending ++ x ∷ []) xs sent xs _
                (omega (arith, length-append pending (x ∷ [])))
                (sym (append_assoc pending (x ∷ []) xs))
                (framer-Packaged sender pkg xs (suc i) [] _ pos (grind arith) (grind arith)))
        | no ne ↦
            Adds-step sender pkg i (pending ++ x ∷ xs) sent x xs _ _
              (put_byte-part sender pkg i x pending sent (omega arith))
              (rw (← append_assoc pending (x ∷ []) xs) (
                framer-Packaged sender pkg xs i (pending ++ x ∷ []) sent
                  (omega (arith, length-append pending (x ∷ [])))
                  (omega (arith, length-append pending (x ∷ [])))
                  (omega (arith, length-append pending (x ∷ [])))))
      ]

-- Before the first byte of a package.
abbrev pub opening : Config → (sender pkg : ℕ) → Framer
opening config sender pkg = record {
  cursor = slot config sender pkg 0;
  gathered = record { pending = []; sent = [] };
}

abbrev pub start : Config → (sender pkg : ℕ) → TxStream Gathered
start config sender pkg = stream_at config (opening config sender pkg)

abbrev pub sent_by : Option (TxStream Gathered) → Option Gathered
sent_by none = none
sent_by (some s) = some s.downstream.user

send-framer :
    (config : Config) (sender pkg : ℕ) (bufs : List (List ℕ))
    → 0 < max_payload config
    → AreBuffers bufs
    → send (start config sender pkg) bufs
      ≡ some (
          stream_at config
            (emit config true (foldl (put_byte config) (opening config sender pkg) (flatten bufs))))
unfolding send
send-framer config sender pkg bufs pos fit =
    ap (λ r. r >>= (λ s. some (tx_stream_finalize s)))
      (feed_all-framer config pos bufs (opening config sender pkg) fit pos)
    ∙ ap some (
        finalize-framer config (foldl (put_byte config) (opening config sender pkg) (flatten bufs)))

-- Sending a package of fewer than 2^16 and fewer than 256 * max_payload bytes, in any buffers,
-- ends, and the slices sent are those of the package that holds the buffers' bytes in order:
-- numbered from 0, full but for the last, which alone has the end mark; no byte is left behind.
pub send-Packaged :
    (config : Config) (sender pkg : ℕ) (bufs : List (List ℕ))
    → 0 < max_payload config
    → AreBuffers bufs
    → length (flatten bufs) < 2 ^ 16
    → length (flatten bufs) < 2 ^ 8 * max_payload config
    → (slices : List Slice) × Packaged (max_payload config) sender pkg 0 (flatten bufs) slices
      × (sent_by (send (start config sender pkg) bufs)
          ≡ some (record { pending = []; sent = slices }))
send-Packaged config sender pkg bufs pos fit fits few =
    let (slices, packaged, sends) =
      framer-Packaged config pos sender pkg (flatten bufs) 0 [] [] pos (omega arith)
        (omega arith) in
    (slices, packaged, ap sent_by (send-framer config sender pkg bufs pos fit) ∙ ap some sends)

-- The slices sent depend on the bytes fed alone, and not on how the buffers split them.
pub send_split :
    (config : Config) (sender pkg : ℕ) (bufs bufs' : List (List ℕ))
    → 0 < max_payload config
    → AreBuffers bufs
    → AreBuffers bufs'
    → flatten bufs ≡ flatten bufs'
    → send (start config sender pkg) bufs ≡ send (start config sender pkg) bufs'
send_split config sender pkg bufs bufs' pos fit fit' e =
    send-framer config sender pkg bufs pos fit
    ∙ ap
        (λ xs. some (
          stream_at config
            (emit config true (foldl (put_byte config) (opening config sender pkg) xs))))
        e
    ∙ sym (send-framer config sender pkg bufs' pos fit')
