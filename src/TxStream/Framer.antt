-- ===== src/TxStream/Framer.antt =====
-- What the sending stream promises, one byte at a time: a slice is filled byte by byte, and leaves
-- with its header as soon as it is full.
use master_pilot_custom_data.Base.{
  ℕ, ◌+◌, ◌≤◌, ◌<◌, Bool, false, Option, none, some, List, [], ◌∷◌, ◌++◌, foldl, ◌≡◌, refl, arith,
  ◌==◌, if◌then◌else◌, length, length-append, take, append_assoc, ap, ◌∙◌,
}
use master_pilot_custom_data.Header.{HeaderMeta}
use master_pilot_custom_data.Coordinate.{Config, Coordinate, max_payload}
use master_pilot_custom_data.Tx.{tx_advance, tx_make_header}
use master_pilot_custom_data.TxStream.{TxStream, TxAction}

-- A slice as it is sent: its header and its payload.
pub record Slice : Type 0 where
  pub header : HeaderMeta
  pub payload : List ℕ

-- The sink of an abstract receiver: it gathers payload and cuts a slice at each header.
pub record Gathered : Type 0 where
  pub pending : List ℕ
  pub sent : List Slice

-- The bytes that a push brings.
abbrev pub pushed : Option (List ℕ) → ℕ → List ℕ
pushed none size = []
pushed (some bytes) size = take size bytes

abbrev pub cut : Option HeaderMeta → Gathered → Gathered
cut none g = g
cut (some h) g = record {
  pending = [];
  sent = g.sent ++ record { header = h; payload = g.pending } ∷ [];
}

abbrev pub gather : Gathered → TxAction → Option HeaderMeta → Option (List ℕ) → ℕ → Gathered
gather g act header bytes size = cut header (record g { pending = g.pending ++ pushed bytes size })

-- The specification's state: where the next slice stands, its bytes so far, the slices sent.
pub record Framer : Type 0 where
  pub cursor : Coordinate
  pub gathered : Gathered

module _ (config : Config) where
  -- The slice under way leaves, with its header.
  abbrev pub emit : Bool → Framer → Framer
  emit eop f = record {
    cursor = tx_advance config f.cursor;
    gathered =
        cut (some (tx_make_header config f.cursor (length f.gathered.pending) eop)) f.gathered;
  }

  abbrev pub add : Framer → List ℕ → Framer
  add f xs = let g = f.gathered in record f { gathered = record g { pending = g.pending ++ xs } }

  abbrev pub emit_full : Framer → Framer
  emit_full f = if length f.gathered.pending == max_payload config then emit false f else f

  unfoldable pub put_byte : Framer → ℕ → Framer
  put_byte f x = emit_full (add f (x ∷ []))

  -- The stream that stands at a state of the specification.
  abbrev pub stream_at : Framer → TxStream Gathered
  stream_at f = record {
    config = config;
    cursor = f.cursor;
    fill = length f.gathered.pending;
    downstream = record { push = gather; user = f.gathered };
  }

  put_byte-room :
      (f : Framer) (x : ℕ)
      → length f.gathered.pending + 1 < max_payload config
      → put_byte f x ≡ add f (x ∷ [])
  unfolding put_byte
  put_byte-room f x h = ground (arith, length-append f.gathered.pending (x ∷ []))

  -- Bytes that do not overfill the slice go in as one block.
  pub put-block :
      (f : Framer) (x : ℕ) (xs : List ℕ)
      → length f.gathered.pending + length (x ∷ xs) ≤ max_payload config
      → foldl put_byte f (x ∷ xs) ≡ emit_full (add f (x ∷ xs))
  unfolding put_byte
  put-block f x [] h = refl
  put-block f x (y ∷ xs) h =
      ap (λ g. foldl put_byte (put_byte g y) xs) (put_byte-room f x (omega arith))
      ∙ put-block (add f (x ∷ [])) y xs (omega (arith, length-append f.gathered.pending (x ∷ [])))
      ∙ ap (λ p. emit_full (record f { gathered = record f.gathered { pending = p } }))
          (append_assoc f.gathered.pending (x ∷ []) (y ∷ xs))

  pub put-nonempty :
      (f : Framer) (xs : List ℕ)
      → 0 < length xs
      → length f.gathered.pending + length xs ≤ max_payload config
      → foldl put_byte f xs ≡ emit_full (add f xs)
  put-nonempty f [] pos h = absurd (omega arith)
  put-nonempty f (x ∷ xs) pos h = put-block f x xs h

  -- The slice under way never fills up.
  pub put-room :
      0 < max_payload config
      → (xs : List ℕ) (f : Framer) → length f.gathered.pending < max_payload config
      → length (foldl put_byte f xs).gathered.pending < max_payload config
  unfolding put_byte
  put-room pos [] f h = h
  put-room pos (x ∷ xs) f h =
      put-room pos xs (put_byte f x) (ground (arith, length-append f.gathered.pending (x ∷ [])))
