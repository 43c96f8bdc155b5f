-- ===== src/Cpp/Coordinator/Bytes.antt =====
-- The bytes of a slot, which grow as slices come in, as an array of the package's size.
use master_pilot_custom_data.Base.{
  ℕ, zero, suc, ◌+◌, ◌-◌, ◌≤◌, max, List, [], ◌∷◌, ◌++◌, ltb, if◌then◌else◌, ◌≡◌, refl, arith, ap,
  ap₂, ◌∙◌, sym, length, take, drop, replicate, overwrite, length-append, length-replicate,
  length-overwrite, drop-append, append_assoc, append-nil, inl, inr, Bool-cases, ltb→le,
}
use master_pilot_custom_data.Cpp.Coordinator.{resize}

-- The array after `put_payload`.
abbrev pub bytes_with : List ℕ → ℕ → List ℕ → List ℕ
bytes_with bytes off payload =
    let needed = off + length payload in
    overwrite (if ltb (length bytes) needed then resize bytes needed else bytes) off payload

abbrev zeros : ℕ → List ℕ
zeros n = replicate n 0

replicate-add : (m n : ℕ) → zeros (m + n) ≡ zeros m ++ zeros n
replicate-add zero n = ap (λ k. zeros k) (omega arith)
replicate-add (suc m) n =
    ap (λ k. zeros k) {x = suc m + n} {y = suc (m + n)} (omega arith)
    ∙ ap (λ l. 0 ∷ l) (replicate-add m n)

pub length-resize : (bytes : List ℕ) (n : ℕ) → length (resize bytes n) ≡ max (length bytes) n
length-resize bytes n = omega (
  arith,
  length-append bytes (zeros (n - length bytes)),
  length-replicate {A = ℕ} (n - length bytes) 0,
)

take-prefix : (n : ℕ) (xs ys : List ℕ) → n ≤ length xs → take n (xs ++ ys) ≡ take n xs
take-prefix zero xs ys h = refl
take-prefix (suc n) [] ys h = absurd (omega arith)
take-prefix (suc n) (x ∷ xs) ys h = ap (λ l. x ∷ l) (take-prefix n xs ys (omega arith))

pub take-resize :
    (bytes : List ℕ) (k n : ℕ) → k ≤ length bytes → take k (resize bytes n) ≡ take k bytes
take-resize bytes k n h = take-prefix k bytes (zeros (n - length bytes)) h

resize-resize : (bytes : List ℕ) (m n : ℕ) → m ≤ n → resize (resize bytes m) n ≡ resize bytes n
resize-resize bytes m n h =
    append_assoc bytes (zeros (m - length bytes)) (zeros (n - length (resize bytes m)))
    ∙ ap (λ l. bytes ++ l)
        (sym (replicate-add (m - length bytes) (n - length (resize bytes m)))
          ∙ ap (λ k. zeros k) (omega (arith, length-resize bytes m)))

overwrite-append :
    (xs ys : List ℕ) (off : ℕ) (block : List ℕ)
    → off + length block ≤ length xs
    → overwrite (xs ++ ys) off block ≡ overwrite xs off block ++ ys
overwrite-append xs ys off block h =
    ap₂ (λ a b. a ++ block ++ b) (take-prefix off xs ys (omega arith))
      (drop-append (off + length block) xs ys h)
    ∙ sym (append_assoc (take off xs ++ block) (drop (off + length block) xs) ys)

grown :
    (bytes : List ℕ) (n : ℕ)
    → (if ltb (length bytes) n then resize bytes n else bytes) ≡ resize bytes n
grown bytes n = elim (Bool-cases (ltb (length bytes) n)) [
  | inl short ↦ rw short refl
  | inr enough ↦
      let none_more : n - length bytes ≡ 0 = omega (arith, ltb→le (length bytes) n enough) in
      rw (enough, none_more) (sym (append-nil bytes))
]

module _ (bytes : List ℕ) (off : ℕ) (payload : List ℕ) where
  abbrev needed : ℕ
  needed = off + length payload

  bytes_with-resize : bytes_with bytes off payload ≡ overwrite (resize bytes needed) off payload
  bytes_with-resize = ap (λ l. overwrite l off payload) (grown bytes needed)

  pub length-bytes_with :
      length (bytes_with bytes off payload) ≡ max (length bytes) (off + length payload)
  length-bytes_with =
      ap length bytes_with-resize
      ∙ length-overwrite (resize bytes needed) off payload
          (omega (arith, length-resize bytes needed))
      ∙ length-resize bytes needed

  -- In an array that has room, a write is a write.
  pub resize-bytes_with :
      (n : ℕ)
      → off + length payload ≤ n
      → resize (bytes_with bytes off payload) n ≡ overwrite (resize bytes n) off payload
  resize-bytes_with n h =
      let long = length-resize bytes needed in
      let more = zeros (n - length (resize bytes needed)) in
      ap (λ l. resize l n) bytes_with-resize
      ∙ ap (λ k. overwrite (resize bytes needed) off payload ++ zeros (n - k))
          (length-overwrite (resize bytes needed) off payload (omega (arith, long)))
      ∙ sym (overwrite-append (resize bytes needed) more off payload (omega (arith, long)))
      ∙ ap (λ l. overwrite l off payload) (resize-resize bytes needed n h)
