-- ===== src/Header/Wire.antt =====
-- `MP_PACKED_HEADER_TO_ARRAY` and `MP_ARRAY_TO_PACKED_HEADER`.
use master_pilot_custom_data.Base.{
  ℕ, ◌+◌, ◌*◌, ◌/◌, ◌%◌, ◌^◌, ◌<◌, List, [], ◌∷◌, ◌++◌, ◌≡◌, arith, bit_or_fields,
}
use master_pilot_custom_data.Header.{packed_header_to_array, array_to_packed_header}

pub array_as_sum :
    (a b c d : ℕ) (rest : List ℕ)
    → a < 256
    → b < 256
    → c < 256
    → d < 256
    → array_to_packed_header (a ∷ b ∷ c ∷ d ∷ rest) ≡ a + b * 2 ^ 8 + c * 2 ^ 16 + d * 2 ^ 24
unfolding array_to_packed_header
array_as_sum a b c d rest ha hb hc hd = ground (
  arith,
  bit_or_fields 8 a b,
  bit_or_fields 16 (a + b * 2 ^ 8) c,
  bit_or_fields 24 (a + b * 2 ^ 8 + c * 2 ^ 16) d,
)

-- Writing a 32-bit word as four bytes and reading the bytes gives the word, whatever follows.
pub array-packed :
    (p : ℕ) (rest : List ℕ)
    → p < 2 ^ 32
    → array_to_packed_header (packed_header_to_array p ++ rest) ≡ p
unfolding packed_header_to_array
array-packed p rest h = omega (
  arith,
  array_as_sum (p / 2 ^ 0 % 2 ^ 8) (p / 2 ^ 8 % 2 ^ 8) (p / 2 ^ 16 % 2 ^ 8) (p / 2 ^ 24 % 2 ^ 8)
      rest,
)

-- Reading four bytes and writing the word gives the bytes.
pub packed-array :
    (a b c d : ℕ)
    → a < 256
    → b < 256
    → c < 256
    → d < 256
    → packed_header_to_array (array_to_packed_header (a ∷ b ∷ c ∷ d ∷ [])) ≡ a ∷ b ∷ c ∷ d ∷ []
unfolding packed_header_to_array
packed-array a b c d ha hb hc hd = rw (array_as_sum a b c d [] ha hb hc hd) (ground arith)
