-- ===== src/Encoding/Sha256/Sizes.antt =====
-- The sizes in SHA-256: whole blocks go in, and 64 hexadecimal digits come out.
use dezhou.Prelude.{
  ℕ, zero, suc, ◌+◌, ◌-◌, ◌*◌, ◌/◌, ◌%◌, ◌^◌, ◌≤◌, ◌<◌, ◌≡◌, refl, Bool, true, ◌&&◌, ◌||◌, inl, inr,
  Bool-cases, List, [], ◌∷◌, ◌++◌, ◌==◌, leb, length, length-append, get_or, All, arith,
}
use dezhou.Prelude.Ranges.{holds_at_rows, row_holds}
use dezhou.Encoding.Sha256.{
  fill_zeros, length_bytes, padded, digest_bytes, word_bytes, hash_words, blocks, initial_hash,
  hex_digits, hex_bytes, hash,
}

fill_zeros-length :
    (fuel : ℕ) (bytes : List ℕ)
    → (120 - length bytes % 64) % 64 ≤ fuel
    → length (fill_zeros fuel bytes) % 64 ≡ 56
unfolding fill_zeros
fill_zeros-length zero bytes h = omega (arith, h)
fill_zeros-length (suc fuel) bytes h = elim (Bool-cases (length bytes % 64 == 56)) [
  | inl full ↦ rw full (ground (arith, full))
  | inr more ↦ rw more (
      fill_zeros-length fuel (bytes ++ 0 ∷ []) (ground (arith, length-append bytes (0 ∷ []), more)))
]

-- The padding always completes a block.
padded-length : (input : List ℕ) → length (padded input) % 64 ≡ 0
unfolding padded
padded-length input =
    let data_len = fill_zeros-length 63 (input ++ 0x80 ∷ []) (omega arith) in
    let eight = length_bytes (length input * 8 % 2 ^ 64) in
    omega (arith, length-append (fill_zeros 63 (input ++ 0x80 ∷ [])) eight, data_len)

abbrev pub is_hex_digit : ℕ → Bool
is_hex_digit c = (leb b'0' c && leb c b'9') || (leb b'a' c && leb c b'f')

hex_table : holds_at_rows (λ i. is_hex_digit (get_or hex_digits i 0)) 16 ≡ true
unfolding holds_at_rows
hex_table = refl

hex_bytes-digits :
    (xs : List ℕ)
    → All (λ x. x < 256) xs
    → (length (hex_bytes xs) ≡ length xs + length xs)
      × All (λ c. is_hex_digit c ≡ true) (hex_bytes xs)
unfolding hex_bytes
hex_bytes-digits [] h = (refl, tt)
hex_bytes-digits (x ∷ xs) h =
    let rest = hex_bytes-digits xs h.1 in
    let hex = row_holds (λ i. is_hex_digit (get_or hex_digits i 0)) 16 in
    (
      omega (arith, rest.0),
      (hex (x / 16) (omega (arith, h.0)) hex_table, (hex (x % 16) (omega arith) hex_table, rest.1)),
    )

word_bytes-bytes :
    (xs : List ℕ) → (length (word_bytes xs) ≡ length xs * 4) × All (λ b. b < 256) (word_bytes xs)
unfolding word_bytes
word_bytes-bytes [] = (refl, tt)
word_bytes-bytes (x ∷ xs) =
    let rest = word_bytes-bytes xs in
    (omega (arith, rest.0), (omega arith, (omega arith, (omega arith, (omega arith, rest.1)))))

-- The padded input of SHA-256 is always made of whole blocks of 64 bytes, and the hash of any
-- input is 64 hexadecimal digits.
pub hash-digits :
    (input : List ℕ)
    → (length (padded input) % 64 ≡ 0)
      × (length (hash input) ≡ 64)
      × All (λ c. is_hex_digit c ≡ true) (hash input)
unfolding hash digest_bytes
hash-digits input =
    let bytes = padded input in
    let words = hash_words (blocks (length bytes / 64) initial_hash bytes) in
    let small = word_bytes-bytes words in
    let hex = hex_bytes-digits (word_bytes words) small.1 in
    (padded-length input, omega (arith, hex.0, small.0), hex.1)
