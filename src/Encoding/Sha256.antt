-- ===== src/Encoding/Sha256.antt =====
-- SHA-256 of backend-cpp/src/sha256.hpp, on bytes. A `uint32_t` is a number below 2 ^ 32, and its
-- sums wrap around. The message schedule `w` is a list, and its oldest entries come first.
pub mod Sizes
use Prim.Native.Nat.{bit_and, bit_or, bit_xor}
use dezhou.Prelude.{
  ℕ, zero, suc, ◌+◌, ◌-◌, ◌*◌, ◌/◌, ◌%◌, ◌^◌, List, [], ◌∷◌, ◌++◌, ◌==◌, if◌then◌else◌, length,
  get_or,
}
use dezhou.Text.{codes}

abbrev pub k_word : ℕ
k_word = 2 ^ 32

-- `~x`.
abbrev flipped : ℕ → ℕ
flipped x = bit_xor x 0xffffffff

unfoldable pub rotr : ℕ → ℕ → ℕ
rotr value bits = bit_or (value / 2 ^ bits) (value * 2 ^ (32 - bits) % k_word)

unfoldable pub ch : ℕ → ℕ → ℕ → ℕ
ch x y z = bit_xor (bit_and x y) (bit_and (flipped x) z)

unfoldable pub maj : ℕ → ℕ → ℕ → ℕ
maj x y z = bit_xor (bit_xor (bit_and x y) (bit_and x z)) (bit_and y z)

unfoldable pub big_sigma0 : ℕ → ℕ
unfolding rotr
big_sigma0 x = bit_xor (bit_xor (rotr x 2) (rotr x 13)) (rotr x 22)

unfoldable pub big_sigma1 : ℕ → ℕ
unfolding rotr
big_sigma1 x = bit_xor (bit_xor (rotr x 6) (rotr x 11)) (rotr x 25)

unfoldable pub small_sigma0 : ℕ → ℕ
unfolding rotr
small_sigma0 x = bit_xor (bit_xor (rotr x 7) (rotr x 18)) (x / 2 ^ 3)

unfoldable pub small_sigma1 : ℕ → ℕ
unfolding rotr
small_sigma1 x = bit_xor (bit_xor (rotr x 17) (rotr x 19)) (x / 2 ^ 10)

abbrev pub k_table : List ℕ
k_table =
    0x428a2f98 ∷ 0x71374491 ∷ 0xb5c0fbcf ∷ 0xe9b5dba5 ∷ 0x3956c25b ∷ 0x59f111f1 ∷ 0x923f82a4
    ∷ 0xab1c5ed5 ∷ 0xd807aa98 ∷ 0x12835b01 ∷ 0x243185be ∷ 0x550c7dc3 ∷ 0x72be5d74 ∷ 0x80deb1fe
    ∷ 0x9bdc06a7 ∷ 0xc19bf174 ∷ 0xe49b69c1 ∷ 0xefbe4786 ∷ 0x0fc19dc6 ∷ 0x240ca1cc ∷ 0x2de92c6f
    ∷ 0x4a7484aa ∷ 0x5cb0a9dc ∷ 0x76f988da ∷ 0x983e5152 ∷ 0xa831c66d ∷ 0xb00327c8 ∷ 0xbf597fc7
    ∷ 0xc6e00bf3 ∷ 0xd5a79147 ∷ 0x06ca6351 ∷ 0x14292967 ∷ 0x27b70a85 ∷ 0x2e1b2138 ∷ 0x4d2c6dfc
    ∷ 0x53380d13 ∷ 0x650a7354 ∷ 0x766a0abb ∷ 0x81c2c92e ∷ 0x92722c85 ∷ 0xa2bfe8a1 ∷ 0xa81a664b
    ∷ 0xc24b8b70 ∷ 0xc76c51a3 ∷ 0xd192e819 ∷ 0xd6990624 ∷ 0xf40e3585 ∷ 0x106aa070 ∷ 0x19a4c116
    ∷ 0x1e376c08 ∷ 0x2748774c ∷ 0x34b0bcb5 ∷ 0x391c0cb3 ∷ 0x4ed8aa4a ∷ 0x5b9cca4f ∷ 0x682e6ff3
    ∷ 0x748f82ee ∷ 0x78a5636f ∷ 0x84c87814 ∷ 0x8cc70208 ∷ 0x90befffa ∷ 0xa4506ceb ∷ 0xbef9a3f7
    ∷ 0xc67178f2 ∷ []

-- `while ((data.size() % 64U) != 56U) data.push_back(0U);` at most 63 rounds.
pub fill_zeros : ℕ → List ℕ → List ℕ
fill_zeros zero bytes = bytes
fill_zeros (suc fuel) bytes =
    let more = fill_zeros fuel (bytes ++ 0 ∷ []) in if length bytes % 64 == 56 then bytes else more

-- The eight bytes of the `uint64_t` bit length, the highest first.
abbrev pub length_bytes : ℕ → List ℕ
length_bytes bit_len =
    (bit_len / 2 ^ 56 % 256)
    ∷ (bit_len / 2 ^ 48 % 256)
    ∷ (bit_len / 2 ^ 40 % 256)
    ∷ (bit_len / 2 ^ 32 % 256)
    ∷ (bit_len / 2 ^ 24 % 256)
    ∷ (bit_len / 2 ^ 16 % 256)
    ∷ (bit_len / 2 ^ 8 % 256)
    ∷ (bit_len / 2 ^ 0 % 256)
    ∷ []

-- The data with its padding.
unfoldable pub padded : List ℕ → List ℕ
unfolding fill_zeros
padded input = fill_zeros 63 (input ++ 0x80 ∷ []) ++ length_bytes (length input * 8 % 2 ^ 64)

pub record Hash : Type 0 where
  pub a : ℕ
  pub b : ℕ
  pub c : ℕ
  pub d : ℕ
  pub e : ℕ
  pub f : ℕ
  pub g : ℕ
  pub h : ℕ

abbrev pub initial_hash : Hash
initial_hash = record {
  a = 0x6a09e667;
  b = 0xbb67ae85;
  c = 0x3c6ef372;
  d = 0xa54ff53a;
  e = 0x510e527f;
  f = 0x9b05688c;
  g = 0x1f83d9ab;
  h = 0x5be0cd19;
}

-- The first `n` words of a block, of four bytes each, and the bytes after them.
pub read_words : ℕ → List ℕ → List ℕ × List ℕ
read_words zero bytes = ([], bytes)
read_words (suc n) (p ∷ q ∷ r ∷ s ∷ bytes) =
    let (words, rest) = read_words n bytes in
    (bit_or (bit_or (bit_or (p * 2 ^ 24) (q * 2 ^ 16)) (r * 2 ^ 8)) s ∷ words, rest)
read_words (suc n) bytes = ([], [])

-- `n` further words of the schedule.
pub extend : ℕ → List ℕ → List ℕ
unfolding small_sigma0 small_sigma1
extend zero w = w
extend (suc n) w =
    let i = length w in
    extend n (
      w
      ++ ((small_sigma1 (get_or w (i - 2) 0)
            + get_or w (i - 7) 0
            + small_sigma0 (get_or w (i - 15) 0)
            + get_or w (i - 16) 0)
          % k_word)
        ∷ [])

-- One round, with the entry of the table and of the schedule.
pub round : Hash → ℕ → ℕ → Hash
unfolding big_sigma0 big_sigma1 ch maj
round s k w =
    let temp1 = (s.h + big_sigma1 s.e + ch s.e s.f s.g + k + w) % k_word in
    let temp2 = (big_sigma0 s.a + maj s.a s.b s.c) % k_word in
    record {
      a = (temp1 + temp2) % k_word;
      b = s.a;
      c = s.b;
      d = s.c;
      e = (s.d + temp1) % k_word;
      f = s.e;
      g = s.f;
      h = s.g;
    }

pub rounds : Hash → List ℕ → List ℕ → Hash
unfolding round
rounds s (k ∷ ks) (w ∷ ws) = rounds (round s k w) ks ws
rounds s _ _ = s

-- `hash[i] += ...` after the rounds of a block.
abbrev pub add_hash : Hash → Hash → Hash
add_hash x y = record {
  a = (x.a + y.a) % k_word;
  b = (x.b + y.b) % k_word;
  c = (x.c + y.c) % k_word;
  d = (x.d + y.d) % k_word;
  e = (x.e + y.e) % k_word;
  f = (x.f + y.f) % k_word;
  g = (x.g + y.g) % k_word;
  h = (x.h + y.h) % k_word;
}

-- The loop over the blocks, of which there are `n`.
pub blocks : ℕ → Hash → List ℕ → Hash
unfolding read_words extend rounds
blocks zero hash bytes = hash
blocks (suc n) hash bytes =
    let (words, rest) = read_words 16 bytes in
    blocks n (add_hash hash (rounds hash k_table (extend 48 words))) rest

abbrev pub hash_words : Hash → List ℕ
hash_words s = s.a ∷ s.b ∷ s.c ∷ s.d ∷ s.e ∷ s.f ∷ s.g ∷ s.h ∷ []

-- The four bytes of each word, the highest first.
pub word_bytes : List ℕ → List ℕ
word_bytes [] = []
word_bytes (x ∷ xs) =
    (x / 2 ^ 24 % 256) ∷ (x / 2 ^ 16 % 256) ∷ (x / 2 ^ 8 % 256) ∷ (x % 256) ∷ word_bytes xs

unfoldable pub digest_bytes : List ℕ → List ℕ
unfolding padded blocks word_bytes
digest_bytes input =
    let bytes = padded input in
    word_bytes (hash_words (blocks (length bytes / 64) initial_hash bytes))

abbrev pub hex_digits : List ℕ
hex_digits = codes "0123456789abcdef"

-- `std::hex`, with a leading zero.
pub hex_bytes : List ℕ → List ℕ
hex_bytes [] = []
hex_bytes (x ∷ xs) = get_or hex_digits (x / 16) 0 ∷ get_or hex_digits (x % 16) 0 ∷ hex_bytes xs

unfoldable pub hash : List ℕ → List ℕ
unfolding digest_bytes hex_bytes
hash input = hex_bytes (digest_bytes input)
