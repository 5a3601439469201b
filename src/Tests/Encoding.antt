-- ===== src/Tests/Encoding.antt =====
-- Concrete texts, hashes and passwords.
use dezhou.Prelude.{ℕ, ◌%◌, ◌≡◌, ◌↔◌, refl, true, List, [], ◌∷◌, length, All, arith}
use dezhou.Text.{codes}
use dezhou.Encoding.Base64.{base64_encode, base64_decode}
use dezhou.Encoding.Base64.Inverse.{base64_decode-base64_encode}
use dezhou.Encoding.Sha256.{hash, padded}
use dezhou.Encoding.Sha256.Sizes.{is_hex_digit, hash-digits}
use dezhou.Encoding.Password.{
  hash_password_record, verify_password_record, password_digest, k_iterations,
}
use dezhou.Encoding.Password.Verified.{IsPlain, verify_password_record-hash_password_record}

-- Four bytes, so that the last group is filled up with two signs.
abbrev four_bytes : List ℕ
four_bytes = 0 ∷ 255 ∷ 61 ∷ 200 ∷ []

base64_decode-base64_encode_example : base64_decode (base64_encode four_bytes) ≡ four_bytes
base64_decode-base64_encode_example =
    base64_decode-base64_encode four_bytes
      (omega arith, (omega arith, (omega arith, (omega arith, tt))))

encode_four : base64_encode four_bytes ≡ codes "AP89yA=="
unfolding base64_encode
encode_four = refl

-- The test vectors of FIPS 180-2, of one block and of two.
hash_abc :
    hash (codes "abc") ≡ codes "ba7816bf8f01cfea414140de5dae2223b00361a396177a9cb410ff61f20015ad"
unfolding hash
hash_abc = refl

hash_two_blocks :
    hash (codes "abcdbcdecdefdefgefghfghighijhijkijkljklmklmnlmnomnopnopq")
    ≡ codes "248d6a61d20638b8e5c026930c3e6039a33ce45964ff2167f6ecedd419db06c1"
unfolding hash
hash_two_blocks = refl

hash-digits_example :
    (length (padded (codes "abc")) % 64 ≡ 0)
    × (length (hash (codes "abc")) ≡ 64)
    × All (λ c. is_hex_digit c ≡ true) (hash (codes "abc"))
hash-digits_example = hash-digits (codes "abc")

abbrev some_salt : List ℕ
some_salt = codes "5e"

some_salt-IsPlain : IsPlain some_salt
some_salt-IsPlain = (refl, (refl, tt))

verify_password_record-hash_password_record_example :
    (verify_password_record (codes "secret") (hash_password_record (codes "secret") some_salt)
      ≡ true)
    × ((verify_password_record (codes "guess") (hash_password_record (codes "secret") some_salt)
          ≡ true)
        ↔ (password_digest (codes "guess") some_salt k_iterations
            ≡ password_digest (codes "secret") some_salt k_iterations))
verify_password_record-hash_password_record_example =
    verify_password_record-hash_password_record (codes "secret") (codes "guess") some_salt
      some_salt-IsPlain
