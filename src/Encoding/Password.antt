-- ===== src/Encoding/Password.antt =====
-- `password_digest`, `hash_password_record` and `verify_password_record` of
-- backend-cpp/src/main.cpp, on bytes. `std::stoi` is the one of the standard library.
pub mod Verified
use Prim.Native.String.{String}
use dezhou.Prelude.{
  ℕ, zero, suc, ◌+◌, ◌-◌, ◌*◌, ◌≤◌, ◌^◌, Bool, true, false, ◌&&◌, ◌||◌, not, List, [], ◌∷◌, ◌++◌,
  Option, none, some, ltb, leb, ◌==◌, if◌then◌else◌,
}
use dezhou.Prelude.Int.{ℤ, pos, negsuc, sub_ℕ}
use dezhou.Text.{codes, is_space, trim_front, same_text}
use dezhou.Encoding.Sha256.{hash}

-- The bytes before and after the first `stop`; `none` is `npos`.
pub split_at : ℕ → List ℕ → Option (List ℕ × List ℕ)
split_at stop [] = none
split_at stop (c ∷ cs) = elim (c == stop) [
  | true ↦ some ([], cs)
  | false ↦ elim (split_at stop cs) [
    | none ↦ none
    | some (before, after) ↦ some (c ∷ before, after)
  ]
]

abbrev pub is_digit : ℕ → Bool
is_digit c = leb b'0' c && leb c b'9'

-- The number of the leading digits, after `n`.
pub read_digits : ℕ → List ℕ → ℕ
read_digits n [] = n
read_digits n (c ∷ cs) =
    let more = read_digits (n * 10 + (c - b'0')) cs in if is_digit c then more else n

-- Digits that a number must begin with; a number outside of `int` throws.
pub read_number : Bool → List ℕ → Option ℤ
unfolding read_digits
read_number negative [] = none
read_number negative (c ∷ cs) =
    let n = read_digits 0 (c ∷ cs) in
    if not (is_digit c)
    then none
    else if negative
    then (if leb n (2 ^ 31) then some (sub_ℕ 0 n) else none)
    else if ltb n (2 ^ 31)
    then some (pos n)
    else none

-- `std::stoi`; `none` is an exception.
pub stoi : List ℕ → Option ℤ
unfolding read_number trim_front
stoi text = elim (trim_front text) [
  | [] ↦ none
  | c ∷ cs ↦
      if c == b'-'
      then read_number true cs
      else if c == b'+'
      then read_number false cs
      else read_number false (c ∷ cs)
]

-- The rounds after the first.
unfoldable pub digest_again : ℕ → List ℕ → List ℕ → List ℕ → List ℕ
digest_again zero password salt digest = digest
digest_again (suc n) password salt digest =
    digest_again n password salt (hash (digest ++ codes ":" ++ salt ++ codes ":" ++ password))

unfoldable pub password_digest : List ℕ → List ℕ → ℕ → List ℕ
password_digest password salt iterations =
    digest_again (iterations - 1) password salt (hash (salt ++ codes ":" ++ password))

abbrev pub k_iterations : ℕ
k_iterations = 120000

unfoldable pub hash_password_record : List ℕ → List ℕ → List ℕ
hash_password_record password salt =
    codes "v1$" ++ (salt ++ (codes "$120000$" ++ password_digest password salt k_iterations))

-- The test of the digest, for the number of iterations that was read.
unfoldable pub digest_matches : List ℕ → List ℕ → List ℕ → Option ℤ → Bool
digest_matches password salt digest none = false
digest_matches password salt digest (some (negsuc n)) = false
digest_matches password salt digest (some (pos n)) =
    if n == 0 then false else same_text (password_digest password salt n) digest

-- What is checked after each of the three dollar signs; `none` where the sign is missing.
pub check_digest : List ℕ → List ℕ → Option (List ℕ × List ℕ) → Bool
unfolding digest_matches stoi
check_digest password salt none = false
check_digest password salt (some (iterations, digest)) =
    digest_matches password salt digest (stoi iterations)

pub check_salt : List ℕ → Option (List ℕ × List ℕ) → Bool
unfolding check_digest split_at
check_salt password none = false
check_salt password (some (salt, rest)) = check_digest password salt (split_at b'$' rest)

pub check_version : List ℕ → Option (List ℕ × List ℕ) → Bool
unfolding check_salt split_at
check_version password none = false
check_version password (some (version, rest)) = check_salt password (split_at b'$' rest)

unfoldable pub verify_password_record : List ℕ → List ℕ → Bool
unfolding check_version split_at
verify_password_record password record_text = check_version password (split_at b'$' record_text)
