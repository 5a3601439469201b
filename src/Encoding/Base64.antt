-- ===== src/Encoding/Base64.antt =====
-- `base64_encode` and `base64_decode` of backend-cpp/src/main.cpp, on bytes. `valb + 6` of the
-- encoder and `valb + 8` of the decoder are the numbers of bits at hand, here `bits`; `val` is a
-- 32-bit pattern.
pub mod Inverse
use Prim.Native.String.{String}
use dezhou.Prelude.{
  ℕ, zero, suc, ◌+◌, ◌-◌, ◌*◌, ◌/◌, ◌%◌, ◌^◌, Bool, true, false, List, [], ◌∷◌, ◌++◌, Option, none,
  some, ltb, leb, ◌==◌, if◌then◌else◌, length, get_or,
}
use dezhou.Text.{codes}

abbrev pub table : List ℕ
table = codes "ABCDEFGHIJKLMNOPQRSTUVWXYZabcdefghijklmnopqrstuvwxyz0123456789+/"

abbrev pub char_of : ℕ → ℕ
char_of i = get_or table i 0

-- `while (valb >= 0)`: six bits at a time. A byte adds eight bits to at most four, so the loop
-- runs twice at most.
pub sextets : ℕ → ℕ → ℕ → List ℕ × ℕ
sextets zero val bits = ([], bits)
sextets (suc fuel) val bits =
    let (out, left) = sextets fuel val (bits - 6) in
    if ltb bits 6 then ([], bits) else (char_of (val / 2 ^ (bits - 6) % 64) ∷ out, left)

pub encode_from : ℕ → ℕ → List ℕ → List ℕ
unfolding sextets
encode_from val bits [] =
    if ltb 0 bits then char_of (val * 2 ^ 8 % 2 ^ 32 / 2 ^ (bits + 2) % 64) ∷ [] else []
encode_from val bits (c ∷ cs) =
    let next = (val * 2 ^ 8 + c) % 2 ^ 32 in
    let (out, left) = sextets 2 next (bits + 8) in out ++ encode_from next left cs

-- `while (out.size() % 4) out.push_back('=')`: at most three rounds.
pub pad : ℕ → List ℕ → List ℕ
pad zero out = out
pad (suc fuel) out =
    let more = pad fuel (out ++ b'=' ∷ []) in if length out % 4 == 0 then out else more

unfoldable pub base64_encode : List ℕ → List ℕ
unfolding encode_from pad
base64_encode input = pad 3 (encode_from 0 0 input)

-- The index of a character in the table, which the array `T` holds; `none` is -1.
pub position : ℕ → ℕ → List ℕ → Option ℕ
position c i [] = none
position c i (x ∷ xs) = let rest = position c (i + 1) xs in if c == x then some i else rest

abbrev value_of : ℕ → Option ℕ
unfolding position
value_of c = position c 0 table

pub decode_from : ℕ → ℕ → List ℕ → List ℕ
unfolding position
decode_from val bits [] = []
decode_from val bits (c ∷ cs) =
    let skipped = decode_from val bits cs in
    let read : ℕ → List ℕ = λ v.
      (let next = (val * 2 ^ 6 % 2 ^ 32 + v) % 2 ^ 32 in
        let more = bits + 6 in
        if leb 8 more
        then (next / 2 ^ (more - 8) % 256) ∷ decode_from next (more - 8) cs
        else decode_from next more cs) in
    if c == b'=' then [] else elim (value_of c) [ none ↦ skipped | some v ↦ read v ]

unfoldable pub base64_decode : List ℕ → List ℕ
unfolding decode_from
base64_decode input = decode_from 0 0 input
