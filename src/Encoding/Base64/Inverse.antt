-- ===== src/Encoding/Base64/Inverse.antt =====
-- Decoding undoes encoding.
use mathlib.Core.List.{append_assoc, append-nil}
use dezhou.Prelude.{
  sym, ℕ, zero, suc, ◌+◌, ◌-◌, ◌*◌, ◌/◌, ◌%◌, ◌^◌, ◌<◌, ◌≡◌, refl, ◌∙◌, ap, Bool, true, false, ◌&&◌,
  List, [], ◌∷◌, ◌++◌, some, leb, ◌==◌, if◌then◌else◌, All, arith, not, none, inl, inr, Bool-cases,
  Option-cases, length,
}
use dezhou.Prelude.Ranges.{holds_at_rows, row_holds}
use dezhou.Encoding.Base64.{
  char_of, sextets, encode_from, pad, base64_encode, position, value_of, decode_from, base64_decode,
}

is_read : ℕ → Bool
unfolding position
is_read i =
    not (char_of i == b'=') && elim (value_of (char_of i)) [ none ↦ false | some j ↦ i == j ]

table_read : holds_at_rows is_read 64 ≡ true
unfolding holds_at_rows is_read
table_read = refl

read_parts :
    (c i : ℕ)
    → (not (c == b'=') && elim (value_of c) [ none ↦ false | some j ↦ i == j ]) ≡ true
    → ((c == b'=') ≡ false) × (value_of c ≡ some i)
read_parts c i h = elim (Option-cases (value_of c)) [
  | inl e ↦ absurd (ground (arith, rw e at h))
  | inr (j, e) ↦ let h' = rw e at h in (ground (arith, h'), e ∙ ap some (ground (arith, h')))
]

value_of-char_of :
    (i : ℕ) → i < 64 → ((char_of i == b'=') ≡ false) × (value_of (char_of i) ≡ some i)
unfolding is_read position
value_of-char_of i h =
    let read = row_holds is_read 64 i h table_read in read_parts (char_of i) i read

-- What the decoder holds after a character.
abbrev shifted : ℕ → ℕ → ℕ
shifted v x = (v * 2 ^ 6 % 2 ^ 32 + x) % 2 ^ 32

decode_char :
    (v bits x : ℕ) (cs : List ℕ)
    → x < 64
    → decode_from v bits (char_of x ∷ cs) ≡ (
        if leb 8 (bits + 6)
        then (shifted v x / 2 ^ (bits + 6 - 8) % 256) ∷ decode_from (shifted v x) (bits + 6 - 8) cs
        else decode_from (shifted v x) (bits + 6) cs)
unfolding decode_from
decode_char v bits x cs h = let (plain, found) = value_of-char_of x h in rw (plain, found) refl

-- Four characters give three bytes.
decode_quad :
    (v x y z u : ℕ) (cs : List ℕ)
    → x < 64
    → y < 64
    → z < 64
    → u < 64
    → decode_from v 0 (char_of x ∷ char_of y ∷ char_of z ∷ char_of u ∷ cs)
      ≡ (x * 4 + y / 16)
        ∷ (y % 16 * 16 + z / 4)
        ∷ (z % 4 * 64 + u)
        ∷ decode_from (shifted (shifted (shifted (shifted v x) y) z) u) 0 cs
decode_quad v x y z u cs hx hy hz hu =
    let v1 = shifted v x in
    let v2 = shifted v1 y in
    let v3 = shifted v2 z in
    let v4 = shifted v3 u in
    let b1 : v2 / 2 ^ 4 % 256 ≡ x * 4 + y / 16 = omega arith in
    let b2 : v3 / 2 ^ 2 % 256 ≡ y % 16 * 16 + z / 4 = omega arith in
    let b3 : v4 / 2 ^ 0 % 256 ≡ z % 4 * 64 + u = omega arith in
    decode_char v 0 x (char_of y ∷ char_of z ∷ char_of u ∷ cs) hx
    ∙ decode_char v1 6 y (char_of z ∷ char_of u ∷ cs) hy
    ∙ (λ i.
        b1 i
        ∷ (decode_char v2 4 z (char_of u ∷ cs) hz
              ∙ (λ j. b2 j ∷ (decode_char v3 2 u cs hu ∙ (λ k. b3 k ∷ decode_from v4 0 cs)) j))
            i)

-- The characters that fill up the last group.
equals : ℕ → List ℕ
equals zero = []
equals (suc k) = b'=' ∷ equals k

decode-equals : (v bits k : ℕ) → decode_from v bits (equals k) ≡ []
unfolding decode_from equals
decode-equals v bits zero = refl
decode-equals v bits (suc k) = refl

pad-equals : (fuel : ℕ) (out : List ℕ) → (k : ℕ) × (pad fuel out ≡ out ++ equals k)
unfolding pad equals
pad-equals zero out = (0, sym (append-nil out))
pad-equals (suc fuel) out =
    let (k, e) = pad-equals fuel (out ++ b'=' ∷ []) in
    elim (Bool-cases (length out % 4 == 0)) [
      | inl full ↦ (0, rw full (sym (append-nil out)))
      | inr open_group ↦ (suc k, rw open_group (e ∙ append_assoc out (b'=' ∷ []) (equals k)))
    ]

-- The bits at hand after a byte.
abbrev filled : ℕ → ℕ → ℕ
filled w c = (w * 2 ^ 8 + c) % 2 ^ 32

encode_triple :
    (w a b c : ℕ) (cs : List ℕ)
    → a < 256
    → b < 256
    → c < 256
    → encode_from w 0 (a ∷ b ∷ c ∷ cs)
      ≡ char_of (a / 4)
        ∷ char_of (a % 4 * 16 + b / 16)
        ∷ char_of (b % 16 * 4 + c / 64)
        ∷ char_of (c % 64)
        ∷ encode_from (filled (filled (filled w a) b) c) 0 cs
unfolding encode_from sextets
encode_triple w a b c cs ha hb hc =
    let w1 = filled w a in
    let w2 = filled w1 b in
    let w3 = filled w2 c in
    let s1 : w1 / 2 ^ 2 % 64 ≡ a / 4 = omega arith in
    let s2 : w2 / 2 ^ 4 % 64 ≡ a % 4 * 16 + b / 16 = omega arith in
    let s3 : w3 / 2 ^ 6 % 64 ≡ b % 16 * 4 + c / 64 = omega arith in
    let s4 : w3 / 2 ^ 0 % 64 ≡ c % 64 = omega arith in
    λ i. char_of (s1 i) ∷ char_of (s2 i) ∷ char_of (s3 i) ∷ char_of (s4 i) ∷ encode_from w3 0 cs

encode_one :
    (w a : ℕ) → a < 256 → encode_from w 0 (a ∷ []) ≡ char_of (a / 4) ∷ char_of (a % 4 * 16) ∷ []
unfolding encode_from sextets
encode_one w a ha =
    let w1 = filled w a in
    let s1 : w1 / 2 ^ 2 % 64 ≡ a / 4 = omega arith in
    let s2 : w1 * 2 ^ 8 % 2 ^ 32 / 2 ^ 4 % 64 ≡ a % 4 * 16 = omega arith in
    λ i. char_of (s1 i) ∷ char_of (s2 i) ∷ []

encode_two :
    (w a b : ℕ)
    → a < 256
    → b < 256
    → encode_from w 0 (a ∷ b ∷ [])
      ≡ char_of (a / 4) ∷ char_of (a % 4 * 16 + b / 16) ∷ char_of (b % 16 * 4) ∷ []
unfolding encode_from sextets
encode_two w a b ha hb =
    let w1 = filled w a in
    let w2 = filled w1 b in
    let s1 : w1 / 2 ^ 2 % 64 ≡ a / 4 = omega arith in
    let s2 : w2 / 2 ^ 4 % 64 ≡ a % 4 * 16 + b / 16 = omega arith in
    let s3 : w2 * 2 ^ 8 % 2 ^ 32 / 2 ^ 6 % 64 ≡ b % 16 * 4 = omega arith in
    λ i. char_of (s1 i) ∷ char_of (s2 i) ∷ char_of (s3 i) ∷ []

decode_two :
    (v x y k : ℕ)
    → x < 64
    → y < 64
    → decode_from v 0 (char_of x ∷ char_of y ∷ equals k) ≡ (x * 4 + y / 16) ∷ []
decode_two v x y k hx hy =
    let v1 = shifted v x in
    let v2 = shifted v1 y in
    let b1 : v2 / 2 ^ 4 % 256 ≡ x * 4 + y / 16 = omega arith in
    decode_char v 0 x (char_of y ∷ equals k) hx
    ∙ decode_char v1 6 y (equals k) hy
    ∙ (λ i. b1 i ∷ decode-equals v2 4 k i)

decode_three :
    (v x y z k : ℕ)
    → x < 64
    → y < 64
    → z < 64
    → decode_from v 0 (char_of x ∷ char_of y ∷ char_of z ∷ equals k)
      ≡ (x * 4 + y / 16) ∷ (y % 16 * 16 + z / 4) ∷ []
decode_three v x y z k hx hy hz =
    let v1 = shifted v x in
    let v2 = shifted v1 y in
    let v3 = shifted v2 z in
    let b1 : v2 / 2 ^ 4 % 256 ≡ x * 4 + y / 16 = omega arith in
    let b2 : v3 / 2 ^ 2 % 256 ≡ y % 16 * 16 + z / 4 = omega arith in
    decode_char v 0 x (char_of y ∷ char_of z ∷ equals k) hx
    ∙ decode_char v1 6 y (char_of z ∷ equals k) hy
    ∙ (λ i. b1 i ∷ (decode_char v2 4 z (equals k) hz ∙ (λ j. b2 j ∷ decode-equals v3 2 k j)) i)

-- From any state of both loops between two groups.
decode_from-encode_from :
    (v w k : ℕ) (xs : List ℕ)
    → All (λ x. x < 256) xs
    → decode_from v 0 (encode_from w 0 xs ++ equals k) ≡ xs
unfolding encode_from
decode_from-encode_from v w k [] h = decode-equals v 0 k
decode_from-encode_from v w k (a ∷ []) h =
    let e : a / 4 * 4 + a % 4 * 16 / 16 ≡ a = omega arith in
    ap (λ out. decode_from v 0 (out ++ equals k)) (encode_one w a h.0)
    ∙ decode_two v (a / 4) (a % 4 * 16) k (omega arith) (omega arith)
    ∙ (λ i. e i ∷ [])
decode_from-encode_from v w k (a ∷ b ∷ []) h =
    let x = a / 4 in
    let y = a % 4 * 16 + b / 16 in
    let z = b % 16 * 4 in
    let e1 : x * 4 + y / 16 ≡ a = omega arith in
    let e2 : y % 16 * 16 + z / 4 ≡ b = omega arith in
    ap (λ out. decode_from v 0 (out ++ equals k)) (encode_two w a b h.0 h.1.0)
    ∙ decode_three v x y z k (omega arith) (omega arith) (omega arith)
    ∙ (λ i. e1 i ∷ e2 i ∷ [])
decode_from-encode_from v w k (a ∷ b ∷ c ∷ cs) h =
    let x = a / 4 in
    let y = a % 4 * 16 + b / 16 in
    let z = b % 16 * 4 + c / 64 in
    let u = c % 64 in
    let w3 = filled (filled (filled w a) b) c in
    let v4 = shifted (shifted (shifted (shifted v x) y) z) u in
    let e1 : x * 4 + y / 16 ≡ a = omega arith in
    let e2 : y % 16 * 16 + z / 4 ≡ b = omega arith in
    let e3 : z % 4 * 64 + u ≡ c = omega arith in
    let rest = decode_from-encode_from v4 w3 k cs h.1.1.1 in
    ap (λ out. decode_from v 0 (out ++ equals k)) (encode_triple w a b c cs h.0 h.1.0 h.1.1.0)
    ∙ decode_quad v x y z u (encode_from w3 0 cs ++ equals k) (omega arith) (omega arith)
        (omega arith) (omega arith)
    ∙ (λ i. e1 i ∷ e2 i ∷ e3 i ∷ rest i)

-- Decoding what was encoded gives back the same bytes, whatever the bytes are.
pub base64_decode-base64_encode :
    (xs : List ℕ) → All (λ x. x < 256) xs → base64_decode (base64_encode xs) ≡ xs
unfolding base64_decode base64_encode
base64_decode-base64_encode xs h =
    let (k, e) = pad-equals 3 (encode_from 0 0 xs) in
    ap (decode_from 0 0) e ∙ decode_from-encode_from 0 0 k xs h
