-- ===== src/Text.antt =====
-- Names as bytes: the text helpers of backend-cpp/src/main.cpp. `isspace`, `tolower`, `toupper`
-- and `isalnum` are those of the "C" locale, which the server never changes.
use Prim.Native.String.{String}
use Prim.Native.Char.{code}
use mathlib.Core.List.{reverse}
use dezhou.Prelude.{
  ℕ, ◌+◌, ◌-◌, Bool, true, false, ◌&&◌, ◌||◌, not, List, [], ◌∷◌, map, ltb, leb, ◌==◌,
  if◌then◌else◌, all_of, length, is_empty,
}

-- The bytes of an ASCII literal.
abbrev pub codes : String → List ℕ
codes String.[] = []
codes (String.◌∷◌ c s) = code c ∷ codes s

abbrev pub is_space : ℕ → Bool
is_space c = c == 32 || (leb 9 c && leb c 13)

-- `erase(begin, find_if(..., not space))`.
unfoldable pub trim_front : List ℕ → List ℕ
trim_front [] = []
trim_front (c ∷ cs) = let rest = trim_front cs in if is_space c then rest else c ∷ cs

unfoldable pub trim_copy : List ℕ → List ℕ
unfolding trim_front
trim_copy value = reverse (trim_front (reverse (trim_front value)))

abbrev pub lower : ℕ → ℕ
lower c = if leb b'A' c && leb c b'Z' then c + 32 else c

abbrev pub upper : ℕ → ℕ
upper c = if leb b'a' c && leb c b'z' then c - 32 else c

unfoldable pub to_lower_ascii : List ℕ → List ℕ
to_lower_ascii = map lower

unfoldable pub to_upper_ascii : List ℕ → List ℕ
to_upper_ascii = map upper

unfoldable pub normalize_username : List ℕ → List ℕ
unfolding to_lower_ascii trim_copy
normalize_username value = to_lower_ascii (trim_copy value)

unfoldable pub normalize_display_name : List ℕ → List ℕ
unfolding trim_copy
normalize_display_name value = trim_copy value

unfoldable pub normalize_action_name : List ℕ → List ℕ
unfolding to_lower_ascii trim_copy
normalize_action_name value = to_lower_ascii (trim_copy value)

unfoldable pub to_upper_room_code : List ℕ → List ℕ
unfolding to_upper_ascii trim_copy
to_upper_room_code value = to_upper_ascii (trim_copy value)

abbrev pub is_alnum : ℕ → Bool
is_alnum c = (leb b'0' c && leb c b'9') || (leb b'A' c && leb c b'Z') || (leb b'a' c && leb c b'z')

unfoldable pub is_valid_username : List ℕ → Bool
is_valid_username username =
    if ltb (length username) 3 || ltb 24 (length username)
    then false
    else all_of (λ c. is_alnum c || c == b'_' || c == b'-') username

unfoldable pub is_valid_display_name : List ℕ → Bool
is_valid_display_name display_name =
    if is_empty display_name || ltb 48 (length display_name)
    then false
    else all_of (λ c. leb 0x20 c && not (c == 0x7f)) display_name

unfoldable pub same_text : List ℕ → List ℕ → Bool
same_text [] [] = true
same_text (x ∷ xs) (y ∷ ys) = x == y && same_text xs ys
same_text _ _ = false
