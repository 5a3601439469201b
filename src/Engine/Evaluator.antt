-- ===== src/Engine/Evaluator.antt =====
-- backend-cpp/src/engine/holdem_evaluator.cpp: the value of five cards, the comparison of two
-- values, and the best five of a hand. A difference of two values is a signed integer.
pub mod Order
pub mod Best
use Prim.Native.String.{String}
use text.Mathlib.Text.{◌==◌ as str_eq}
use dezhou.Prelude.{
  ℕ, zero, suc, ◌+◌, ◌-◌, Bool, true, false, ◌&&◌, ◌||◌, not, List, [], ◌∷◌, ◌++◌, map, Option,
  none, some, ltb, leb, ◌==◌, if◌then◌else◌, length, get_or, all_of,
}
use dezhou.Prelude.Int.{ℤ, pos, negsuc, sub_ℕ}
use dezhou.Prelude.Sorting.{sort_by}
use dezhou.Engine.Cards.{Card, HandEval, empty_eval}

module _ {ℓ} {A : Type ℓ} where
  -- The loop of `dfs`: with `current` chosen, each further card in turn from what is left.
  unfoldable pub choose : ℕ → List A → List A → List (List A)
  choose k current [] = []
  choose k current (x ∷ rest) =
      let taken = current ++ x ∷ [] in
      let deeper = choose k taken rest in
      (if length taken == k then taken ∷ [] else deeper) ++ choose k current rest

  unfoldable pub combinations : List A → ℕ → List (List A)
  combinations arr k = if k == 0 then [] ∷ [] else choose k [] arr

-- `a.v > b.v`, the comparator of the first sort.
abbrev pub higher : Card → Card → Bool
higher a b = ltb b.v a.v

abbrev pub descending : ℕ → ℕ → Bool
descending a b = ltb b a

abbrev pub front : List ℕ → ℕ
front [] = 0
front (x ∷ xs) = x

abbrev pub back : List ℕ → ℕ
back [] = 0
back (x ∷ []) = x
back (x ∷ y ∷ xs) = back (y ∷ xs)

-- `std::unique` on sorted values.
unfoldable pub unique : List ℕ → List ℕ
unique [] = []
unique (x ∷ []) = x ∷ []
unique (x ∷ y ∷ xs) = let rest = unique (y ∷ xs) in if x == y then rest else x ∷ rest

unfoldable pub same_list : List ℕ → List ℕ → Bool
same_list [] [] = true
same_list (x ∷ xs) (y ∷ ys) = x == y && same_list xs ys
same_list _ _ = false

abbrev wheel : List ℕ
wheel = 14 ∷ 5 ∷ 4 ∷ 3 ∷ 2 ∷ []

-- `straight` and `straight_max`.
unfoldable pub straight_high : List ℕ → Option ℕ
straight_high uniq =
    if length uniq == 5
    then (if front uniq - back uniq == 4
        then some (front uniq)
        else if same_list uniq wheel
        then some 5
        else none)
    else none

abbrev pub is_flush : List String → Bool
is_flush [] = true
is_flush (s ∷ suits) = all_of (λ t. str_eq t s) (s ∷ suits)

-- One entry of `by_freq`: how often a value occurs, and the value.
pub record Freq : Type 0 where
  pub first : ℕ
  pub second : ℕ

abbrev pub no_freq : Freq
no_freq = record { first = 0; second = 0 }

-- `counts[r] += 1` on a map in descending order of the values.
unfoldable pub count_rank : ℕ → List Freq → List Freq
count_rank r [] = record { first = 1; second = r } ∷ []
count_rank r (e ∷ es) =
    let rest = count_rank r es in
    if r == e.second
    then record e { first = e.first + 1 } ∷ es
    else if ltb e.second r
    then record { first = 1; second = r } ∷ e ∷ es
    else e ∷ rest

unfoldable pub count_ranks : List Freq → List ℕ → List Freq
count_ranks counts [] = counts
count_ranks counts (r ∷ ranks) = count_ranks (count_rank r counts) ranks

abbrev pub more_frequent : Freq → Freq → Bool
more_frequent a b = if not (a.first == b.first) then ltb b.first a.first else ltb b.second a.second

unfoldable pub by_freq_of : List ℕ → List Freq
by_freq_of ranks = sort_by more_frequent (count_ranks [] ranks)

abbrev pub eval_of : ℕ → List ℕ → String → HandEval
eval_of rank value desc = record { rank = rank; value = value; desc = desc }

-- The choice of the class, from what has been found out about the five cards.
unfoldable pub classify : List ℕ → Bool → Option ℕ → List Freq → HandEval
classify ranks flush straight by_freq =
    let a = get_or by_freq 0 no_freq in
    let b = get_or by_freq 1 no_freq in
    let c = get_or by_freq 2 no_freq in
    let d = get_or by_freq 3 no_freq in
    let plain =
      if a.first == 4
      then eval_of 8 (a.second ∷ b.second ∷ []) "Four of a Kind"
      else if a.first == 3 && b.first == 2
      then eval_of 7 (a.second ∷ b.second ∷ []) "Full House"
      else if flush
      then eval_of 6 ranks "Flush"
      else elim straight [
        | some top ↦ eval_of 5 (top ∷ []) "Straight"
        | none ↦
            if a.first == 3
            then eval_of 4 (a.second ∷ b.second ∷ c.second ∷ []) "Three of a Kind"
            else if a.first == 2 && b.first == 2
            then eval_of 3 (a.second ∷ b.second ∷ c.second ∷ []) "Two Pair"
            else if a.first == 2
            then eval_of 2 (a.second ∷ b.second ∷ c.second ∷ d.second ∷ []) "One Pair"
            else eval_of 1 ranks "High Card"
      ] in
    elim straight [
      | some top ↦
          if flush
          then (if top == 14
              then eval_of 10 (top ∷ []) "Royal Flush"
              else eval_of 9 (top ∷ []) "Straight Flush")
          else plain
      | none ↦ plain
    ]

unfoldable pub evaluate5 : List Card → HandEval
evaluate5 cards =
    let sorted = sort_by higher cards in
    let ranks = map (λ c. c.v) sorted in
    let suits = map (λ c. c.s) sorted in
    let uniq = sort_by descending (unique (sort_by (λ a b. ltb a b) ranks)) in
    classify ranks (is_flush suits) (straight_high uniq) (by_freq_of ranks)

-- The loop over the common length of the two values.
unfoldable pub compare_values : List ℕ → List ℕ → ℤ
compare_values (x ∷ xs) (y ∷ ys) =
    let rest = compare_values xs ys in if not (x == y) then sub_ℕ x y else rest
compare_values _ _ = pos 0

unfoldable pub compare_hands : HandEval → HandEval → ℤ
compare_hands a b =
    if not (a.rank == b.rank) then sub_ℕ a.rank b.rank else compare_values a.value b.value

-- `result > 0` and `result == 0`.
abbrev pub is_positive : ℤ → Bool
is_positive (pos zero) = false
is_positive (pos (suc n)) = true
is_positive (negsuc n) = false

abbrev pub is_zero : ℤ → Bool
is_zero (pos zero) = true
is_zero (pos (suc n)) = false
is_zero (negsuc n) = false

-- The loop of `best_hand`; `none` is `!has_best`.
unfoldable pub best_of : Option HandEval → List (List Card) → Option HandEval
best_of best [] = best
best_of none (combo ∷ combos) = best_of (some (evaluate5 combo)) combos
best_of (some best) (combo ∷ combos) =
    let current = evaluate5 combo in
    best_of (some (if is_positive (compare_hands current best) then current else best)) combos

unfoldable pub best_hand : List Card → HandEval
best_hand cards = elim (best_of none (combinations cards 5)) [
  | none ↦ empty_eval
  | some best ↦ best
]
