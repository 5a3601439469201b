-- ===== src/Tests/Engine.antt =====
-- Runs of the rules of backend-cpp/src/engine, and their theorems at concrete hands.
use Prim.Native.String.{String}
use dezhou.Prelude.{map, ℕ, ◌≡◌, refl, Bool, true, false, List, [], ◌∷◌, ◌++◌, All}
use dezhou.Prelude.Sets.{IsAscending}
use dezhou.Engine.Cards.{Card}
use dezhou.Engine.RoundPhase.{
  RoundPhase, to_string, round_phase_from_string, round_phase_from_string-to_string,
}
use dezhou.Engine.Pots.{PotContributor, build_pots}
use dezhou.Engine.Pots.Totals.{total_amount, total_committed, build_pots_total, up_to}
use dezhou.Engine.Pots.Shares.{
  IsFairPot, heights, build_pots-IsFairPot, winnable, winnable-build_pots,
}
use dezhou.Prelude.Sorting.{sort_by, insert_by}
use dezhou.Engine.Evaluator.{
  unique, straight_high, same_list, by_freq_of, count_ranks, count_rank, classify, evaluate5,
  best_hand,
}
use dezhou.Engine.Evaluator.Order.{beats}
use dezhou.Engine.Evaluator.Best.{Picks, IsChoice, best_hand_unbeaten}

round_phase_from_string-to_string_example :
    round_phase_from_string (to_string RoundPhase.flop) ≡ RoundPhase.flop
round_phase_from_string-to_string_example = round_phase_from_string-to_string RoundPhase.flop

-- A short stack, a folded player, and two that put in more.
abbrev contributor : ℕ → ℕ → Bool → PotContributor
contributor i n e = record { seat_idx = i; committed = n; showdown_eligible = e }

abbrev short_stack : List PotContributor
short_stack = contributor 1 30 true ∷ contributor 3 70 false ∷ []

abbrev deep_stacks : List PotContributor
deep_stacks = contributor 5 100 true ∷ contributor 8 100 true ∷ []

build_pots_total_example :
    total_amount (build_pots (short_stack ++ deep_stacks))
    ≡ total_committed (short_stack ++ deep_stacks)
build_pots_total_example = build_pots_total (short_stack ++ deep_stacks)

build_pots-IsFairPot_example :
    All (IsFairPot (short_stack ++ deep_stacks)) (build_pots (short_stack ++ deep_stacks))
    × IsAscending (heights (build_pots (short_stack ++ deep_stacks)))
build_pots-IsFairPot_example = build_pots-IsFairPot (short_stack ++ deep_stacks)

winnable-build_pots_example :
    winnable 1 (build_pots (contributor 3 70 false ∷ [] ++ contributor 1 30 true ∷ deep_stacks))
    ≡ up_to 30 (contributor 3 70 false ∷ [] ++ contributor 1 30 true ∷ deep_stacks)
winnable-build_pots_example =
    winnable-build_pots (contributor 3 70 false ∷ []) deep_stacks (contributor 1 30 true) (refl, tt)
      (refl, (refl, tt))

abbrev card : String → ℕ → Card
card s v = record { s = s; r = ""; v = v }

-- A full house and two cards that do not help it.
abbrev full_house : List Card
full_house = card "♠" 9 ∷ card "♥" 9 ∷ card "♣" 9 ∷ card "♠" 4 ∷ card "♦" 4 ∷ []

abbrev seven_cards : List Card
seven_cards = card "♣" 2 ∷ card "♦" 3 ∷ full_house

all_picked {ℓ} : {A : Type ℓ} (xs : List A) → Picks xs xs
all_picked [] = Picks.nothing
all_picked (x ∷ xs) = Picks.take (all_picked xs)

best_hand_unbeaten_example :
    (beats (evaluate5 full_house) (best_hand seven_cards) ≡ false)
    × IsChoice 5 seven_cards (best_hand seven_cards)
best_hand_unbeaten_example =
    best_hand_unbeaten full_house seven_cards (Picks.skip (Picks.skip (all_picked full_house))) refl

-- A full house, the lowest straight, and a royal flush, which beats both.
full_house_value : (evaluate5 full_house).value ≡ 9 ∷ 4 ∷ []
unfolding evaluate5 sort_by insert_by unique straight_high same_list by_freq_of count_ranks
    count_rank classify
full_house_value = refl

abbrev wheel_straight : List Card
wheel_straight = card "♠" 14 ∷ card "♥" 2 ∷ card "♣" 4 ∷ card "♠" 3 ∷ card "♦" 5 ∷ []

wheel_straight_eval :
    evaluate5 wheel_straight ≡ record { rank = 5; value = 5 ∷ []; desc = "Straight" }
unfolding evaluate5 sort_by insert_by unique straight_high same_list by_freq_of count_ranks
    count_rank classify
wheel_straight_eval = refl

abbrev royal_flush : List Card
royal_flush = card "♠" 14 ∷ card "♠" 12 ∷ card "♠" 13 ∷ card "♠" 10 ∷ card "♠" 11 ∷ []

royal_flush_rank : (evaluate5 royal_flush).rank ≡ 10
unfolding evaluate5 sort_by insert_by unique straight_high same_list by_freq_of count_ranks
    count_rank classify
royal_flush_rank = refl

-- The side pots of the short stack, the folded player and the two deep stacks.
side_pots : map (λ p. p.amount) (build_pots (short_stack ++ deep_stacks)) ≡ 120 ∷ 120 ∷ 60 ∷ []
unfolding build_pots
side_pots = refl
