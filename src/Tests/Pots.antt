-- ===== src/Tests/Pots.antt =====
-- A showdown of three seats, one of which may not win the pot.
use dezhou.Prelude.{ℕ, ◌<◌, ◌≡◌, refl, true, List, [], ◌∷◌, length, All, keep, arith}
use dezhou.Prelude.Sets.{member}
use dezhou.Table.Settle.{EvalRow, best_row, winning_seats, winners_by_odd_chip_priority}
use dezhou.Engine.Evaluator.{compare_hands, compare_values}
use dezhou.Table.Settle.OddChips.{clockwise, winners_by_odd_chip_priority-clockwise}
use dezhou.Table.Settle.Winners.{IsUnbeatenBy, takes_part, best_row-IsUnbeatenBy}
use dezhou.Tests.Table.{room}

abbrev row : ℕ → ℕ → List ℕ → EvalRow
row i rank value = record { seat_idx = i; hand = record { rank = rank; value = value; desc = "" } }

abbrev evals : List EvalRow
evals = row 0 9 (14 ∷ []) ∷ row 1 7 (9 ∷ 4 ∷ []) ∷ row 2 7 (9 ∷ 3 ∷ []) ∷ []

best_row-IsUnbeatenBy_example :
    All (IsUnbeatenBy (1 ∷ 2 ∷ []) (row 1 7 (9 ∷ 4 ∷ []))) evals
    × (takes_part (1 ∷ 2 ∷ []) (row 1 7 (9 ∷ 4 ∷ [])) ≡ true)
    × (0 < length (winning_seats (1 ∷ 2 ∷ []) (row 1 7 (9 ∷ 4 ∷ [])) evals))
unfolding best_row compare_hands compare_values
best_row-IsUnbeatenBy_example =
    best_row-IsUnbeatenBy (1 ∷ 2 ∷ []) evals (row 1 7 (9 ∷ 4 ∷ [])) (refl, (refl, (refl, tt))) refl

winners_by_odd_chip_priority-clockwise_example :
    winners_by_odd_chip_priority room (0 ∷ 2 ∷ 1 ∷ [])
    ≡ keep (λ i. member i (0 ∷ 2 ∷ 1 ∷ [])) (clockwise 0)
winners_by_odd_chip_priority-clockwise_example =
    winners_by_odd_chip_priority-clockwise room (0 ∷ 2 ∷ 1 ∷ []) (omega arith)
      (refl, (refl, (refl, tt))) (omega arith, (omega arith, (omega arith, tt)))

dealer_last : keep (λ i. member i (0 ∷ 2 ∷ 1 ∷ [])) (clockwise 0) ≡ 1 ∷ 2 ∷ 0 ∷ []
dealer_last = refl
