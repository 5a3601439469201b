-- ===== src/Table/Chips.antt =====
-- The chips on the table: what backend-cpp/src/main.cpp moves from the stacks into the bets and, at
-- the end of a hand, from the pots to the winners. A pot that nobody may win is not paid to anyone.
pub mod Payout
pub mod Split
pub mod Pots
pub mod Finish
pub mod Streets
pub mod Actions
use dezhou.Prelude.{ℕ, ◌+◌, ◌≡◌, refl, List, [], ◌∷◌, arith, Bool, true}
use dezhou.Prelude.Maps.{sum_values}
use dezhou.Table.State.{PlayerState, Room}

-- The chips in front of the players, and what they put into the current hand.
abbrev pub stacks : List (ℕ × PlayerState) → ℕ
stacks = sum_values (λ p. p.chips)

abbrev pub bets : List (ℕ × PlayerState) → ℕ
bets = sum_values (λ p. p.hand_contribution)

-- All chips of the players in a hand that is not yet settled.
abbrev pub table_total : Room → ℕ
table_total room = stacks room.players + bets room.players
