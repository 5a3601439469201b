-- ===== src/Table/Chips/Split.antt =====
-- Paying one pot out: which seat gets how much.
use dezhou.Prelude.{
  ℕ, zero, suc, ◌+◌, ◌*◌, ◌/◌, ◌%◌, ◌<◌, ◌≡◌, refl, subst, sym, false, List, [], ◌∷◌, keep, ◌==◌,
  if◌then◌else◌, arith, All, length, none, some,
}
use dezhou.Prelude.Maps.{find, adjust}
use dezhou.Prelude.Sets.{member}
use dezhou.Prelude.Sorting.{All-sort_by}
use dezhou.Engine.Pots.{Pot}
use dezhou.Table.State.{PlayerState, k_seats}
use dezhou.Table.Settle.{
  Settlement, award, award_shares, award_odd_chips, split_pot, winners_by_odd_chip_priority,
  add_chips, odd_chip_before,
}
use dezhou.Table.Settle.OddChips.{
  IsDistinct, clockwise, clockwise-IsDistinct, keep-IsDistinct,
  winners_by_odd_chip_priority-clockwise,
}
use dezhou.Table.Chips.Payout.{players_of, Seated, award-Pays, award_shares-Pays, Seated-Pays}

-- The first `n` entries.
abbrev pub take : ℕ → List ℕ → List ℕ
take zero is = []
take (suc n) [] = []
take (suc n) (i ∷ is) = i ∷ take n is

member-take : (n i : ℕ) (is : List ℕ) → member i is ≡ false → member i (take n is) ≡ false
member-take zero i is h = refl
member-take (suc n) i [] h = refl
member-take (suc n) i (j ∷ is) h = ground (arith, h, member-take n i is)

-- The chips in front of a seat, zero where nobody plays.
abbrev pub chips_at : ℕ → List (ℕ × PlayerState) → ℕ
chips_at i m = elim (find i m) [ none ↦ 0 | some p ↦ p.chips ]

chips_at-adjust :
    (i j n : ℕ) (m : List (ℕ × PlayerState))
    → Seated m j
    → chips_at i (adjust j (add_chips n) m) ≡ chips_at i m + (if i == j then n else 0)
unfolding find adjust
chips_at-adjust i j n [] h = absurd (ground arith)
chips_at-adjust i j n ((k, p) ∷ m) h = ground (arith, chips_at-adjust i j n m)

chips_at-award :
    (i j n : ℕ) (st : Settlement)
    → Seated (players_of st) j
    → chips_at i (players_of (award j n st))
      ≡ chips_at i (players_of st) + (if i == j then n else 0)
unfolding award
chips_at-award i j n st h = chips_at-adjust i j n (players_of st) h

chips_at-award_shares :
    (i share : ℕ) (is : List ℕ) (st : Settlement)
    → IsDistinct is
    → All (Seated (players_of st)) is
    → chips_at i (players_of (award_shares share is st))
      ≡ chips_at i (players_of st) + (if member i is then share else 0)
unfolding award_shares
chips_at-award_shares i share [] st d h = omega arith
chips_at-award_shares i share (j ∷ is) st d h =
    let first = award-Pays j share st h.0 in
    let seated = Seated-Pays share (players_of st) (players_of (award j share st)) is first h.1 in
    let rest = chips_at-award_shares i share is (award j share st) d.1 seated in
    ground (arith, rest, chips_at-award i j share st h.0, d.0)

chips_at-award_odd_chips :
    (i n : ℕ) (is : List ℕ) (st : Settlement)
    → IsDistinct is
    → All (Seated (players_of st)) is
    → chips_at i (players_of (award_odd_chips n is st))
      ≡ chips_at i (players_of st) + (if member i (take n is) then 1 else 0)
unfolding award_odd_chips
chips_at-award_odd_chips i zero is st d h = omega arith
chips_at-award_odd_chips i (suc n) [] st d h = omega arith
chips_at-award_odd_chips i (suc n) (j ∷ is) st d h =
    let first = award-Pays j 1 st h.0 in
    let seated = Seated-Pays 1 (players_of st) (players_of (award j 1 st)) is first h.1 in
    let rest = chips_at-award_odd_chips i n is (award j 1 st) d.1 seated in
    ground (arith, rest, chips_at-award i j 1 st h.0, member-take n j is d.0)

-- The winners clockwise from the dealer's left.
abbrev pub from_dealer_left : ℕ → List ℕ → List ℕ
from_dealer_left dealer winners = keep (λ i. member i winners) (clockwise dealer)

-- What the split of a pot pays to a seat: a winner's equal share, and one of the odd chips to each
-- of the first winners clockwise from the dealer's left.
abbrev pub paid_to : ℕ → ℕ → ℕ → List ℕ → ℕ
paid_to i dealer amount winners =
    let n = length winners in
    (if member i winners then amount / n else 0)
    + (if member i (take (amount % n) (from_dealer_left dealer winners)) then 1 else 0)

-- The split of a pot among seated winners, no two the same, with them and the dealer on the ten
-- seats of the table, pays every winner the amount divided by their number, and one chip more to as
-- many of them as the division leaves over, the first ones clockwise from the dealer's left. No
-- other seat's chips change.
pub chips_at-split_pot :
    (i : ℕ) (pot : Pot) (winners : List ℕ) (st : Settlement)
    → st.room.dealer_seat_idx < k_seats
    → IsDistinct winners
    → All (λ w. w < k_seats) winners
    → All (Seated (players_of st)) winners
    → chips_at i (players_of (split_pot pot winners st))
      ≡ chips_at i (players_of st) + paid_to i st.room.dealer_seat_idx pot.amount winners
unfolding split_pot winners_by_odd_chip_priority
chips_at-split_pot i pot winners st dealer_seat d seats h =
    let dealer = st.room.dealer_seat_idx in
    let share = pot.amount / length winners in
    let shared = award_shares share winners st in
    let seated =
      Seated-Pays (share * length winners) (players_of st) (players_of shared) winners
        (award_shares-Pays share winners st h) h in
    let before = odd_chip_before dealer in
    let order = winners_by_odd_chip_priority-clockwise st.room winners dealer_seat d seats in
    let next = All-sort_by before (Seated (players_of shared)) winners seated in
    let odd =
      subst
        (λ is.
          chips_at i (players_of (award_odd_chips (pot.amount % length winners) is shared))
          ≡ chips_at i (players_of shared)
            + (if member i (take (pot.amount % length winners) (from_dealer_left dealer winners))
                then 1
                else 0))
        (sym order)
        (chips_at-award_odd_chips i (pot.amount % length winners) (from_dealer_left dealer winners)
          shared
          (keep-IsDistinct (λ i. member i winners) (clockwise dealer)
            (clockwise-IsDistinct dealer dealer_seat))
          (subst (All (Seated (players_of shared))) order next)) in
    omega (arith, odd, chips_at-award_shares i share winners st d h)
