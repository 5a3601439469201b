-- ===== src/Table/Betting.antt =====
-- Bets and whose turn it is: `place_bet`, `post_blind` and the set of pending seats of
-- backend-cpp/src/main.cpp.
use dezhou.Prelude.{
  ℕ, ◌+◌, ◌-◌, Bool, false, ◌||◌, not, List, [], ◌∷◌, Option, none, some, leb, if◌then◌else◌, keep,
  min, max, is_empty,
}
use dezhou.Prelude.Int.{ℤ, pos, negsuc}
use dezhou.Prelude.Sets.{member, insert}
use dezhou.Prelude.Maps.{adjust}
use dezhou.Table.State.{Room, Env, PlayerState}
use dezhou.Table.Seats.{get_player, get_actable_seats, next_seat_clockwise}

-- `std::max(0, std::min(amount, chips))`.
abbrev pub real_bet : ℤ → ℕ → ℕ
real_bet (pos n) chips = min n chips
real_bet (negsuc n) chips = 0

abbrev pub pay_in : ℕ → PlayerState → PlayerState
pay_in real p = record p {
  chips = p.chips - real;
  current_bet = p.current_bet + real;
  hand_contribution = p.hand_contribution + real;
}

unfoldable pub place_bet : Room → ℕ → ℤ → Room × ℕ
place_bet room seat_idx amount = elim (get_player room seat_idx) [
  | none ↦ (room, 0)
  | some p ↦
      if p.is_folded || p.is_bankrupt
      then (room, 0)
      else (let real = real_bet amount p.chips in
          (
            record room {
              players = adjust seat_idx (pay_in real) room.players;
              pot = room.pot + real;
            },
            real,
          ))
]

unfoldable pub post_blind : Room → ℕ → ℕ → Room
post_blind room seat_idx amount =
    let bet = (place_bet room seat_idx (pos amount)).0 in
    elim (get_player bet seat_idx) [
      | none ↦ bet
      | some p ↦ record bet { current_max_bet = max bet.current_max_bet p.current_bet }
    ]

-- `for (int idx : ...) pending_action_seats.insert(idx);`
unfoldable pub insert_all : List ℕ → List ℕ → List ℕ
insert_all [] set = set
insert_all (i ∷ is) set = insert_all is (insert i set)

unfoldable pub init_pending_action : Env → Room → ℕ → Room
init_pending_action env room start_seat_idx = record room {
  pending_action_seats = insert_all (get_actable_seats env room) [];
  active_seat_idx = some start_seat_idx;
}

-- What keeps a seat in the set: a player with chips who has neither folded nor gone bankrupt.
abbrev pub may_act : Room → ℕ → Bool
may_act room i = elim (get_player room i) [
  | none ↦ false
  | some p ↦ not (p.is_folded || p.is_bankrupt || leb p.chips 0)
]

unfoldable pub remove_ineligible_from_pending : Room → Room
remove_ineligible_from_pending room = record room {
  pending_action_seats = keep (may_act room) room.pending_action_seats;
}

unfoldable pub choose_next_actor : Room → ℕ → Room × Option ℕ
choose_next_actor room from_seat_idx =
    let pruned = remove_ineligible_from_pending room in
    (
      pruned,
      (if is_empty pruned.pending_action_seats
          then none
          else next_seat_clockwise from_seat_idx (λ idx. member idx pruned.pending_action_seats)),
    )

unfoldable pub can_advance_street : Room → Room × Bool
can_advance_street room =
    let pruned = remove_ineligible_from_pending room in
    (pruned, is_empty pruned.pending_action_seats)
