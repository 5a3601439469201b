-- ===== src/Table/Seats.antt =====
-- Who sits, who is connected and who is in the hand: the queries of backend-cpp/src/main.cpp.
pub mod Clockwise
use Prim.Native.String.{String}
use text.Mathlib.Text.{◌==◌ as str_eq}
use dezhou.Prelude.{
  ℕ, zero, suc, ◌+◌, ◌*◌, ◌%◌, Bool, true, false, ◌&&◌, ◌||◌, not, List, [], ◌∷◌, Option, none,
  some, ltb, leb, if◌then◌else◌, keep,
}
use dezhou.Prelude.Int.{pos}
use dezhou.Prelude.Maps.{find, emplace}
use dezhou.Prelude.Maps
use dezhou.Table.State.{Room, Env, PlayerState, Seat, SeatType, seat_at, seat_indices, k_seats}

unfoldable pub get_player : Room → ℕ → Option PlayerState
get_player room seat_idx = find seat_idx room.players

-- The `PlayerState` of a newly taken seat.
abbrev pub new_player : Room → ℕ → PlayerState
new_player room i = record {
  seat_idx = i;
  chips = room.initial_chips;
  current_bet = 0;
  hand_contribution = 0;
  is_folded = false;
  is_bankrupt = false;
  hand = [];
  total_buy_in = pos room.initial_chips;
  pending_rebuy = pos 0;
  sit_out_until_hand = 0;
}

abbrev pub is_seat_occupied : Room → ℕ → Bool
is_seat_occupied room i = elim (seat_at room i).type [ SeatType.empty ↦ false | _ ↦ true ]

-- The first loop of `ensure_players_map`: every taken seat gets a player.
unfoldable pub add_players : Room → List ℕ → List (ℕ × PlayerState) → List (ℕ × PlayerState)
add_players room [] m = m
add_players room (i ∷ is) m =
    add_players room is (if is_seat_occupied room i then emplace i (new_player room i) m else m)

-- Its second loop: a player without a seat goes.
unfoldable pub drop_players : Room → List (ℕ × PlayerState) → List (ℕ × PlayerState)
drop_players room = keep (λ e. is_seat_occupied room e.0)

unfoldable pub ensure_players_map : Room → Room
ensure_players_map room = record room {
  players = drop_players room (add_players room seat_indices room.players);
}

unfoldable pub holds : List String → String → Bool
holds [] s = false
holds (c ∷ cs) s = str_eq c s || holds cs s

unfoldable pub is_online : Env → String → Bool
is_online env socket_id = not (str_eq socket_id "") && holds env.active_gateway_clients socket_id

-- The two tests that the queries share: the seat is taken, and its player is connected or is
-- played by the machine.
unfoldable pub is_live : Env → Seat → Bool
is_live env seat = elim seat.type [
  | SeatType.empty ↦ false
  | SeatType.player ↦ is_online env seat.socket_id || seat.ai_managed
  | SeatType.ai ↦ true
]

unfoldable pub is_seat_eligible : Env → Room → ℕ → Bool
is_seat_eligible env room seat_idx =
    is_live env (seat_at room seat_idx) && elim (get_player room seat_idx) [
      | none ↦ false
      | some p ↦ not p.is_bankrupt && ltb 0 p.chips && not (ltb room.hand_num p.sit_out_until_hand)
    ]

unfoldable pub is_in_hand : Env → Room → ℕ → Bool
is_in_hand env room i = is_live env (seat_at room i) && elim (get_player room i) [
  | none ↦ false
  | some p ↦ not p.is_folded && not p.is_bankrupt && leb p.sit_out_until_hand room.hand_num
]

unfoldable pub get_in_hand_seats : Env → Room → List ℕ
get_in_hand_seats env room = keep (is_in_hand env room) seat_indices

unfoldable pub is_actable : Env → Room → ℕ → Bool
is_actable env room i = is_live env (seat_at room i) && elim (get_player room i) [
  | none ↦ false
  | some p ↦
      not p.is_folded
      && not p.is_bankrupt
      && ltb 0 p.chips
      && leb p.sit_out_until_hand room.hand_num
]

unfoldable pub get_actable_seats : Env → Room → List ℕ
get_actable_seats env room = keep (is_actable env room) seat_indices

-- The loop of `next_seat_clockwise`, over the steps that are left.
unfoldable pub seek_clockwise : (ℕ → Bool) → ℕ → ℕ → ℕ → Option ℕ
seek_clockwise predicate start step zero = none
seek_clockwise predicate start step (suc left) =
    let later = seek_clockwise predicate start (step + 1) left in
    let idx = (start + step) % k_seats in if predicate idx then some idx else later

unfoldable pub next_seat_clockwise : ℕ → (ℕ → Bool) → Option ℕ
next_seat_clockwise start predicate = seek_clockwise predicate start 1 k_seats

-- The loop of `get_active_offset`, over the rounds that are left.
unfoldable pub walk_offset : Env → Room → ℕ → ℕ → ℕ → ℕ → ℕ
walk_offset env room offset zero count idx = idx
walk_offset env room offset (suc left) count idx =
    let next = (idx + 1) % k_seats in
    let later =
      walk_offset env room offset left (if is_seat_eligible env room next then count + 1 else count)
        next in
    if ltb count offset then later else idx

unfoldable pub get_active_offset : Env → Room → ℕ → ℕ → ℕ
get_active_offset env room start_seat_idx offset =
    walk_offset env room offset (k_seats * 3) 0 start_seat_idx
