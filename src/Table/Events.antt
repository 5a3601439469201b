-- ===== src/Table/Events.antt =====
-- The event log of a room: `append_room_event`, `emit_room_event`, `emit_seat_event` and the
-- `broadcast_*` functions of backend-cpp/src/main.cpp. Delivery to the sockets, the sessions'
-- read marks and the snapshot timer are not part of a room.
pub mod Numbered
pub mod History
use dezhou.Prelude.{
  ℕ, zero, suc, ◌+◌, ◌-◌, Bool, true, false, not, List, [], ◌∷◌, ◌++◌, Option, none, some, ltb,
  if◌then◌else◌, length,
}
use dezhou.Prelude.Maps.{find}
use dezhou.Table.State.{
  Room, Env, RoomEventEntry, Message, Notice, ActionText, GameState, PlayerRow, SeatType, seat_at,
  seat_indices, k_seats,
}

abbrev pub k_room_event_log_limit : ℕ
k_room_event_log_limit = 600

abbrev pub activity_log_limit : ℕ
activity_log_limit = 250

-- `erase(begin, begin + n)`, and n times `pop_front`.
unfoldable pub drop_front {ℓ} : {A : Type ℓ} → ℕ → List A → List A
drop_front zero xs = xs
drop_front (suc n) [] = []
drop_front (suc n) (x ∷ xs) = drop_front n xs

unfoldable pub keep_last {ℓ} : {A : Type ℓ} → ℕ → List A → List A
keep_last limit xs = drop_front (length xs - limit) xs

unfoldable pub append_room_event : Env → Room → Message → Option ℕ → Room
append_room_event env room message seat_idx =
    let seq = room.event_seq + 1 in
    let entry : RoomEventEntry = record {
      seq = seq;
      message = message;
      seat_idx = seat_idx;
      created_at = env.now_ms;
    } in
    record room {
      event_seq = seq;
      event_log = keep_last k_room_event_log_limit (room.event_log ++ entry ∷ []);
    }

unfoldable pub emit_room_event : Env → Room → Message → Room
emit_room_event env room message = append_room_event env room message none

unfoldable pub emit_seat_event : Env → Room → ℕ → Message → Room
emit_seat_event env room seat_idx message =
    if not (ltb seat_idx k_seats) then room else elim (seat_at room seat_idx).type [
      | SeatType.empty ↦ room
      | _ ↦ append_room_event env room message (some seat_idx)
    ]

unfoldable pub broadcast_activity : Env → Room → Notice → Room
broadcast_activity env room notice =
    emit_room_event env
      (record room {
        activity_log = keep_last activity_log_limit (room.activity_log ++ notice ∷ []);
      })
      (Message.activity notice)

unfoldable pub broadcast_player_action : Env → Room → ℕ → ActionText → Room
broadcast_player_action env room seat_idx text =
    emit_room_event env room (Message.player_action seat_idx text)

abbrev pub is_ai : SeatType → Bool
is_ai SeatType.ai = true
is_ai _ = false

-- The players that `build_game_state` lists: a row for each seat that is taken and has a player.
unfoldable pub player_rows : Room → List ℕ → List PlayerRow
player_rows room [] = []
player_rows room (i ∷ is) =
    let rest = player_rows room is in
    let seat = seat_at room i in
    elim seat.type [
      | SeatType.empty ↦ rest
      | _ ↦ elim (find i room.players) [
        | none ↦ rest
        | some p ↦
            record {
              seat_idx = i;
              name = seat.name;
              is_ai = is_ai seat.type;
              chips = p.chips;
              current_bet = p.current_bet;
              is_folded = p.is_folded;
              is_bankrupt = p.is_bankrupt;
              total_buy_in = p.total_buy_in;
            }
            ∷ rest
      ]
    ]

unfoldable pub build_game_state : Room → GameState
build_game_state room = record {
  room_id = room.room_id;
  started = room.started;
  total_hands = room.total_hands;
  initial_chips = room.initial_chips;
  small_blind = room.small_blind;
  big_blind = room.big_blind;
  hand_num = room.hand_num;
  dealer_seat_idx = room.dealer_seat_idx;
  sb_seat_idx = room.sb_seat_idx;
  bb_seat_idx = room.bb_seat_idx;
  active_seat_idx = room.active_seat_idx;
  pot = room.pot;
  round = room.round;
  current_max_bet = room.current_max_bet;
  min_raise = room.min_raise;
  community_cards = room.community_cards;
  players = player_rows room seat_indices;
}

unfoldable pub broadcast_game : Env → Room → Room
broadcast_game env room = emit_room_event env room (Message.game_state (build_game_state room))
