-- ===== src/Table/Match.antt =====
-- The end of a match: `build_standings`, `build_match_stats` and `emit_match_over` of
-- backend-cpp/src/main.cpp. What goes to the user store and the leaderboard is returned, and so are
-- the room states that are sent outside the room's event log.
use Prim.Native.String.{String}
use text.Mathlib.Text.{◌==◌ as str_eq}
use dezhou.Prelude.{
  ℕ, Bool, true, false, ◌&&◌, ◌||◌, not, List, [], ◌∷◌, Option, none, some, ltb, if◌then◌else◌,
  length,
}
use dezhou.Prelude.Int.{ℤ, pos, minus_int32, ltb_ℤ}
use dezhou.Prelude.Sorting.{sort_by}
use dezhou.Engine.RoundPhase.{waiting}
use dezhou.Table.State.{
  Room, Env, SeatType, Notice, Message, Standing, MatchStat, MatchOver, seat_at, seat_indices,
}
use dezhou.Table.Events.{broadcast_activity, emit_room_event, is_ai}
use dezhou.Table.Seats.{get_player, is_seat_occupied}
use dezhou.Table.Serving.{Reply, broadcast_room}

-- The loop of `build_standings`.
unfoldable pub standing_rows : Room → List ℕ → List Standing
standing_rows room [] = []
standing_rows room (i ∷ is) =
    let rest = standing_rows room is in
    let seat = seat_at room i in
    if is_seat_occupied room i
    then (elim (get_player room i) [
      | none ↦ rest
      | some p ↦
          record {
            seat_idx = i;
            is_ai = is_ai seat.type;
            name = seat.name;
            chips = p.chips;
            buy_in = p.total_buy_in;
            net = minus_int32 p.chips p.total_buy_in;
          }
          ∷ rest
    ])
    else rest

unfoldable pub build_standings : Room → List Standing
build_standings room = sort_by (λ a b. ltb b.chips a.chips) (standing_rows room seat_indices)

abbrev pub is_player_row : Room → Standing → Bool
is_player_row room row = elim (seat_at room row.seat_idx).type [
  | SeatType.player ↦ true
  | _ ↦ false
]

-- The largest net result of a player; `none` stands for the smallest `int64`.
unfoldable pub best_net : Room → Option ℤ → List Standing → Option ℤ
best_net room best [] = best
best_net room best (row ∷ rows) =
    best_net room
      (if is_player_row room row
        then (elim best [
          | none ↦ some row.net
          | some b ↦ some (if ltb_ℤ b row.net then row.net else b)
        ])
        else best)
      rows

abbrev pub same_int : ℤ → ℤ → Bool
same_int a b = not (ltb_ℤ a b) && not (ltb_ℤ b a)

unfoldable pub stat_rows : Env → Room → Bool → ℤ → List Standing → List MatchStat
stat_rows env room rewarded best [] = []
stat_rows env room rewarded best (row ∷ rows) =
    let rest = stat_rows env room rewarded best rows in
    let seat = seat_at room row.seat_idx in
    if is_player_row room row
    then record {
      external_id = elim (env.username_of seat.user_id) [ none ↦ seat.name | some name ↦ name ];
      username = row.name;
      gold_delta = if rewarded then row.net else pos 0;
      winner = same_int row.net best;
    }
      ∷ rest
    else rest

unfoldable pub build_match_stats : Env → Room → List Standing → List MatchStat
build_match_stats env room standings =
    stat_rows env room (str_eq room.room_type "bean_match" || str_eq room.room_type "tournament")
      (elim (best_net room none standings) [ none ↦ pos 0 | some b ↦ b ]) standings

-- The room, the room states that `broadcast_room` sends at the end of a friend room's match, and
-- the statistics. The event just before has marked the same sockets as up to date.
unfoldable pub emit_match_over :
    Env → Room → Option String → Room × List (String × Reply) × List MatchStat
emit_match_over env room reason =
    if room.closing
    then (room, [], [])
    else (let reusable = str_eq room.room_type "friend" in
        let ended = record room {
          closing = not reusable;
          started = false;
          status = if reusable then "room_lobby" else "closed";
          round = waiting;
          active_seat_idx = none;
          pending_action_seats = [];
        } in
        let told : Room = elim reason [
          | none ↦ ended
          | some text ↦ broadcast_activity env ended (Notice.match_text text)
        ] in
        let over = broadcast_activity env told (Notice.match_text "Match over.") in
        let standings = build_standings over in
        let msg : MatchOver = record {
          room_id = over.room_id;
          total_hands = over.total_hands;
          played_hands = length over.hand_history;
          standings = standings;
          hands = over.hand_history;
        } in
        let acks = record over {
          expected_acks = if reusable then [] else over.socket_ids;
          match_acks = [];
        } in
        let sent = emit_room_event env acks (Message.match_over msg) in
        (
          sent,
          (if reusable then broadcast_room sent else []),
          build_match_stats env sent standings,
        ))
