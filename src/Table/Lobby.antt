-- ===== src/Table/Lobby.antt =====
-- The host's requests: `handle_toggle_ai`, `handle_kick_seat`, `handle_start_game` and
-- `handle_next_hand` of backend-cpp/src/main.cpp, with `prune_departed_seats`, of which the
-- gameplay sessions are left out. An Option Room is what `get_room` finds.
pub mod Starting
pub mod Departures
use Prim.Native.String.{String}
use text.Mathlib.Text.{◌==◌ as str_eq}
use dezhou.Prelude.{
  ℕ, ◌+◌, ◌%◌, ◌++◌, ◌&&◌, ◌||◌, not, Bool, true, false, List, [], ◌∷◌, Option, none, some, min,
  max, ltb, leb, ◌==◌, if◌then◌else◌, length, keep, get_or, set,
}
use dezhou.Prelude.Int.{ℤ, pos, negsuc}
use dezhou.Prelude.Maps.{adjust, erase, map_values}
use dezhou.Table.State.{
  Room, Env, Seat, SeatType, PlayerState, Notice, ActionText, seat_at, seat_indices, no_seat,
  k_seats,
}
use dezhou.Table.Events.{broadcast_activity, broadcast_game, broadcast_player_action}
use dezhou.Table.Seats.{get_player, ensure_players_map, get_in_hand_seats, is_online}
use dezhou.Table.Betting.{choose_next_actor, can_advance_street}
use dezhou.Table.Settle.{finish_hand}
use dezhou.Table.Turn.{request_turn, proceed_to_next_street}
use dezhou.Table.Action.{leave_pending, is_active_seat, is_player}
use dezhou.Table.Match.{emit_match_over}
use dezhou.Table.Hand.{start_hand}
use dezhou.Table.Serving.{
  Session, Served, Reply, Refusal, unchanged, no_room, refuse, is_host, broadcast_room,
}

-- `"AI-" + std::to_string(i)` for the ten seats.
abbrev pub ai_name : ℕ → String
ai_name i =
    get_or
      ("AI-0" ∷ "AI-1" ∷ "AI-2" ∷ "AI-3" ∷ "AI-4" ∷ "AI-5" ∷ "AI-6" ∷ "AI-7" ∷ "AI-8" ∷ "AI-9" ∷ [])
      i ""

-- `broadcast_room(room); broadcast_game(room);` after a change.
unfoldable pub show_all : Env → List (String × Reply) → Room → Served
show_all env sent room = record {
  room = some (broadcast_game env room);
  sent = sent ++ broadcast_room room;
  stats = [];
}

unfoldable pub toggle_seat : Room → ℕ → Room
toggle_seat room i = elim (seat_at room i).type [
  | SeatType.ai ↦ record room { seats = set room.seats i no_seat; players = erase i room.players }
  | _ ↦ ensure_players_map (record room {
    seats = set room.seats i (record (seat_at room i) { type = SeatType.ai; name = ai_name i });
  })
]

-- A negative seat index is `none`.
unfoldable pub handle_toggle_ai : Env → Session → Option Room → Option ℕ → Served
handle_toggle_ai env session none seat_idx = record no_room {
  sent = (session.socket_id, Reply.error Refusal.room_not_found) ∷ [];
}
handle_toggle_ai env session (some room) seat_idx =
    if room.started
    then refuse session room Refusal.already_started
    else if room.closing
    then refuse session room Refusal.room_closing
    else if not (is_host session room)
    then refuse session room Refusal.host_only
    else elim seat_idx [
      | none ↦ refuse session room Refusal.invalid_seat
      | some i ↦
          if not (ltb i k_seats)
          then refuse session room Refusal.invalid_seat
          else if is_player (seat_at room i).type
          then refuse session room Refusal.seat_taken
          else show_all env [] (toggle_seat room i)
    ]

-- A notice to the kicked player, if he is online.
unfoldable pub kick_notice : Env → Seat → Reply → List (String × Reply)
kick_notice env seat reply =
    if is_online env seat.socket_id then (seat.socket_id, reply) ∷ [] else []

abbrev pub kick_player : ℕ → PlayerState → PlayerState
kick_player hand_num p = record p { is_folded = true; sit_out_until_hand = hand_num + 1 }

-- `handle_kick_seat` while a match is on: the player is folded, and the hand goes on.
unfoldable pub kick_in_hand : Env → Room → ℕ → Served
kick_in_hand env room i =
    let seat = seat_at room i in
    let folded =
      leave_pending (record room { players = adjust i (kick_player room.hand_num) room.players })
        i in
    let told =
      broadcast_player_action env (broadcast_activity env folded (Notice.removed_by_host seat.name))
        i ActionText.did_fold in
    let notice = kick_notice env seat (Reply.kicked_in_hand i) in
    let (chosen, actor) = choose_next_actor told i in
    let moved = if is_active_seat told i then record chosen { active_seat_idx = actor } else told in
    let (pruned, advance) = can_advance_street moved in
    if leb (length (get_in_hand_seats env told)) 1
    then record { room = some (finish_hand env told); sent = notice; stats = [] }
    else show_all env notice
        (if advance then proceed_to_next_street env pruned else request_turn env pruned)

unfoldable pub handle_kick_seat : Env → Session → Option Room → Option ℕ → Served
handle_kick_seat env session none seat_idx = no_room
handle_kick_seat env session (some room) seat_idx =
    if room.closing || not (is_host session room) then unchanged room else elim seat_idx [
      | none ↦ unchanged room
      | some i ↦
          if not (ltb i k_seats) || not (is_player (seat_at room i).type)
          then unchanged room
          else if room.started
          then kick_in_hand env room i
          else show_all env (kick_notice env (seat_at room i) (Reply.kicked i))
              (record room { seats = set room.seats i no_seat; players = erase i room.players })
    ]

pub record StartGameRequest : Type 0 where
  pub total_hands : ℤ
  pub initial_chips : ℤ

-- `std::clamp(n, 1, 50)`.
abbrev pub clamp_hands : ℤ → ℕ
clamp_hands (pos n) = min (max n 1) 50
clamp_hands (negsuc n) = 1

-- `std::max(1000, n)`.
abbrev pub at_least_1000 : ℤ → ℕ
at_least_1000 (pos n) = max 1000 n
at_least_1000 (negsuc n) = 1000

abbrev pub is_occupied : Room → ℕ → Bool
is_occupied room i = elim (seat_at room i).type [ SeatType.empty ↦ false | _ ↦ true ]

abbrev pub fresh_stack : ℕ → PlayerState → PlayerState
fresh_stack initial_chips p = record p {
  chips = initial_chips;
  total_buy_in = pos initial_chips;
  current_bet = 0;
  pending_rebuy = pos 0;
  sit_out_until_hand = 0;
  is_bankrupt = false;
  is_folded = false;
}

-- The room of a new match, before its first hand.
unfoldable pub set_up_match : Room → StartGameRequest → Room
set_up_match room req =
    let begun = ensure_players_map (record room {
      total_hands = clamp_hands req.total_hands;
      initial_chips = at_least_1000 req.initial_chips;
      started = true;
      status = "playing";
      hand_num = 0;
      dealer_seat_idx = 0;
    }) in
    record begun { players = map_values (λ i. fresh_stack begun.initial_chips) begun.players }

unfoldable pub handle_start_game : Env → Session → Option Room → StartGameRequest → Served
handle_start_game env session none req = no_room
handle_start_game env session (some room) req =
    if room.started || room.closing || not (is_host session room)
    then unchanged room
    else if ltb (length (keep (is_occupied room) seat_indices)) 3
    then refuse session room Refusal.too_few_players
    else (let ready = set_up_match room req in
        let hand = start_hand env ready in
        record { room = some hand.0; sent = broadcast_room ready ++ hand.1; stats = hand.2 })

abbrev pub is_departed : Env → Seat → Bool
is_departed env seat =
    is_player seat.type
    && not (not (str_eq seat.socket_id "") && is_online env seat.socket_id)
    && not (seat.disconnected_at == 0)

unfoldable pub prune_seats : Env → List ℕ → Room → Room
prune_seats env [] room = room
prune_seats env (i ∷ is) room = prune_seats env is (
    if is_departed env (seat_at room i)
    then record room { seats = set room.seats i no_seat; players = erase i room.players }
    else room)

unfoldable pub prune_departed_seats : Env → Room → Room
prune_departed_seats env room = prune_seats env seat_indices room

unfoldable pub handle_next_hand : Env → Session → Option Room → Served
handle_next_hand env session none = no_room
handle_next_hand env session (some room) =
    if not room.started || not (is_host session room) || not (room.pot == 0)
    then unchanged room
    else if leb room.total_hands room.hand_num
    then (let over = emit_match_over env room none in
        record { room = some over.0; sent = over.1; stats = over.2 })
    else (let ready =
          prune_departed_seats env
            (record room { dealer_seat_idx = (room.dealer_seat_idx + 1) % k_seats }) in
        let hand = start_hand env ready in
        record { room = some hand.0; sent = broadcast_room ready ++ hand.1; stats = hand.2 })
