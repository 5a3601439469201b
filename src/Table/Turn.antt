-- ===== src/Table/Turn.antt =====
-- The streets and the turns: `proceed_to_next_street` and `request_turn` of
-- backend-cpp/src/main.cpp, which call each other. Each street ends the sooner, so the calls are
-- counted by fuel, and five are enough.
pub mod Settled
use dezhou.Prelude.{
  ℕ, zero, suc, Bool, true, false, ◌&&◌, not, none, some, leb, if◌then◌else◌, is_empty, length,
}
use dezhou.Prelude.Maps.{map_values}
use dezhou.Prelude.Sets.{member}
use dezhou.Engine.RoundPhase.{RoundPhase, pre_flop, flop, turn, river, showdown}
use dezhou.Table.State.{Room, Env, PlayerState, Seat, SeatType, Message, seat_at}
use dezhou.Table.Events.{broadcast_game, emit_room_event}
use dezhou.Table.Seats.{get_in_hand_seats, get_actable_seats, get_active_offset, is_online}
use dezhou.Table.Betting.{init_pending_action, remove_ineligible_from_pending, choose_next_actor}
use dezhou.Table.Deal.{deal_community}
use dezhou.Table.Settle.{finish_hand}

-- The street after the current one, with its cards on the board.
unfoldable pub open_street : RoundPhase → Room → Room
open_street pre_flop room = deal_community (record room { round = flop }) 3
open_street flop room = deal_community (record room { round = turn }) 1
open_street turn room = deal_community (record room { round = river }) 1
open_street _ room = record room { round = showdown }

abbrev pub clear_bet : PlayerState → PlayerState
clear_bet p = record p { current_bet = 0 }

unfoldable pub clear_bets : Room → Room
clear_bets room = record room {
  players = map_values (λ i. clear_bet) room.players;
  current_max_bet = 0;
}

abbrev pub is_showdown : RoundPhase → Bool
is_showdown showdown = true
is_showdown _ = false

-- `proceed_to_next_street`, with the `request_turn` that it ends in.
unfoldable pub proceed_with : (Room → Room) → Env → Room → Room
proceed_with request env room =
    let opened = open_street room.round (clear_bets room) in
    if is_showdown opened.round
    then finish_hand env opened
    else (let first = get_active_offset env opened opened.dealer_seat_idx 1 in
        request (broadcast_game env (init_pending_action env opened first)))

-- A machine plays the seat: an AI, or a player who is away.
unfoldable pub is_machine : Env → Seat → Bool
is_machine env seat = elim seat.type [
  | SeatType.ai ↦ true
  | SeatType.player ↦ seat.ai_managed && not (is_online env seat.socket_id)
  | SeatType.empty ↦ false
]

-- The last lines of `request_turn`: the seat is told, or its timer is set.
unfoldable pub announce_turn : Env → Room → ℕ → Room
announce_turn env room active =
    let shown = broadcast_game env room in
    if is_machine env (seat_at room active)
    then record shown { ai_timer = some active }
    else emit_room_event env shown (Message.turn active shown.turn_nonce)

abbrev pub is_pending_turn : Room → Bool
is_pending_turn room = elim room.active_seat_idx [
  | none ↦ false
  | some i ↦ member i room.pending_action_seats
]

-- The active seat keeps the turn if it is pending; otherwise the next pending seat gets it.
unfoldable pub settle_turn : Room → Room
settle_turn room =
    let pruned = remove_ineligible_from_pending room in
    if is_pending_turn pruned
    then pruned
    else (let (chosen, actor) =
          choose_next_actor pruned
            (elim pruned.active_seat_idx [ none ↦ pruned.dealer_seat_idx | some i ↦ i ]) in
        record chosen { active_seat_idx = actor })

-- `request_turn`, with the `proceed_to_next_street` that it may end in.
unfoldable pub request_with : (Room → Room) → Env → Room → Room
request_with proceed env room =
    let stopped = record room { ai_timer = none } in
    if leb (length (get_in_hand_seats env stopped)) 1
    then finish_hand env stopped
    else if is_empty (get_actable_seats env stopped)
    then finish_hand env (record stopped { round = showdown })
    else (let ready = settle_turn stopped in
        elim ready.active_seat_idx [
          | none ↦ proceed ready
          | some active ↦ announce_turn env ready active
        ])

unfoldable pub request_turn_fuel : ℕ → Env → Room → Room
request_turn_fuel zero env room = room
request_turn_fuel (suc fuel) env room =
    request_with (proceed_with (request_turn_fuel fuel env) env) env room

abbrev pub street_fuel : ℕ
street_fuel = 5

unfoldable pub request_turn : Env → Room → Room
request_turn env room = request_turn_fuel street_fuel env room

unfoldable pub proceed_to_next_street : Env → Room → Room
proceed_to_next_street env room = proceed_with (request_turn_fuel street_fuel env) env room
