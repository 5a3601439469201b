-- ===== src/Tests/Table.antt =====
-- A table of three players before the flop, and the theorems about hands applied to it.
use dezhou.Table.Action.{
  action_type, announce, do_fold, do_check, do_call, reopen_betting, apply_action, after_action,
}
use dezhou.Table.Seats.{
  add_players, drop_players, ensure_players_map, holds, is_online, is_live, is_seat_eligible,
  is_in_hand, is_actable, get_actable_seats, seek_clockwise, walk_offset, get_active_offset,
}
use dezhou.Table.Turn.{
  open_street, clear_bets, proceed_with, is_machine, announce_turn, settle_turn, request_with,
  request_turn_fuel, proceed_to_next_street,
}
use dezhou.Table.Betting.{
  post_blind, insert_all, init_pending_action, remove_ineligible_from_pending, choose_next_actor,
  can_advance_street,
}
use dezhou.Table.Settle.{
  winners_by_odd_chip_priority, showdown_cards, send_hand_over, contributors_of, award,
  award_shares, award_odd_chips, eval_rows, best_row, settle_pot, settle_pots, fill_board,
  close_hand, settle_single, settle_showdown, settle,
}
use dezhou.Table.Events.{
  drop_front, keep_last, append_room_event, emit_room_event, emit_seat_event, broadcast_activity,
  broadcast_player_action, player_rows, build_game_state, broadcast_game,
}
use dezhou.Table.Deal.{
  deck_of, fresh_deck, pop_back, reset_hand, announce_rebuys, apply_pending_rebuys, deal_round,
  deal_hole_cards, deal_community,
}
use dezhou.Text.{
  trim_front, trim_copy, to_lower_ascii, to_upper_ascii, normalize_username, normalize_display_name,
  normalize_action_name, to_upper_room_code, is_valid_username, is_valid_display_name, same_text,
}
use dezhou.Prelude.Maps.{adjust, emplace, map_values}
use dezhou.Prelude.Sets.{insert}
use Prim.Native.String.{String}
use dezhou.Prelude.{ℕ, ◌+◌, ◌≡◌, ◌⊎◌, refl, ◌==◌, true, false, [], ◌∷◌, none, some, arith}
use dezhou.Prelude.Int.{pos}
use dezhou.Prelude.Maps.{find}
use dezhou.Prelude.Sets.{erase}
use dezhou.Text.{codes}
use dezhou.Engine.RoundPhase.{RoundPhase}
use dezhou.Engine.Pots.{Pot}
use dezhou.Table.State.{Room, Env, Seat, SeatType, PlayerState, ActionRequest, no_seat, k_seats}
use dezhou.Table.Seats.{next_seat_clockwise, get_player, get_in_hand_seats}
use dezhou.Table.Seats.Clockwise.{Finds, next_seat_clockwise-Finds}
use dezhou.Table.Betting.{place_bet, pay_in}
use dezhou.Table.Settle.{Settlement, split_pot, finish_hand}
use dezhou.Table.Turn.{request_turn}
use dezhou.Table.Turn.Settled.{Settled, request_turn-Settled}
use dezhou.Table.Action.{Outcome, do_raise, do_all_in, handle_action, call_amount}
use dezhou.Table.Action.Laws.{marked, handle_action_outcomes}
use dezhou.Table.Action.Raise.{Raised, do_raise-Raised, do_raise_overflow, do_all_in_short}
use dezhou.Table.Chips.{stacks, table_total}
use dezhou.Table.Chips.Payout.{players_of}
use dezhou.Table.Chips.Split.{chips_at, paid_to, chips_at-split_pot}
use dezhou.Table.Chips.Finish.{forfeited_by, finish_hand_total}
use dezhou.Table.Chips.Streets.{Ends}
use dezhou.Table.Chips.Actions.{handle_action-Ends}

abbrev pub env : Env
env = record {
  active_gateway_clients = "s0" ∷ "s1" ∷ "s2" ∷ [];
  now_ms = 1000;
  shuffle = λ deck. deck;
  username_of = λ user_id. none;
}

abbrev seated : String → Seat
seated socket = record no_seat { type = SeatType.player; socket_id = socket; name = socket }

abbrev pub player : ℕ → ℕ → ℕ → PlayerState
player i chips bet = record {
  seat_idx = i;
  chips = chips;
  current_bet = bet;
  hand_contribution = bet;
  is_folded = false;
  is_bankrupt = false;
  hand = [];
  total_buy_in = pos 1000;
  pending_rebuy = pos 0;
  sit_out_until_hand = 0;
}

-- The blinds are posted, and the dealer, on seat 0, has the turn.
abbrev pub room : Room
room = record {
  room_id = "r";
  room_code = "R";
  room_type = "friend";
  owner_user_id = 7;
  visibility = "private";
  max_players = 10;
  last_active_at = 0;
  empty_since = none;
  status = "playing";
  socket_ids = "s0" ∷ "s1" ∷ "s2" ∷ [];
  host_socket_id = "s0";
  seats =
      seated "s0"
      ∷ seated "s1"
      ∷ seated "s2"
      ∷ no_seat
      ∷ no_seat
      ∷ no_seat
      ∷ no_seat
      ∷ no_seat
      ∷ no_seat
      ∷ no_seat
      ∷ [];
  started = true;
  total_hands = 5;
  initial_chips = 1000;
  small_blind = 10;
  big_blind = 20;
  hand_num = 1;
  dealer_seat_idx = 0;
  sb_seat_idx = some 1;
  bb_seat_idx = some 2;
  pot = 30;
  round = RoundPhase.pre_flop;
  community_cards = [];
  deck = [];
  current_max_bet = 20;
  min_raise = 20;
  active_seat_idx = some 0;
  pending_action_seats = 0 ∷ 1 ∷ 2 ∷ [];
  players = (0, player 0 1000 0) ∷ (1, player 1 990 10) ∷ (2, player 2 15 20) ∷ [];
  turn_nonce = 1;
  last_actor_seat_idx = none;
  ai_timer = none;
  voice_participants = [];
  hand_history = [];
  activity_log = [];
  event_seq = 0;
  event_log = [];
  closing = false;
  expected_acks = [];
  match_acks = [];
}

abbrev pub raise_40 : ActionRequest
raise_40 = record { type = codes "raise"; raise_by = pos 40 }

next_seat_clockwise-Finds_example :
    Finds (λ i. i == 2) 8 1 k_seats (next_seat_clockwise 8 (λ i. i == 2))
next_seat_clockwise-Finds_example = next_seat_clockwise-Finds 8 (λ i. i == 2)

request_turn-Settled_example : Settled env (request_turn env room)
request_turn-Settled_example = request_turn-Settled env room

handle_action_outcomes_example :
    ((handle_action env room 0 raise_40 "s0").0 ≡ room)
    ⊎ (((handle_action env room 0 raise_40 "s0").0 ≡ marked room 0)
        ⊎ (((handle_action env room 0 raise_40 "s0").1 ≡ none)
            × Settled env (handle_action env room 0 raise_40 "s0").0))
handle_action_outcomes_example = handle_action_outcomes env room 0 raise_40 "s0"

do_raise-Raised_example :
    (after : Room) × (do_raise env room 0 (player 0 1000 0) (pos 40) ≡ Outcome.done after)
    × Raised env room 0 (player 0 1000 0) 40 (call_amount room (player 0 1000 0) + 40) after
unfolding get_player find
do_raise-Raised_example =
    do_raise-Raised env room 0 (player 0 1000 0) 40 refl refl (omega arith) (omega arith)
      (omega arith)

do_raise_overflow_example :
    (after : Room) × (do_raise env room 0 (player 0 1000 0) (pos 2147483640) ≡ Outcome.done after)
    × Raised env room 0 (player 0 1000 0) 2147483640 0 after
unfolding get_player find
do_raise_overflow_example =
    do_raise_overflow env room 0 (player 0 1000 0) 2147483640 refl refl (omega arith) (omega arith)
      (omega arith)

-- The big blind goes all-in for 15 more than the highest bet.
do_all_in_short_example :
    (after : Room) × (do_all_in env room 2 (player 2 15 20) ≡ Outcome.done after)
    × (after.pending_action_seats ≡ erase 2 room.pending_action_seats)
    × (after.min_raise ≡ 20)
    × (after.current_max_bet ≡ 35)
    × (get_player after 2 ≡ some (pay_in 15 (player 2 15 20)))
unfolding get_player find
do_all_in_short_example =
    do_all_in_short env room 2 (player 2 15 20) refl refl (omega arith) (omega arith) (omega arith)

-- A pot of 31 chips for seats 0 and 2: one chip is odd.
abbrev odd_pot : Pot
odd_pot = record { amount = 31; cap = 11; eligible_seat_indices = 0 ∷ 2 ∷ [] }

abbrev before : Settlement
before = record { room = room; winner_order = [] }

-- The dealer is on seat 0, so that the odd chip is for seat 2.
chips_at-split_pot_example :
    chips_at 2 (players_of (split_pot odd_pot (0 ∷ 2 ∷ []) before))
    ≡ chips_at 2 (players_of before) + paid_to 2 0 31 (0 ∷ 2 ∷ [])
unfolding find
chips_at-split_pot_example =
    chips_at-split_pot 2 odd_pot (0 ∷ 2 ∷ []) before (omega arith) (refl, (refl, tt))
      (omega arith, (omega arith, tt)) (refl, (refl, tt))

odd_chip_to_two : (paid_to 2 0 31 (0 ∷ 2 ∷ []) ≡ 16) × (paid_to 0 0 31 (0 ∷ 2 ∷ []) ≡ 15)
odd_chip_to_two = (refl, refl)

finish_hand_total_example :
    stacks (finish_hand env room).players + forfeited_by (get_in_hand_seats env room) room.players
    ≡ table_total room
finish_hand_total_example = finish_hand_total env room

handle_action-Ends_example : Ends room (handle_action env room 0 raise_40 "s0").0
handle_action-Ends_example = handle_action-Ends env room 0 raise_40 "s0"

-- The dealer raises by 40: he pays 60, and the blinds are to act, the small one first.
raise_then_next :
    ((handle_action env room 0 raise_40 "s0").0.active_seat_idx ≡ some 1)
    × ((handle_action env room 0 raise_40 "s0").0.pot ≡ 90)
    × ((handle_action env room 0 raise_40 "s0").0.pending_action_seats ≡ 1 ∷ 2 ∷ [])
unfolding action_type announce do_fold do_check do_call reopen_betting do_raise do_all_in
    apply_action after_action handle_action get_player add_players drop_players ensure_players_map
    holds is_online is_live is_seat_eligible is_in_hand get_in_hand_seats is_actable
    get_actable_seats seek_clockwise next_seat_clockwise walk_offset get_active_offset open_street
    clear_bets proceed_with is_machine announce_turn settle_turn request_with request_turn_fuel
    request_turn proceed_to_next_street place_bet post_blind insert_all init_pending_action
    remove_ineligible_from_pending choose_next_actor can_advance_street winners_by_odd_chip_priority
    showdown_cards send_hand_over contributors_of award award_shares award_odd_chips eval_rows
    best_row split_pot settle_pot settle_pots fill_board close_hand settle_single settle_showdown
    settle finish_hand drop_front keep_last append_room_event emit_room_event emit_seat_event
    broadcast_activity broadcast_player_action player_rows build_game_state broadcast_game deck_of
    fresh_deck pop_back reset_hand announce_rebuys apply_pending_rebuys deal_round deal_hole_cards
    deal_community trim_front trim_copy to_lower_ascii to_upper_ascii normalize_username
    normalize_display_name normalize_action_name to_upper_room_code is_valid_username
    is_valid_display_name same_text find adjust emplace erase map_values insert
raise_then_next = (refl, refl, refl)
