-- ===== src/Table/Hand.antt =====
-- A hand from its start, and what happens to it without a request: `start_hand`, `ai_act`, the
-- timer of the machine and `resolve_disconnect_for_current_hand` of backend-cpp/src/main.cpp.
use dezhou.Prelude.{
  ℕ, ◌+◌, Bool, true, false, ◌&&◌, ◌||◌, not, List, [], ◌∷◌, none, some, ltb, leb, ◌==◌,
  if◌then◌else◌, length, keep, max,
}
use dezhou.Prelude.Int.{pos}
use Prim.Native.String.{String}
use dezhou.Prelude.Maps.{adjust}
use dezhou.Text.{codes}
use dezhou.Table.State.{
  Room, Env, PlayerState, SeatType, Notice, Message, ActionText, ActionRequest, MatchStat, seat_at,
  seat_indices,
}
use text.Mathlib.Text.{◌==◌ as str_eq}
use dezhou.Table.Events.{broadcast_activity, broadcast_game, emit_seat_event}
use dezhou.Table.Seats.{
  get_player, ensure_players_map, is_seat_eligible, get_active_offset, get_in_hand_seats,
}
use dezhou.Table.Betting.{post_blind, init_pending_action, choose_next_actor, can_advance_street}
use dezhou.Table.Deal.{apply_pending_rebuys, reset_hand, deal_hole_cards}
use dezhou.Table.Settle.{finish_hand}
use dezhou.Table.Turn.{request_turn, proceed_to_next_street, is_machine}
use dezhou.Table.Action.{handle_action, fold_player, leave_pending, call_amount, announce, name_at}
use dezhou.Table.Match.{emit_match_over}
use dezhou.Table.Serving.{Reply}

-- The private cards go to every player with a socket.
unfoldable pub send_private_hands : Env → List ℕ → Room → Room
send_private_hands env [] room = room
send_private_hands env (i ∷ is) room =
    let seat = seat_at room i in
    send_private_hands env is (elim seat.type [
      | SeatType.player ↦ elim (get_player room i) [
        | none ↦ room
        | some p ↦
            if str_eq seat.socket_id ""
            then room
            else emit_seat_event env room i (Message.private_hand i p.hand)
      ]
      | _ ↦ room
    ])

-- `start_hand` after the test that enough players have chips.
unfoldable pub play_hand : Env → Room → Room
play_hand env room =
    let hand = reset_hand env room in
    let headed = broadcast_activity env hand (Notice.hand_header hand.hand_num hand.total_hands) in
    let sb = get_active_offset env headed headed.dealer_seat_idx 1 in
    let bb = get_active_offset env headed headed.dealer_seat_idx 2 in
    let utg = get_active_offset env headed headed.dealer_seat_idx 3 in
    let placed = record headed { sb_seat_idx = some sb; bb_seat_idx = some bb } in
    let blinds = post_blind (post_blind placed sb placed.small_blind) bb placed.big_blind in
    let told =
      broadcast_activity env
        (broadcast_activity env blinds
          (Notice.posts_small_blind (name_at blinds sb) blinds.small_blind))
        (Notice.posts_big_blind (name_at blinds bb) blinds.big_blind) in
    let dealt = send_private_hands env seat_indices (deal_hole_cards env told) in
    let open_room = record dealt {
      current_max_bet = dealt.big_blind;
      min_raise = dealt.big_blind;
    } in
    request_turn env (broadcast_game env (init_pending_action env open_room utg))

unfoldable pub start_hand : Env → Room → Room × List (String × Reply) × List MatchStat
start_hand env room =
    let ready = apply_pending_rebuys env (ensure_players_map room) in
    if ltb (length (keep (is_seat_eligible env ready) seat_indices)) 2
    then emit_match_over env ready (some "Not enough players with chips to continue.")
    else (play_hand env ready, [], [])

-- Where `r`, drawn from [0, 1), lies: up to 0.7, up to 0.85, or above.
pub data Draw : Type 0 where
  low middle high : Draw

abbrev pub above_85 : Draw → Bool
above_85 high = true
above_85 _ = false

abbrev pub above_70 : Draw → Bool
above_70 low = false
above_70 _ = true

-- The request that the machine makes up.
unfoldable pub ai_choice : Room → PlayerState → Draw → ActionRequest
ai_choice room p r =
    let call_amt = call_amount room p in
    if ltb 0 call_amt && above_85 r
    then record { type = codes "fold"; raise_by = pos 0 }
    else if above_70 r && ltb (call_amt + room.min_raise) p.chips
    then record { type = codes "raise"; raise_by = pos room.min_raise }
    else if ltb 0 call_amt
    then record { type = codes "call"; raise_by = pos 0 }
    else record { type = codes "check"; raise_by = pos 0 }

unfoldable pub ai_act : Env → Room → ℕ → Draw → Room
ai_act env room i r =
    let pass =
      (let (chosen, actor) = choose_next_actor (leave_pending room i) i in
        request_turn env (record chosen { active_seat_idx = actor })) in
    elim (get_player room i) [
      | none ↦ pass
      | some p ↦
          if p.is_folded || p.is_bankrupt
          then pass
          else (handle_action env room i (ai_choice room p r) "").0
    ]

-- The callback of the machine's timer: it acts if the seat still has the turn and is still played
-- by the machine.
unfoldable pub ai_timer_fired : Env → Room → Draw → Room
ai_timer_fired env room r = elim room.ai_timer [
  | none ↦ room
  | some i ↦
      let spent = record room { ai_timer = none } in
      elim room.active_seat_idx [
        | none ↦ spent
        | some a ↦ if a == i && is_machine env (seat_at room i) then ai_act env spent i r else spent
      ]
]

abbrev pub sit_out : ℕ → PlayerState → PlayerState
sit_out hand_num p = record p { sit_out_until_hand = max p.sit_out_until_hand (hand_num + 2) }

unfoldable pub resolve_disconnect_for_current_hand : Env → Room → ℕ → Room
resolve_disconnect_for_current_hand env room i = elim (get_player room i) [
  | none ↦ room
  | some p ↦
      let out =
        leave_pending (record room { players = adjust i (sit_out room.hand_num) room.players }) i in
      let folded = record out { players = adjust i fold_player out.players } in
      let active : Bool = elim room.active_seat_idx [ none ↦ false | some a ↦ a == i ] in
      let told =
        if ltb 0 (call_amount room p)
        then announce env folded i (Notice.auto_folded (name_at room i)) ActionText.did_fold
        else announce env out i (Notice.auto_checked (name_at room i)) ActionText.did_check in
      let (pruned, advance) = can_advance_street told in
      let (chosen, actor) = choose_next_actor pruned i in
      if not active
      then (if ltb p.current_bet room.current_max_bet then folded else out)
      else if leb (length (get_in_hand_seats env told)) 1
      then finish_hand env told
      else if advance
      then proceed_to_next_street env pruned
      else request_turn env (record chosen { active_seat_idx = actor })
]
