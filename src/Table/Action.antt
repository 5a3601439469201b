-- ===== src/Table/Action.antt =====
-- A player's action: `handle_action` and its rejections, of backend-cpp/src/main.cpp.
pub mod Cases
pub mod Laws
pub mod Raise
use Prim.Native.String.{String}
use text.Mathlib.Text.{◌==◌ as str_eq}
use dezhou.Prelude.{
  ℕ, ◌-◌, Bool, true, false, ◌&&◌, ◌||◌, not, List, [], Option, none, some, ltb, leb, ◌==◌,
  if◌then◌else◌, length,
}
use dezhou.Prelude.Int.{ℤ, pos, pos_part, ltb_ℤ, add_int32}
use dezhou.Prelude.Maps.{adjust}
use dezhou.Prelude.Sets.{member, erase}
use dezhou.Text.{codes, same_text, normalize_action_name}
use dezhou.Table.State.{
  Room, Env, PlayerState, SeatType, Notice, ActionText, ActionRequest, seat_at,
}
use dezhou.Table.Events.{broadcast_activity, broadcast_player_action}
use dezhou.Table.Seats.{get_player, get_in_hand_seats, get_actable_seats}
use dezhou.Table.Betting.{
  place_bet, insert_all, remove_ineligible_from_pending, choose_next_actor, can_advance_street,
}
use dezhou.Table.Settle.{finish_hand}
use dezhou.Table.Turn.{request_turn, proceed_to_next_street}

pub data Reason : Type 0 where
  seat_not_found not_a_player not_active not_your_turn unsupported : Reason
  cannot_check below_minimum insufficient no_chips : Reason

pub data ActionType : Type 0 where
  fold check call raise all_in : ActionType

-- The five names that `handle_action` knows, after `normalize_action_name`.
unfoldable pub action_type : List ℕ → Option ActionType
action_type name =
    if same_text name (codes "fold")
    then some fold
    else if same_text name (codes "check")
    then some check
    else if same_text name (codes "call")
    then some call
    else if same_text name (codes "raise")
    then some raise
    else if same_text name (codes "allin")
    then some all_in
    else none

-- What a request comes to: the room after it, or why it was refused.
pub data Outcome : Type 0 where
  done : Room → Outcome
  refused : Reason → Outcome

abbrev pub name_at : Room → ℕ → String
name_at room i = (seat_at room i).name

abbrev pub leave_pending : Room → ℕ → Room
leave_pending room i = record room { pending_action_seats = erase i room.pending_action_seats }

abbrev pub fold_player : PlayerState → PlayerState
fold_player p = record p { is_folded = true }

-- `std::max(0, room.current_max_bet - p->current_bet)`.
abbrev pub call_amount : Room → PlayerState → ℕ
call_amount room p = room.current_max_bet - p.current_bet

-- `p->current_bet` after a bet has gone through the pointer.
abbrev pub bet_of : Room → ℕ → ℕ
bet_of room i = elim (get_player room i) [ none ↦ 0 | some p ↦ p.current_bet ]

unfoldable pub announce : Env → Room → ℕ → Notice → ActionText → Room
announce env room i notice text =
    broadcast_player_action env (broadcast_activity env room notice) i text

unfoldable pub do_fold : Env → Room → ℕ → Room
do_fold env room i =
    announce env (leave_pending (record room { players = adjust i fold_player room.players }) i) i
      (Notice.folds (name_at room i)) ActionText.did_fold

unfoldable pub do_check : Env → Room → ℕ → PlayerState → Outcome
do_check env room i p =
    if not (call_amount room p == 0)
    then refused cannot_check
    else done (
        announce env (leave_pending room i) i (Notice.checks (name_at room i)) ActionText.did_check)

unfoldable pub do_call : Env → Room → ℕ → PlayerState → Room
do_call env room i p =
    let call_amt = call_amount room p in
    leave_pending
      (if ltb 0 call_amt
        then (if ltb p.chips call_amt
            then (let (bet, committed) = place_bet room i (pos p.chips) in
                announce env bet i (Notice.all_in_for (name_at room i) committed)
                  (ActionText.did_all_in_to (bet_of bet i)))
            else announce env (place_bet room i (pos call_amt)).0 i (Notice.calls (name_at room i))
                (ActionText.did_call call_amt))
        else announce env room i (Notice.checks (name_at room i)) ActionText.did_check)
      i

-- Everybody who can act is pending again, but the seat that raised.
unfoldable pub reopen_betting : Env → Room → ℕ → Room
reopen_betting env room i = record room {
  pending_action_seats = erase i (insert_all (get_actable_seats env room) []);
}

unfoldable pub do_raise : Env → Room → ℕ → PlayerState → ℤ → Outcome
do_raise env room i p requested_raise_by =
    if ltb_ℤ requested_raise_by (pos room.min_raise)
    then refused below_minimum
    else (let raise_by = pos_part requested_raise_by in
        let total = add_int32 (call_amount room p) raise_by in
        if ltb_ℤ (pos p.chips) total
        then refused insufficient
        else (let bet = (place_bet room i total).0 in
            let raised =
              reopen_betting env
                (record bet { current_max_bet = bet_of bet i; min_raise = raise_by }) i in
            done (
              announce env raised i (Notice.raises_to (name_at room i) (bet_of bet i))
                (ActionText.did_raise (bet_of bet i)))))

unfoldable pub do_all_in : Env → Room → ℕ → PlayerState → Outcome
do_all_in env room i p =
    let prev_max_bet = room.current_max_bet in
    let prev_min_raise = room.min_raise in
    if leb p.chips 0
    then refused no_chips
    else (let bet = (place_bet room i (pos p.chips)).0 in
        let now = bet_of bet i in
        let name = name_at room i in
        done (
          if ltb prev_max_bet now
          then (let raise_by = now - prev_max_bet in
              let higher = record bet { current_max_bet = now } in
              if leb prev_min_raise raise_by
              then announce env (reopen_betting env (record higher { min_raise = raise_by }) i) i
                  (Notice.all_in_to name now) (ActionText.did_all_in_to now)
              else announce env (leave_pending higher i) i (Notice.short_all_in name now)
                  (ActionText.did_all_in_to now))
          else announce env (leave_pending bet i) i (Notice.all_in_call name)
              ActionText.did_all_in))

-- The branches over the type of the action.
unfoldable pub apply_action : Env → Room → ℕ → PlayerState → ActionType → ℤ → Outcome
apply_action env room i p fold raise_by = done (do_fold env room i)
apply_action env room i p check raise_by = do_check env room i p
apply_action env room i p call raise_by = done (do_call env room i p)
apply_action env room i p raise raise_by = do_raise env room i p raise_by
apply_action env room i p all_in raise_by = do_all_in env room i p

-- What follows an action: the end of the hand, the next street or the next turn.
unfoldable pub after_action : Env → Room → ℕ → Room
after_action env room i =
    if leb (length (get_in_hand_seats env room)) 1
    then finish_hand env room
    else (let (pruned, advance) = can_advance_street (remove_ineligible_from_pending room) in
        if advance
        then proceed_to_next_street env pruned
        else (let (chosen, actor) = choose_next_actor pruned i in
            request_turn env (record chosen { active_seat_idx = actor })))

abbrev pub is_player : SeatType → Bool
is_player SeatType.player = true
is_player _ = false

abbrev pub is_active_seat : Room → ℕ → Bool
is_active_seat room i = elim room.active_seat_idx [ none ↦ false | some a ↦ a == i ]

-- The room after `handle_action`, and the reason that goes to the socket of the actor, if any.
-- `socket` is empty for the machine, which hears no reasons.
unfoldable pub handle_action : Env → Room → ℕ → ActionRequest → String → Room × Option Reason
handle_action env room i action socket =
    let by_machine = str_eq socket "" in
    let reject = λ (reason : Reason). if by_machine then none else some reason in
    elim (get_player room i) [
      | none ↦ (room, reject seat_not_found)
      | some p ↦
          if not (is_player (seat_at room i).type) && not by_machine
          then (room, reject not_a_player)
          else if p.is_folded || p.is_bankrupt
          then (room, reject not_active)
          else if not (is_active_seat room i) || not (member i room.pending_action_seats)
          then (room, reject not_your_turn)
          else (let acted = record room { last_actor_seat_idx = some i } in
              elim (action_type (normalize_action_name action.type)) [
                | none ↦ (acted, reject unsupported)
                | some type ↦ elim (apply_action env acted i p type action.raise_by) [
                  | refused reason ↦ (acted, reject reason)
                  | done after ↦ (after_action env after i, none)
                ]
              ])
    ]
