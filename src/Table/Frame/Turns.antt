-- ===== src/Table/Frame/Turns.antt =====
-- The streets, the turns and the bets keep the frame.
use dezhou.Prelude.{
  ℕ, zero, suc, refl, none, some, ◌||◌, leb, length, is_empty, if-cases, elim-cases,
}
use dezhou.Prelude.Int.{ℤ}
use dezhou.Engine.RoundPhase.{RoundPhase, pre_flop, flop, turn, river, showdown}
use dezhou.Table.State.{Room, Env, seat_at}
use dezhou.Table.Seats.{get_player, get_in_hand_seats, get_actable_seats, get_active_offset}
use dezhou.Table.Events.{broadcast_game}
use dezhou.Table.Betting.{
  place_bet, init_pending_action, remove_ineligible_from_pending, choose_next_actor,
}
use dezhou.Table.Turn.{
  open_street, clear_bets, is_showdown, proceed_with, is_machine, announce_turn, is_pending_turn,
  settle_turn, request_with, request_turn_fuel, street_fuel, request_turn, proceed_to_next_street,
}
use dezhou.Table.Frame.{Frames, quiet, and_then, emit_room_event-Frames, broadcast_game-Frames}
use dezhou.Table.Frame.Money.{deal_community-Frames, finish_hand-Frames}

open_street-Frames : (phase : RoundPhase) (room : Room) → Frames room (open_street phase room)
unfolding open_street
open_street-Frames pre_flop room =
    and_then (quiet (record room { round = flop }) refl refl) (deal_community-Frames _ 3)
open_street-Frames flop room =
    and_then (quiet (record room { round = turn }) refl refl) (deal_community-Frames _ 1)
open_street-Frames turn room =
    and_then (quiet (record room { round = river }) refl refl) (deal_community-Frames _ 1)
open_street-Frames _ room = quiet (record room { round = showdown }) refl refl

proceed_with-Frames :
    (request : Room → Room) (env : Env) (room : Room)
    → ((r : Room) → Frames r (request r))
    → Frames room (proceed_with request env room)
unfolding proceed_with clear_bets init_pending_action
proceed_with-Frames request env room go =
    let opened = open_street room.round (clear_bets room) in
    let first = get_active_offset env opened opened.dealer_seat_idx 1 in
    let to_street =
      and_then (quiet (clear_bets room) refl refl)
        (open_street-Frames room.round (clear_bets room)) in
    if-cases (Frames room) (is_showdown opened.round) _ _
      (λ h. and_then to_street (finish_hand-Frames env opened))
      (λ h. and_then to_street (
        and_then (quiet (init_pending_action env opened first) refl refl)
          (and_then (broadcast_game-Frames env _) (go _))))

announce_turn-Frames :
    (env : Env) (room : Room) (active : ℕ) → Frames room (announce_turn env room active)
unfolding announce_turn
announce_turn-Frames env room active =
    let shown = broadcast_game env room in
    and_then (broadcast_game-Frames env room) (
      if-cases (Frames shown) (is_machine env (seat_at room active)) _ _
        (λ h. quiet (record shown { ai_timer = some active }) refl refl)
        (λ h. emit_room_event-Frames env shown _))

settle_turn-Frames : (room : Room) → Frames room (settle_turn room)
unfolding settle_turn choose_next_actor remove_ineligible_from_pending
settle_turn-Frames room =
    let pruned = remove_ineligible_from_pending room in
    if-cases (Frames room) (is_pending_turn pruned) _ _ (λ h. quiet pruned refl refl)
      (λ h. quiet (record pruned { pending_action_seats = _; active_seat_idx = _ }) refl refl)

request_with-Frames :
    (proceed : Room → Room) (env : Env) (room : Room)
    → ((r : Room) → Frames r (proceed r))
    → Frames room (request_with proceed env room)
unfolding request_with
request_with-Frames proceed env room go =
    let stopped = record room { ai_timer = none } in
    let ready = settle_turn stopped in
    and_then (quiet stopped refl refl) (
      if-cases (Frames stopped) (leb (length (get_in_hand_seats env stopped)) 1) _ _
        (λ h. finish_hand-Frames env stopped)
        (λ h.
          if-cases (Frames stopped) (is_empty (get_actable_seats env stopped)) _ _
            (λ h.
              and_then (quiet (record stopped { round = showdown }) refl refl)
                (finish_hand-Frames env _))
            (λ h. and_then (settle_turn-Frames stopped) (
              elim-cases (Frames ready) ready.active_seat_idx _ _ (λ e. go ready)
                (λ active e. announce_turn-Frames env ready active)))))

request_turn_fuel-Frames :
    (fuel : ℕ) (env : Env) (room : Room) → Frames room (request_turn_fuel fuel env room)
unfolding request_turn_fuel
request_turn_fuel-Frames zero env room = quiet room refl refl
request_turn_fuel-Frames (suc fuel) env room =
    request_with-Frames _ env room λ r.
      proceed_with-Frames (request_turn_fuel fuel env) env r (request_turn_fuel-Frames fuel env)

pub request_turn-Frames : (env : Env) (room : Room) → Frames room (request_turn env room)
unfolding request_turn
request_turn-Frames env room = request_turn_fuel-Frames street_fuel env room

pub proceed_to_next_street-Frames :
    (env : Env) (room : Room) → Frames room (proceed_to_next_street env room)
unfolding proceed_to_next_street
proceed_to_next_street-Frames env room =
    proceed_with-Frames _ env room (request_turn_fuel-Frames street_fuel env)

pub place_bet-Frames : (room : Room) (i : ℕ) (amount : ℤ) → Frames room (place_bet room i amount).0
unfolding place_bet
place_bet-Frames room i amount =
    let P = λ (r : Room × ℕ). Frames room r.0 in
    elim-cases P (get_player room i) _ _ (λ e. quiet room refl refl)
      λ p e.
        if-cases P (p.is_folded || p.is_bankrupt) (room, 0) _ (λ h. quiet room refl refl)
          (λ h. quiet (record room { players = _; pot = _ }) refl refl)
