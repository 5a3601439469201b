-- ===== src/Table/Frame/Matches.antt =====
-- A new hand keeps the frame, and the end of a match lets the history grow.
use Prim.Native.String.{String}
use text.Mathlib.Text.{◌==◌ as str_eq}
use Prim.Native.String.{String}
use dezhou.Table.Serving.{Reply}
use dezhou.Prelude.{
  ℕ, refl, List, [], ◌∷◌, Option, none, some, ltb, leb, length, keep, if◌then◌else◌, if-cases,
  elim-cases,
}
use dezhou.Prelude.Int.{pos, pos_part}
use dezhou.Engine.RoundPhase.{waiting}
use dezhou.Table.State.{
  Room, Env, PlayerState, SeatType, Notice, Message, MatchStat, seat_at, seat_indices,
}
use dezhou.Table.Events.{broadcast_activity, emit_seat_event}
use dezhou.Table.Seats.{get_player, ensure_players_map, is_seat_eligible}
use dezhou.Table.Betting.{place_bet, post_blind, init_pending_action}
use dezhou.Table.Deal.{
  announce_rebuys, apply_pending_rebuys, reset_hand, deal_round, deal_hole_cards, pop_back,
}
use dezhou.Table.Match.{emit_match_over}
use dezhou.Table.Hand.{send_private_hands, play_hand, start_hand}
use dezhou.Table.Frame.{
  Frames, Grows, quiet, and_then, still, grow_more, broadcast_activity-Frames,
  broadcast_game-Frames, emit_room_event-Frames, emit_seat_event-Frames,
}
use dezhou.Table.Frame.Turns.{request_turn-Frames, place_bet-Frames}

announce_rebuys-Frames :
    (env : Env) (m : List (ℕ × PlayerState)) (room : Room)
    → Frames room (announce_rebuys env m room)
unfolding announce_rebuys
announce_rebuys-Frames env [] room = quiet room refl refl
announce_rebuys-Frames env ((i, p) ∷ m) room =
    and_then
      (if-cases (Frames room) (leb (pos_part p.pending_rebuy) 0) _ _ (λ h. quiet room refl refl)
        (λ h. broadcast_activity-Frames env room _))
      (announce_rebuys-Frames env m _)

pub apply_pending_rebuys-Frames :
    (env : Env) (room : Room) → Frames room (apply_pending_rebuys env room)
unfolding apply_pending_rebuys
apply_pending_rebuys-Frames env room =
    and_then (quiet (record room { players = _ }) refl refl)
      (announce_rebuys-Frames env room.players _)

post_blind-Frames : (room : Room) (i amount : ℕ) → Frames room (post_blind room i amount)
unfolding post_blind
post_blind-Frames room i amount =
    let bet = (place_bet room i (pos amount)).0 in
    and_then (place_bet-Frames room i (pos amount)) (
      elim-cases (Frames bet) (get_player bet i) _ _ (λ e. quiet bet refl refl)
        (λ p e. quiet (record bet { current_max_bet = _ }) refl refl))

deal_round-Frames : (is : List ℕ) (room : Room) → Frames room (deal_round is room)
unfolding deal_round
deal_round-Frames [] room = quiet room refl refl
deal_round-Frames (i ∷ is) room =
    and_then
      (elim-cases (Frames room) (get_player room i) _ _ (λ e. quiet room refl refl)
        λ p e.
          elim-cases (Frames room) (pop_back room.deck) _ _ (λ e. quiet room refl refl)
            λ d e. quiet (record room { deck = d.1; players = _ }) refl refl)
      (deal_round-Frames is _)

deal_hole_cards-Frames : (env : Env) (room : Room) → Frames room (deal_hole_cards env room)
unfolding deal_hole_cards
deal_hole_cards-Frames env room = and_then (deal_round-Frames _ room) (deal_round-Frames _ _)

-- What `send_private_hands` does for one seat.
private_hand : Env → Room → ℕ → SeatType → Room
private_hand env room i SeatType.player = elim (get_player room i) [
  | none ↦ room
  | some p ↦
      if str_eq (seat_at room i).socket_id ""
      then room
      else emit_seat_event env room i (Message.private_hand i p.hand)
]
private_hand env room i _ = room

private_hand-Frames :
    (env : Env) (room : Room) (i : ℕ) (type : SeatType) → Frames room (private_hand env room i type)
unfolding private_hand
private_hand-Frames env room i SeatType.player =
    elim-cases (Frames room) (get_player room i) _ _ (λ e. quiet room refl refl)
      λ p e.
        if-cases (Frames room) (str_eq (seat_at room i).socket_id "") _ _
          (λ h. quiet room refl refl) (λ h. emit_seat_event-Frames env room i _)
private_hand-Frames env room i _ = quiet room refl refl

send_private_hands-Frames :
    (env : Env) (is : List ℕ) (room : Room) → Frames room (send_private_hands env is room)
unfolding send_private_hands private_hand
send_private_hands-Frames env [] room = quiet room refl refl
send_private_hands-Frames env (i ∷ is) room =
    and_then (private_hand-Frames env room i (seat_at room i).type)
      (send_private_hands-Frames env is _)

pub play_hand-Frames : (env : Env) (room : Room) → Frames room (play_hand env room)
unfolding play_hand reset_hand init_pending_action
play_hand-Frames env room = and_then (quiet (reset_hand env room) refl refl) (
    and_then (broadcast_activity-Frames env _ _) (
      and_then
        (quiet
          (record (broadcast_activity env (reset_hand env room) _) {
            sb_seat_idx = _;
            bb_seat_idx = _;
          })
          refl refl)
        (and_then (post_blind-Frames _ _ _) (
          and_then (post_blind-Frames _ _ _) (
            and_then (broadcast_activity-Frames env _ _) (
              and_then (broadcast_activity-Frames env _ _) (
                and_then (deal_hole_cards-Frames env _) (
                  and_then (send_private_hands-Frames env seat_indices _) (
                    and_then (quiet _ refl refl)
                      (and_then (broadcast_game-Frames env _) (request_turn-Frames env _)))))))))))

pub emit_match_over-Grows :
    (env : Env) (room : Room) (reason : Option String)
    → Grows room (emit_match_over env room reason).0
unfolding emit_match_over
emit_match_over-Grows env room reason =
    let P = λ (r : Room × List (String × Reply) × List MatchStat). Grows room r.0 in
    let reusable = str_eq room.room_type "friend" in
    if-cases P room.closing (room, [], []) _ (λ h. still room room refl)
      λ h.
        grow_more
          (still room
            (record room {
              closing = _;
              started = _;
              status = _;
              round = waiting;
              active_seat_idx = none;
              pending_action_seats = [];
            })
            refl)
          (grow_more
            (elim-cases (Grows _) reason _ _ (λ e. still _ _ refl)
              (λ text e. (broadcast_activity-Frames env _ _).grows))
            (grow_more (broadcast_activity-Frames env _ (Notice.match_text "Match over.")).grows (
              grow_more
                (still _
                  (record (broadcast_activity env _ (Notice.match_text "Match over.")) {
                    expected_acks = _;
                    match_acks = [];
                  })
                  refl)
                (emit_room_event-Frames env _ _).grows)))

pub start_hand-Grows : (env : Env) (room : Room) → Grows room (start_hand env room).0
unfolding start_hand ensure_players_map
start_hand-Grows env room =
    let ready = apply_pending_rebuys env (ensure_players_map room) in
    let P = λ (r : Room × List (String × Reply) × List MatchStat). Grows ready r.0 in
    grow_more (still room (ensure_players_map room) refl) (
      grow_more (apply_pending_rebuys-Frames env _).grows (
        if-cases P (ltb (length (keep (is_seat_eligible env ready) seat_indices)) 2) _ _
          (λ h. emit_match_over-Grows env ready _) (λ h. (play_hand-Frames env ready).grows)))
