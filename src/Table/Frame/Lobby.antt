-- ===== src/Table/Frame/Lobby.antt =====
-- The requests of the host let the history grow, and keep the room's id and the number of its
-- seats.
use Prim.Native.String.{String}
use dezhou.Prelude.{
  ℕ, refl, ◌||◌, not, ltb, leb, ◌==◌, List, [], ◌∷◌, Option, none, some, length, keep, set,
  if◌then◌else◌, if-cases, elim-cases,
}
use dezhou.Prelude.Maps.{adjust, erase}
use dezhou.Prelude.Sets.{erase as erase_seat}
use dezhou.Table.State.{
  Room, Env, SeatType, Notice, ActionText, seat_at, no_seat, k_seats, seat_indices,
}
use dezhou.Table.Events.{broadcast_activity, broadcast_player_action}
use dezhou.Table.Seats.{ensure_players_map, get_in_hand_seats}
use dezhou.Table.Betting.{can_advance_street, choose_next_actor, remove_ineligible_from_pending}
use dezhou.Table.Action.{is_active_seat, is_player}
use dezhou.Table.Serving.{Session, Reply, is_host}
use dezhou.Table.Lobby.{
  ai_name, kick_player, StartGameRequest, show_all, toggle_seat, handle_toggle_ai, kick_in_hand,
  handle_kick_seat, set_up_match, is_occupied, handle_start_game, prune_seats, prune_departed_seats,
  is_departed, handle_next_hand,
}
use dezhou.Table.Frame.{
  Frames, Grows, quiet, and_then, still, grow_more, broadcast_activity-Frames,
  broadcast_player_action-Frames, broadcast_game-Frames,
}
use dezhou.Table.Frame.Money.{finish_hand-Frames}
use dezhou.Table.Frame.Turns.{request_turn-Frames, proceed_to_next_street-Frames}
use dezhou.Table.Frame.Matches.{start_hand-Grows, emit_match_over-Grows}
use dezhou.Table.Frame.Serves.{Serves, nothing, set_seat-Grows, free_seat-Grows}

module _ (env : Env) (session : Session) (room : Room) where
  show_all-Serves :
      (sent : List (String × Reply)) (after : Room)
      → Grows room after
      → Serves room (show_all env sent after)
  unfolding show_all
  show_all-Serves sent after g = grow_more g (broadcast_game-Frames env after).grows

  toggle_seat-Grows : (i : ℕ) → Grows room (toggle_seat room i)
  unfolding toggle_seat ensure_players_map
  toggle_seat-Grows i = toggled (seat_at room i).type
    where
      toggled :
          (t : SeatType)
          → Grows room (elim t [
            | SeatType.ai ↦ record room {
              seats = set room.seats i no_seat;
              players = erase i room.players;
            }
            | _ ↦ ensure_players_map (record room {
              seats =
                  set room.seats i
                    (record (seat_at room i) { type = SeatType.ai; name = ai_name i });
            })
          ])
      toggled SeatType.ai = free_seat-Grows room i _
      toggled _ = grow_more (set_seat-Grows room i _) (still _ _ refl)

  pub handle_toggle_ai-Serves :
      (i : Option ℕ) → Serves room (handle_toggle_ai env session (some room) i)
  unfolding handle_toggle_ai
  handle_toggle_ai-Serves seat_idx =
      let P = Serves room in
      if-cases P room.started _ _ (λ h. nothing room)
        λ h.
          if-cases P room.closing _ _ (λ h. nothing room)
            λ h.
              if-cases P (not (is_host session room)) _ _ (λ h. nothing room)
                λ h.
                  elim-cases P seat_idx _ _ (λ e. nothing room)
                    λ i e.
                      if-cases P (not (ltb i k_seats)) _ _ (λ h. nothing room)
                        λ h.
                          if-cases P (is_player (seat_at room i).type) _ _ (λ h. nothing room)
                            λ h. show_all-Serves [] _ (toggle_seat-Grows i)

  kick_in_hand-Serves : (i : ℕ) → Serves room (kick_in_hand env room i)
  unfolding kick_in_hand can_advance_street choose_next_actor remove_ineligible_from_pending
  kick_in_hand-Serves i =
      let seat = seat_at room i in
      let folded = record room {
        players = adjust i (kick_player room.hand_num) room.players;
        pending_action_seats = erase_seat i room.pending_action_seats;
      } in
      let told =
        broadcast_player_action env
          (broadcast_activity env folded (Notice.removed_by_host seat.name)) i
          ActionText.did_fold in
      let to_told : Frames room told = and_then (quiet folded refl refl) (
        and_then (broadcast_activity-Frames env folded _)
          (broadcast_player_action-Frames env _ i _)) in
      let (chosen, actor) = choose_next_actor told i in
      let moved =
        if is_active_seat told i then record chosen { active_seat_idx = actor } else told in
      let to_moved : Frames told moved =
        if-cases (Frames told) (is_active_seat told i) _ _ (λ h. quiet _ refl refl)
          (λ h. quiet told refl refl) in
      let (pruned, advance) = can_advance_street moved in
      if-cases (Serves room) (leb (length (get_in_hand_seats env told)) 1) _ _
        (λ h. (and_then to_told (finish_hand-Frames env told)).grows)
        (λ h. show_all-Serves _ _ (
          if-cases (Grows room) advance _ _
            (λ h.
              (and_then to_told (
                and_then to_moved (
                  and_then (quiet pruned refl refl)
                    (proceed_to_next_street-Frames env pruned)))).grows)
            (λ h.
              (and_then to_told (
                and_then to_moved
                  (and_then (quiet pruned refl refl) (request_turn-Frames env pruned)))).grows)))

  pub handle_kick_seat-Serves :
      (i : Option ℕ) → Serves room (handle_kick_seat env session (some room) i)
  unfolding handle_kick_seat
  handle_kick_seat-Serves seat_idx =
      let P = Serves room in
      if-cases P (room.closing || not (is_host session room)) _ _ (λ h. nothing room)
        λ h.
          elim-cases P seat_idx _ _ (λ e. nothing room)
            λ i e.
              if-cases P (not (ltb i k_seats) || not (is_player (seat_at room i).type)) _ _
                (λ h. nothing room)
                λ h.
                  if-cases P room.started _ _ (λ h. kick_in_hand-Serves i)
                    λ h. show_all-Serves _ _ (free_seat-Grows room i _)

  set_up_match-Grows : (req : StartGameRequest) → Grows room (set_up_match room req)
  unfolding set_up_match ensure_players_map
  set_up_match-Grows req = still room _ refl

  pub handle_start_game-Serves :
      (req : StartGameRequest) → Serves room (handle_start_game env session (some room) req)
  unfolding handle_start_game
  handle_start_game-Serves req =
      let P = Serves room in
      if-cases P (room.started || room.closing || not (is_host session room)) _ _
        (λ h. nothing room)
        λ h.
          if-cases P (ltb (length (keep (is_occupied room) seat_indices)) 3) _ _ (λ h. nothing room)
            λ h. grow_more (set_up_match-Grows req) (start_hand-Grows env _)

prune_seats-Grows : (env : Env) (is : List ℕ) (room : Room) → Grows room (prune_seats env is room)
unfolding prune_seats
prune_seats-Grows env [] room = still room room refl
prune_seats-Grows env (i ∷ is) room =
    grow_more
      (if-cases (Grows room) (is_departed env (seat_at room i)) _ _ (λ h. free_seat-Grows room i _)
        (λ h. still room room refl))
      (prune_seats-Grows env is _)

pub handle_next_hand-Serves :
    (env : Env) (session : Session) (room : Room)
    → Serves room (handle_next_hand env session (some room))
unfolding handle_next_hand prune_departed_seats
handle_next_hand-Serves env session room =
    let P = Serves room in
    let nothing = still room room refl in
    if-cases P (not room.started || not (is_host session room) || not (room.pot == 0)) _ _
      (λ h. nothing)
      λ h.
        if-cases P (leb room.total_hands room.hand_num) _ _
          (λ h. emit_match_over-Grows env room none)
          λ h.
            grow_more (still room (record room { dealer_seat_idx = _ }) refl)
              (grow_more (prune_seats-Grows env seat_indices _) (start_hand-Grows env _))
