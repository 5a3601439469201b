-- ===== src/Table/Frame/Requests.antt =====
-- So do the requests of a player.
use Prim.Native.String.{String}
use text.Mathlib.Text.{◌==◌ as str_eq}
use dezhou.Prelude.{
  ℕ, refl, ◌||◌, not, ltb, ◌∷◌, some, any_of, all_of, if◌then◌else◌, if-cases, elim-cases,
}
use dezhou.Prelude.Int.{ℤ}
use dezhou.Table.State.{Room, Env, Notice, ActionRequest, seat_at, k_seats}
use dezhou.Table.Seats.{get_player, is_online}
use dezhou.Table.Action.{is_player}
use dezhou.Table.Serving.{Session, is_host}
use dezhou.Table.Rebuys.{
  rebuy_amount, pledge_at, handle_rebuy, handle_rebuy_request, handle_rebuy_approve,
  handle_rebuy_deny,
}
use dezhou.Table.Requests.{
  act, is_foreign, is_other_socket, handle_player_action, allowed_decor, handle_set_decor, has_name,
  release_room_if_done, handle_ack_match_over,
}
use dezhou.Table.Frame.{
  quiet, and_then, still, grow_more, broadcast_activity-Frames, broadcast_game-Frames,
}
use dezhou.Table.Frame.Actions.{handle_action-Frames}
use dezhou.Table.Frame.Serves.{Serves, nothing, set_seat-Grows}

module _ (env : Env) (session : Session) (room : Room) where
  pub handle_player_action-Serves :
      (req : ActionRequest) → Serves room (handle_player_action env session (some room) req)
  unfolding handle_player_action act
  handle_player_action-Serves req =
      let P = Serves room in
      if-cases P (not room.started) _ _ (λ h. nothing room)
        λ h.
          elim-cases P session.seat_idx _ _ (λ e. nothing room)
            λ i e.
              let seat = seat_at room i in
              if-cases P (not (ltb i k_seats)) _ _ (λ h. nothing room)
                λ h.
                  if-cases P (not (is_player seat.type)) _ _ (λ h. nothing room)
                    λ h.
                      if-cases P (is_foreign session seat) _ _ (λ h. nothing room)
                        λ h.
                          if-cases P (is_other_socket session seat) _ _ (λ h. nothing room)
                            λ h. (handle_action-Frames env room i req session.socket_id).grows

  pledge_at-Serves :
      (i amount : ℕ) (notice : Notice) → Serves room (pledge_at env room i amount notice)
  unfolding pledge_at
  pledge_at-Serves i amount notice =
      (and_then (quiet (record room { players = _ }) refl refl)
        (and_then (broadcast_activity-Frames env _ notice) (broadcast_game-Frames env _))).grows

  pub handle_rebuy-Serves : (amount : ℤ) → Serves room (handle_rebuy env session (some room) amount)
  unfolding handle_rebuy
  handle_rebuy-Serves amount =
      let P = Serves room in
      if-cases P (not room.started || room.closing) _ _ (λ h. nothing room)
        λ h.
          elim-cases P session.seat_idx _ _ (λ e. nothing room)
            λ i e.
              elim-cases P (get_player room i) _ _ (λ e. nothing room)
                λ p e.
                  if-cases P (ltb 0 p.chips) _ _ (λ h. nothing room)
                    λ h.
                      elim-cases P (rebuy_amount amount) _ _ (λ e. nothing room)
                        λ n e. pledge_at-Serves i n _

  pub handle_rebuy_request-Serves :
      (amount : ℤ) → Serves room (handle_rebuy_request env session (some room) amount)
  unfolding handle_rebuy_request
  handle_rebuy_request-Serves amount =
      let P = Serves room in
      if-cases P (not room.started || room.closing) _ _ (λ h. nothing room)
        λ h.
          elim-cases P session.seat_idx _ _ (λ e. nothing room)
            λ i e.
              elim-cases P (get_player room i) _ _ (λ e. nothing room)
                λ p e.
                  if-cases P (ltb 0 p.chips) _ _ (λ h. nothing room)
                    λ h.
                      elim-cases P (rebuy_amount amount) _ _ (λ e. nothing room)
                        λ n e.
                          if-cases P (not (is_online env room.host_socket_id)) _ _
                            (λ h. nothing room) (λ h. nothing room)

  pub handle_rebuy_approve-Serves :
      (i : ℕ) (amount : ℤ) → Serves room (handle_rebuy_approve env session (some room) i amount)
  unfolding handle_rebuy_approve
  handle_rebuy_approve-Serves i amount =
      let P = Serves room in
      if-cases P (not room.started || room.closing || not (is_host session room)) _ _
        (λ h. nothing room)
        λ h.
          elim-cases P (get_player room i) _ _ (λ e. nothing room)
            λ p e.
              elim-cases P (rebuy_amount amount) _ _ (λ e. nothing room)
                λ n e. pledge_at-Serves i n _

  pub handle_rebuy_deny-Serves : (i : ℕ) → Serves room (handle_rebuy_deny env session (some room) i)
  unfolding handle_rebuy_deny
  handle_rebuy_deny-Serves i =
      let P = Serves room in
      let seat = seat_at room i in
      if-cases P (not room.started || room.closing || not (is_host session room)) _ _
        (λ h. nothing room)
        λ h.
          if-cases P (not (is_player seat.type) || not (is_online env seat.socket_id)) _ _
            (λ h. nothing room) λ h. (broadcast_activity-Frames env room _).grows

  pub handle_set_decor-Serves :
      (decor : String) → Serves room (handle_set_decor env session (some room) decor)
  unfolding handle_set_decor
  handle_set_decor-Serves decor =
      let P = Serves room in
      elim-cases P session.seat_idx _ _ (λ e. nothing room)
        λ i e.
          if-cases P (room.closing || not (any_of (str_eq decor) allowed_decor)) _ _
            (λ h. nothing room)
            λ h.
              grow_more (set_seat-Grows room i (record (seat_at room i) { decor = decor }))
                (grow_more (still _ _ refl) (broadcast_game-Frames env _).grows)

  pub handle_ack_match_over-Serves : Serves room (handle_ack_match_over session (some room))
  unfolding handle_ack_match_over release_room_if_done
  handle_ack_match_over-Serves =
      let P = Serves room in
      let noted = record room {
        match_acks =
            if has_name room.match_acks session.socket_id
            then room.match_acks
            else session.socket_id ∷ room.match_acks;
      } in
      let same = still room noted refl in
      if-cases P (not room.closing) _ _ (λ h. nothing room)
        λ h.
          if-cases P (str_eq room.room_type "friend") _ _ (λ h. same)
            λ h.
              if-cases P (not (all_of (has_name noted.match_acks) room.expected_acks)) _ _
                (λ h. same) (λ h. tt)
