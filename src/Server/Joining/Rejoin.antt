-- ===== src/Server/Joining/Rejoin.antt =====
-- Joining a room sends no missed events, since showing the game has marked them as seen before
-- they are replayed.
use Prim.Native.String.{String}
use text.Mathlib.Text.{◌==◌ as str_eq}
use dezhou.Prelude.{
  ℕ, ◌≡◌, refl, sym, ap, ◌∙◌, subst, true, false, ◌&&◌, ◌||◌, not, [], ◌∷◌, none, some, if-cases,
  elim-cases, arith,
}
use dezhou.Prelude.Names.{str_eq_refl, find_name-put_name_self}
use dezhou.Table.State.{Room, Env, seat_at}
use dezhou.Table.Events.{broadcast_game}
use dezhou.Table.Turn.{request_turn}
use dezhou.Table.Frame.{broadcast_game-Frames, still}
use dezhou.Table.Serving.{Session, Reply, Refusal, broadcast_room, build_room_state}
use dezhou.Table.Requests.{has_name}
use dezhou.Server.State.{Server, get_room, session_now, put_room, send_all, send_event}
use dezhou.Server.Marks.{update_room}
use dezhou.Server.Marks.Rooms.{catch_up-sent}
use dezhou.Server.Marks.Seen.{HasSeen}
use dezhou.Server.Sync.{send_full_state_sync, replay_to_session}
use dezhou.Server.Seating.{own_or}
use dezhou.Server.Joining.{
  JoinRoomRequest, is_seated, is_hand_over, admit, enter, resume_gameplay, reconnect_idx, rejoin,
  welcome, join, handle_join_room,
}
use dezhou.Server.Joining.Replays.{broadcast_game-HasSeen, replay_to_session-sent}
use dezhou.Server.Sound.{IsSound, RoomIsSound, grown-IsSound, get_room-IsSound}
use dezhou.Server.Sound.Sessions.{rejoin-Grows, own_room}
use dezhou.Server.Joining.Missed.{
  is_missed_reply, missed_of, missed_of-send, missed_of-states, send_full_state_sync-missed,
  send_full_state_sync-HasSeen,
}

-- The end of joining sends no missed events.
welcome-missed :
    (env : Env) (session : Session) (room : Room) (server : Server) (n : ℕ)
    → RoomIsSound room.room_id room
    → has_name room.socket_ids session.socket_id ≡ true
    → HasSeen session.socket_id n server
    → missed_of (welcome env session room server).sent ≡ missed_of server.sent
unfolding welcome broadcast_room
welcome-missed env session room server n r member seen =
    let socket = session.socket_id in
    let back = room.started && not room.closing && is_seated session in
    let after = broadcast_game env room in
    let greeted = send_event socket (Reply.user_profile session.profile) server in
    let synced = send_full_state_sync session room back greeted in
    let shown_all = send_all (broadcast_room room) synced in
    let shown = update_room env room.room_id room after shown_all in
    let P = λ (s : Server). missed_of s.sent ≡ missed_of server.sent in
    let all_plain : P shown_all =
      missed_of-send synced.sent (broadcast_room room) (
        missed_of-states (λ s. Reply.room_state (build_room_state room s)) room.socket_ids
          (λ s. refl))
      ∙ send_full_state_sync-missed session room back greeted
      ∙ missed_of-send server.sent ((socket, Reply.user_profile session.profile) ∷ []) refl in
    let shown_plain : P shown = ap missed_of (catch_up-sent env room after _) ∙ all_plain in
    let (now, found, le) =
      broadcast_game-HasSeen env room n socket (put_room room.room_id after shown_all) member
        (send_full_state_sync-HasSeen session room back n socket greeted seen) in
    let after-IsSound = grown-IsSound (broadcast_game-Frames env room).grows r in
    let replay_to = λ (s : Session). replay_to_session env s after shown in
    let now_plain : P (replay_to now) =
      ap missed_of (replay_to_session-sent env now after shown after-IsSound le) ∙ shown_plain in
    let replayed_plain : P (replay_to (session_now shown session)) =
      subst (λ o. P (replay_to (elim o [ none ↦ session | some s ↦ s ]))) (sym found) now_plain in
    if-cases P (not back) _ _ (λ e. shown_plain)
      λ e.
        if-cases P (is_hand_over after.round) _ _ (λ e. replayed_plain)
          λ e. ap missed_of (catch_up-sent env after (request_turn env after) _) ∙ replayed_plain

enter-sent :
    (env : Env) (session : Session) (req : JoinRoomRequest) (server : Server)
    → (enter env session req server).1.sent ≡ server.sent
unfolding enter resume_gameplay
enter-sent env session req server =
    if-cases (λ (r : Session × Server). r.1.sent ≡ server.sent) (str_eq _ "") _ _ (λ e. refl)
      (λ e. refl)

enter-HasSeen :
    (env : Env) (session : Session) (req : JoinRoomRequest) (server : Server)
    → HasSeen (enter env session req server).0.socket_id 0 (enter env session req server).1
unfolding enter
enter-HasSeen env session req server =
    let (own, entered) = enter env session req server in
    (own, find_name-put_name_self own.socket_id own _, omega arith)

admit-member :
    (env : Env) (session : Session) (room : Room)
    → has_name (admit env session room).socket_ids session.socket_id ≡ true
admit-member env session room =
    if-cases (λ xs. has_name xs session.socket_id ≡ true)
      (has_name room.socket_ids session.socket_id) room.socket_ids
      (session.socket_id ∷ room.socket_ids) (λ e. e)
      (λ e.
        ap (λ b. b || has_name room.socket_ids session.socket_id) (str_eq_refl session.socket_id))

rejoin-sent :
    (env : Env) (session : Session) (room : Room) (i : ℕ) (server : Server)
    → (rejoin env session room i server).2.sent ≡ server.sent
unfolding rejoin
rejoin-sent env session room i server =
    let P = λ (s : Server). s.sent ≡ server.sent in
    if-cases P (str_eq (own_or session (seat_at room i).gameplay_session_id) "") _ _
      (λ e. if-cases P (str_eq _ "") server _ (λ e. refl) (λ e. refl))
      (λ e. if-cases P (str_eq _ "") server _ (λ e. refl) (λ e. refl))

rejoin-HasSeen :
    (env : Env) (session : Session) (room : Room) (i : ℕ) (server : Server)
    → HasSeen (rejoin env session room i server).0.socket_id 0 (rejoin env session room i server).2
unfolding rejoin
rejoin-HasSeen env session room i server =
    let (again, back, bound) = rejoin env session room i server in
    let P = HasSeen session.socket_id 0 in
    if-cases P (str_eq (own_or session (seat_at room i).gameplay_session_id) "") _ _
      (λ e. (again, find_name-put_name_self session.socket_id again _, omega arith))
      (λ e. (again, find_name-put_name_self session.socket_id again _, omega arith))

rejoined-IsSound :
    (env : Env) (session : Session) (id : String) (room : Room) (i : ℕ) (server : Server)
    → RoomIsSound id room
    → RoomIsSound id
        (admit env (rejoin env session room i server).0 (rejoin env session room i server).1)
unfolding rejoin
rejoined-IsSound env session id room i server r =
    let (again, back, bound) = rejoin env session room i server in
    grown-IsSound (still back (admit env again back) refl)
      (grown-IsSound (rejoin-Grows session room i) r)

join-missed :
    (env : Env) (session : Session) (req : JoinRoomRequest) (room : Room) (server : Server)
    → RoomIsSound req.room_id room
    → missed_of (join env session req room server).sent ≡ missed_of server.sent
unfolding join
join-missed env session req room server r =
    let (own, entered) = enter env session req server in
    let P = λ (s : Server). missed_of s.sent ≡ missed_of server.sent in
    let entered_plain : P entered = ap missed_of (enter-sent env session req server) in
    let seen = enter-HasSeen env session req server in
    if-cases P (not room.started) _ _
      (λ e.
        let admitted = grown-IsSound (still room (admit env own room) refl) r in
        welcome-missed env own (admit env own room)
          (put_room req.room_id (admit env own room) entered) 0 (own_room admitted)
          (admit-member env own room) seen
        ∙ entered_plain)
      (λ e.
        elim-cases P (reconnect_idx own req room) _ _
          (λ e. missed_of-send entered.sent _ refl ∙ entered_plain)
          (λ i e.
            let (again, back, bound) = rejoin env own room i entered in
            let admitted = rejoined-IsSound env own req.room_id room i entered r in
            welcome-missed env again (admit env again back)
              (put_room req.room_id (admit env again back) bound) 0 (own_room admitted)
              (admit-member env again back) (rejoin-HasSeen env own room i entered)
            ∙ ap missed_of (rejoin-sent env own room i entered)
            ∙ entered_plain))

-- Joining a room of a sound server never sends a missed event, not even to a player who comes back
-- to a match with events that he has not seen.
pub handle_join_room-missed :
    (env : Env) (session : Session) (req : JoinRoomRequest) (server : Server)
    → IsSound server
    → missed_of (handle_join_room env session req server).sent ≡ missed_of server.sent
unfolding handle_join_room
handle_join_room-missed env session req server h =
    let P = λ (s : Server). missed_of s.sent ≡ missed_of server.sent in
    let refused = λ (reply : Reply) (plain : is_missed_reply reply ≡ false).
      missed_of-send server.sent ((session.socket_id, reply) ∷ []) (ground (arith, plain)) in
    if-cases P (not session.authenticated) _ _
      (λ e. refused (Reply.error Refusal.not_logged_in) refl)
      λ e.
        if-cases P (str_eq req.room_id "") _ _ (λ e. refl)
          λ e.
            elim-cases P (get_room server req.room_id) _ _
              (λ e. refused (Reply.error Refusal.room_not_found) refl)
              λ room e.
                if-cases P room.closing _ _ (λ e. refused (Reply.error Refusal.room_closing) refl)
                  λ e'.
                    join-missed env session req (record room { last_active_at = env.now_ms }) server
                      (grown-IsSound (still room (record room { last_active_at = env.now_ms }) refl)
                        (get_room-IsSound h req.room_id room e))
