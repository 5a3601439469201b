-- ===== src/Server/Joining.antt =====
-- Joining a room: `handle_join_room` of backend-cpp/src/main.cpp. The request carries the room's
-- id after `to_upper_room_code`.
pub mod Replays
pub mod Missed
pub mod Rejoin
use Prim.Native.String.{String}
use text.Mathlib.Text.{◌==◌ as str_eq}
use dezhou.Prelude.{
  ℕ, Bool, true, false, ◌&&◌, ◌||◌, not, List, [], ◌∷◌, Option, none, some, ltb, ◌==◌,
  if◌then◌else◌,
}
use dezhou.Prelude.Names.{find_name, put_name}
use dezhou.Prelude.Maps.{erase}
use dezhou.Engine.RoundPhase.{RoundPhase, hand_over}
use dezhou.Stores.{UserProfileData, or_else}
use dezhou.Table.State.{Room, Env, Seat, seat_at, seat_indices}
use dezhou.Table.Events.{broadcast_game}
use dezhou.Table.Seats.{is_online}
use dezhou.Table.Turn.{request_turn}
use dezhou.Table.Action.{is_player}
use dezhou.Table.Serving.{Session, Reply, Refusal, broadcast_room}
use dezhou.Table.Requests.{has_name}
use dezhou.Server.State.{
  Server, send_event, send_all, send_error, get_room, put_room, put_session, session_now,
}
use dezhou.Server.Gameplay.{with_gameplay}
use dezhou.Server.Marks.{update_room}
use dezhou.Server.Sync.{send_full_state_sync, bind_gameplay, replay_to_session}
use dezhou.Server.Seating.{
  set_seat, reclaimed_seat, cancel_ai_takeover, cancel_gameplay_takeover, own_or,
}

pub record JoinRoomRequest : Type 0 where
  pub room_id : String
  pub client_id : String
  pub session_id : String
  pub reconnect_token : String

abbrev pub profile_cache_key : UserProfileData → String
profile_cache_key profile =
    or_else profile.login_username (or_else profile.external_id profile.username)

abbrev pub cache_profile : UserProfileData → Server → Server
cache_profile profile server = record server {
  cached_users = put_name (profile_cache_key profile) profile server.cached_users;
}

-- What a gameplay session tells: how far it has seen the events; it notes the room.
unfoldable pub resume_gameplay : Env → Session → String → Server → Session × Server
resume_gameplay env session room_id server =
    if str_eq session.gameplay_session_id ""
    then (session, server)
    else (let sessions =
          with_gameplay env session.gameplay_session_id session.user_id
            (λ g. record g { room_id = room_id }) server.gameplay_sessions in
        let seen : ℕ = elim (find_name session.gameplay_session_id sessions) [
          | none ↦ session.last_seen_seq
          | some g ↦ g.last_seen_seq
        ] in
        (record session { last_seen_seq = seen }, record server { gameplay_sessions = sessions }))

-- The session that has come to the room.
unfoldable pub enter : Env → Session → JoinRoomRequest → Server → Session × Server
enter env session req server =
    let named = record session {
      room_id = req.room_id;
      name = or_else session.profile.username "Player";
      client_id = req.client_id;
      gameplay_session_id = or_else req.session_id session.gameplay_session_id;
    } in
    let (own, resumed) = resume_gameplay env named req.room_id server in
    let cached = cache_profile own.profile (put_session own resumed) in
    (
      own,
      record cached { pending_match_rooms = erase own.profile.user_id cached.pending_match_rooms },
    )

-- The first seat of a player that passes a test.
unfoldable pub find_seat : (Seat → Bool) → Room → List ℕ → Option ℕ
find_seat test room [] = none
find_seat test room (i ∷ is) =
    let rest = find_seat test room is in
    let seat = seat_at room i in if is_player seat.type && test seat then some i else rest

abbrev pub or_find : Option ℕ → Option ℕ → Option ℕ
or_find (some i) other = some i
or_find none other = other

-- The three searches for the seat of a session that comes back.
unfoldable pub reconnect_idx : Session → JoinRoomRequest → Room → Option ℕ
reconnect_idx session req room =
    let by_user = find_seat (λ seat. seat.user_id == session.profile.user_id) room seat_indices in
    let by_session =
      find_seat
        (λ seat.
          not (str_eq session.gameplay_session_id "")
          && str_eq seat.gameplay_session_id session.gameplay_session_id)
        room seat_indices in
    let by_token =
      find_seat
        (λ seat.
          not (str_eq req.reconnect_token "") && str_eq seat.reconnect_token req.reconnect_token)
        room seat_indices in
    if ltb 0 session.user_id then by_user else or_find by_user (or_find by_session by_token)

abbrev pub rejoined_seat : Session → Seat → Seat
rejoined_seat session seat = record (reclaimed_seat session seat) {
  name = session.name;
  client_id = or_else session.client_id seat.client_id;
}

-- The session gets its seat back.
unfoldable pub rejoin : Env → Session → Room → ℕ → Server → Session × Room × Server
rejoin env session room i server =
    let held = set_seat room i (rejoined_seat session (seat_at room i)) in
    let back = cancel_ai_takeover held i in
    let own = record session {
      gameplay_session_id = own_or session (seat_at room i).gameplay_session_id;
      seat_idx = some i;
    } in
    let noted = put_session own (cancel_gameplay_takeover env held i server) in
    (own, back, bind_gameplay env own back i (seat_at back i) noted)

-- The room with its new member.
abbrev pub admit : Env → Session → Room → Room
admit env session room = record room {
  status = if room.started then "playing" else "waiting";
  host_socket_id =
      if str_eq room.host_socket_id "" || not (is_online env room.host_socket_id)
      then session.socket_id
      else room.host_socket_id;
  socket_ids =
      if has_name room.socket_ids session.socket_id
      then room.socket_ids
      else session.socket_id ∷ room.socket_ids;
  empty_since = none;
}

abbrev pub is_hand_over : RoundPhase → Bool
is_hand_over hand_over = true
is_hand_over _ = false

abbrev pub is_seated : Session → Bool
is_seated session = elim session.seat_idx [ none ↦ false | some i ↦ true ]

-- The end of `handle_join_room`, after the session has been admitted to `room`.
unfoldable pub welcome : Env → Session → Room → Server → Server
welcome env session room server =
    let back = room.started && not room.closing && is_seated session in
    let synced = send_all (broadcast_room room) (
      send_full_state_sync session room back
        (send_event session.socket_id (Reply.user_profile session.profile) server)) in
    let after = broadcast_game env room in
    let shown = update_room env room.room_id room after synced in
    if not back
    then shown
    else (let replayed = replay_to_session env (session_now shown session) after shown in
        if is_hand_over after.round
        then replayed
        else update_room env room.room_id after (request_turn env after) replayed)

unfoldable pub join : Env → Session → JoinRoomRequest → Room → Server → Server
join env session req room server =
    let (own, entered) = enter env session req server in
    if not room.started
    then (let admitted = admit env own room in
        welcome env own admitted (put_room req.room_id admitted entered))
    else elim (reconnect_idx own req room) [
      | none ↦ send_error own.socket_id Refusal.cannot_rejoin (put_room req.room_id room entered)
      | some i ↦
          let (again, back, bound) = rejoin env own room i entered in
          let admitted = admit env again back in
          welcome env again admitted (put_room req.room_id admitted bound)
    ]

unfoldable pub handle_join_room : Env → Session → JoinRoomRequest → Server → Server
handle_join_room env session req server =
    if not session.authenticated
    then send_error session.socket_id Refusal.not_logged_in server
    else if str_eq req.room_id ""
    then server
    else elim (get_room server req.room_id) [
      | none ↦ send_error session.socket_id Refusal.room_not_found server
      | some room ↦
          let active = record room { last_active_at = env.now_ms } in
          if room.closing
          then send_error session.socket_id Refusal.room_closing
              (put_room req.room_id active server)
          else join env session req active server
    ]
