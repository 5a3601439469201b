-- ===== src/Server/Seating.antt =====
-- Taking a seat: `can_reclaim_started_seat`, `cancel_ai_takeover` and `handle_take_seat` of
-- backend-cpp/src/main.cpp. The timers of `cancel_ai_takeover` are left out, since no call ever
-- sets them. The tokens of `next_token` are arguments.
pub mod Left
pub mod Seated
use Prim.Native.String.{String}
use text.Mathlib.Text.{◌==◌ as str_eq}
use dezhou.Prelude.{
  ℕ, Bool, true, false, ◌&&◌, not, List, [], ◌∷◌, Option, none, some, ltb, ◌==◌, set, if◌then◌else◌,
}
use dezhou.Prelude.Names.{find_name}
use dezhou.Table.State.{Room, Env, Seat, SeatType, seat_at, no_seat, seat_indices, k_seats}
use dezhou.Table.Events.{broadcast_game}
use dezhou.Table.Seats.{is_seat_occupied, ensure_players_map}
use dezhou.Table.Action.{is_player}
use dezhou.Table.Serving.{Session, Reply, Refusal, broadcast_room}
use dezhou.Server.State.{
  Server, send_event, send_all, send_error, get_room, put_session, session_now,
}
use dezhou.Server.Gameplay.{with_gameplay}
use dezhou.Server.Marks.{update_room}
use dezhou.Server.Sync.{
  you_state, seat_session, seated_at, send_full_state_sync, bind_gameplay, replay_to_session,
}

unfoldable pub can_reclaim_started_seat : Seat → Session → String → Bool
can_reclaim_started_seat seat session reconnect_token =
    if not (is_player seat.type)
    then false
    else if ltb 0 session.user_id && ltb 0 seat.user_id
    then seat.user_id == session.user_id
    else if not (str_eq session.gameplay_session_id "")
        && str_eq seat.gameplay_session_id session.gameplay_session_id
    then true
    else not (str_eq reconnect_token "") && str_eq seat.reconnect_token reconnect_token

abbrev pub set_seat : Room → ℕ → Seat → Room
set_seat room i seat = record room { seats = set room.seats i seat }

abbrev pub unmanaged : Seat → Seat
unmanaged seat = record seat { ai_managed = false; ai_takeover_at = 0 }

-- What `cancel_ai_takeover` does to the room; the index is in range.
abbrev pub cancel_ai_takeover : Room → ℕ → Room
cancel_ai_takeover room i = set_seat room i (unmanaged (seat_at room i))

-- What `cancel_ai_takeover` writes into the gameplay session of the seat.
abbrev pub cancel_gameplay_takeover : Env → Room → ℕ → Server → Server
cancel_gameplay_takeover env room i server =
    let seat = seat_at room i in
    if str_eq seat.gameplay_session_id "" then server else record server {
      gameplay_sessions =
          with_gameplay env seat.gameplay_session_id seat.user_id
            (λ g. record g {
              ai_managed = false;
              ai_takeover_at = 0;
              room_id = room.room_id;
              seat_idx = some i;
              reconnect_token = seat.reconnect_token;
            })
            server.gameplay_sessions;
    }

-- The session's own gameplay session, if it has one.
abbrev pub own_or : Session → String → String
own_or session other =
    if str_eq session.gameplay_session_id "" then other else session.gameplay_session_id

abbrev pub reclaimed_seat : Session → Seat → Seat
reclaimed_seat session seat = record seat {
  socket_id = session.socket_id;
  user_id = session.profile.user_id;
  gameplay_session_id = own_or session seat.gameplay_session_id;
  disconnected_at = 0;
}

-- The branch of a match that is on, where the session may have its seat back.
unfoldable pub reclaim_seat : Env → String → Session → Room → ℕ → Server → Server
reclaim_seat env room_id session room i server =
    let held = set_seat room i (reclaimed_seat session (seat_at room i)) in
    let back = cancel_ai_takeover held i in
    let seat = seat_at back i in
    let own = record session {
      gameplay_session_id = own_or session (seat_at room i).gameplay_session_id;
      seat_idx = some i;
    } in
    let noted = put_session own (cancel_gameplay_takeover env held i server) in
    let bound =
      bind_gameplay env own back i seat
        (send_event session.socket_id (seat_session own back seat) noted) in
    let told = send_all (broadcast_room back) (send_full_state_sync own back true bound) in
    let after = broadcast_game env back in
    let shown = update_room env room_id back after told in
    replay_to_session env (session_now shown own) after shown

-- A session leaves the seats that it holds.
unfoldable pub leave_seats : String → List ℕ → Room → Room
leave_seats socket [] room = room
leave_seats socket (i ∷ is) room =
    let seat = seat_at room i in
    leave_seats socket is (
      if is_player seat.type && str_eq seat.socket_id socket then set_seat room i no_seat else room)

abbrev pub new_seat : Session → String → String → Seat
new_seat session gameplay_session_id reconnect_token = record no_seat {
  type = SeatType.player;
  socket_id = session.socket_id;
  name = if str_eq session.name "" then "Player" else session.name;
  client_id = session.client_id;
  decor = "none";
  user_id = session.profile.user_id;
  gameplay_session_id = gameplay_session_id;
  reconnect_token = reconnect_token;
}

-- The room in which the session has moved to the free seat.
unfoldable pub move_to_seat : Session → String → String → Room → ℕ → Room
move_to_seat session gameplay_session_id reconnect_token room i = ensure_players_map (
    set_seat (leave_seats session.socket_id seat_indices room) i
      (new_seat session gameplay_session_id reconnect_token))

-- The branch before a match. `session.last_seen_seq = gameplay.last_seen_seq` reads the session
-- that was just bound.
unfoldable pub sit_down : Env → String → String → String → Session → Room → ℕ → Server → Server
sit_down env next_session next_token room_id session room i server =
    let id = own_or session next_session in
    let moved = move_to_seat session id next_token room i in
    let seat = new_seat session id next_token in
    let own = record session { gameplay_session_id = id; seat_idx = some i } in
    let sessions =
      with_gameplay env id session.user_id (seated_at moved i seat) server.gameplay_sessions in
    let seen : ℕ = elim (find_name id sessions) [
      | none ↦ own.last_seen_seq
      | some g ↦ g.last_seen_seq
    ] in
    let caught_up = record own { last_seen_seq = seen } in
    let bound = put_session caught_up (record server { gameplay_sessions = sessions }) in
    let told =
      send_all
        ((session.socket_id, Reply.seat_taken i)
          ∷ (session.socket_id, seat_session caught_up moved seat)
          ∷ (session.socket_id, you_state caught_up moved)
          ∷ broadcast_room moved)
        bound in
    update_room env room_id moved (broadcast_game env moved) told

-- A negative seat index is `none`.
unfoldable pub handle_take_seat :
    Env → String → String → Session → Option ℕ → String → Server → Server
handle_take_seat env next_session next_token session seat_idx reconnect_token server =
    elim (get_room server session.room_id) [
      | none ↦ send_error session.socket_id Refusal.room_not_found server
      | some room ↦
          if room.closing
          then send_error session.socket_id Refusal.room_closing server
          else elim seat_idx [
            | none ↦ send_error session.socket_id Refusal.invalid_seat server
            | some i ↦
                let seat = seat_at room i in
                if not (ltb i k_seats)
                then send_error session.socket_id Refusal.invalid_seat server
                else if room.started
                then (if can_reclaim_started_seat seat session reconnect_token
                    then reclaim_seat env session.room_id session room i server
                    else send_error session.socket_id Refusal.cannot_reclaim server)
                else if is_seat_occupied room i && not (str_eq seat.socket_id session.socket_id)
                then send_error session.socket_id Refusal.seat_taken server
                else sit_down env next_session next_token session.room_id session room i server
          ]
    ]
