-- ===== src/Server/Leaving.antt =====
-- A socket that goes: `handle_disconnect`, `remove_session` and `detach_gateway` of
-- backend-cpp/src/main.cpp.
pub mod Released
pub mod Others
pub mod Gone
use Prim.Native.String.{String}
use text.Mathlib.Text.{◌==◌ as str_eq}
use dezhou.Prelude.{
  ℕ, Bool, true, false, ◌&&◌, ◌||◌, not, List, [], ◌∷◌, keep, Option, none, some, max, is_empty,
  any_of, if◌then◌else◌,
}
use dezhou.Prelude.Names.{find_name, erase_name}
use dezhou.Prelude.Maps.{erase}
use dezhou.Table.State.{Room, Env, Seat, SeatType, seat_at, no_seat, seat_indices}
use dezhou.Table.Events.{broadcast_game}
use dezhou.Table.Seats.{is_online}
use dezhou.Table.Action.{is_player}
use dezhou.Table.Hand.{resolve_disconnect_for_current_hand}
use dezhou.Table.Serving.{Session, broadcast_room}
use dezhou.Table.Requests.{has_name}
use dezhou.Table.Lobby.{is_occupied}
use dezhou.Server.State.{Server, GameplaySessionData, send_all, get_room, put_room, erase_room}
use dezhou.Server.Gameplay.{with_gameplay}
use dezhou.Server.Marks.{catch_up, update_room}
use dezhou.Server.Seating.{set_seat, cancel_ai_takeover, cancel_gameplay_takeover}
use dezhou.Server.Voice.{takes_part, drop_voice}

abbrev pub erase_member : String → List String → List String
erase_member socket = keep (λ s. not (str_eq s socket))

-- What a gameplay session notes of the seat that its socket leaves.
abbrev pub note_departure : Env → Session → Room → ℕ → Server → Server
note_departure env session room i server =
    let seat = seat_at room i in
    if str_eq seat.gameplay_session_id "" then server else record server {
      gameplay_sessions =
          with_gameplay env seat.gameplay_session_id seat.user_id
            (λ g. record g {
              room_id = room.room_id;
              seat_idx = some i;
              reconnect_token = seat.reconnect_token;
              last_disconnect_at = env.now_ms;
              ai_managed = seat.ai_managed;
              ai_takeover_at = seat.ai_takeover_at;
              last_seen_seq = max g.last_seen_seq session.last_seen_seq;
            })
            server.gameplay_sessions;
    }

abbrev pub away : Env → Seat → Seat
away env seat = record seat { socket_id = ""; disconnected_at = env.now_ms }

-- The seat `i`, which the session held, once its socket is gone.
unfoldable pub release_seat : Env → Session → ℕ → Room × Server → Room × Server
release_seat env session i (room, server) =
    let noted = note_departure env session room i server in
    if room.started
    then (let left = set_seat room i (away env (seat_at room i)) in
        let resolved = resolve_disconnect_for_current_hand env left i in
        (resolved, catch_up env left resolved noted))
    else (let freed = set_seat (cancel_ai_takeover room i) i no_seat in
        (
          record freed { players = erase i freed.players },
          cancel_gameplay_takeover env room i noted,
        ))

abbrev pub is_held_by : String → Seat → Bool
is_held_by socket seat = is_player seat.type && str_eq seat.socket_id socket

unfoldable pub release_seats : Env → Session → List ℕ → Room × Server → Room × Server
release_seats env session [] st = st
release_seats env session (i ∷ is) (room, server) =
    let held = is_held_by session.socket_id (seat_at room i) in
    release_seats env session is
      (if held then release_seat env session i (room, server) else (room, server))

-- The first player who is online.
unfoldable pub online_socket : Env → List Seat → String
online_socket env [] = ""
online_socket env (seat ∷ seats) =
    let rest = online_socket env seats in
    if is_player seat.type && is_online env seat.socket_id then seat.socket_id else rest

abbrev pub hand_over_host : Env → String → Room → Room
hand_over_host env socket room =
    if str_eq room.host_socket_id socket
    then record room { host_socket_id = online_socket env room.seats }
    else room

-- `handle_disconnect` from the seats on.
unfoldable pub vacate : Env → String → Session → Room → Server → Server
vacate env room_id session room server =
    let (released, noted) = release_seats env session seat_indices (room, server) in
    let left = hand_over_host env session.socket_id released in
    if is_empty (keep (is_occupied left) seat_indices)
    then erase_room room_id noted
    else (let told = send_all (broadcast_room left) noted in
        update_room env room_id left (broadcast_game env left) told)

abbrev pub leave_room : Env → String → Room → Room
leave_room env socket room =
    let members = erase_member socket room.socket_ids in
    record room {
      socket_ids = members;
      empty_since = if is_empty members then some env.now_ms else room.empty_since;
    }

-- A room that is closing waits no longer for the socket's acknowledgement.
abbrev pub forget_ack : String → Room → Room
forget_ack socket room =
    if room.closing && has_name room.expected_acks socket
    then record room {
      expected_acks = erase_member socket room.expected_acks;
      match_acks = erase_member socket room.match_acks;
    }
    else room

-- The last acknowledgement that was waited for is the socket's own.
abbrev pub is_last_ack : String → Room → Bool
is_last_ack socket room =
    room.closing
    && has_name room.expected_acks socket
    && is_empty (erase_member socket room.expected_acks)

unfoldable pub handle_disconnect : Env → Session → Server → Server
handle_disconnect env session server = elim (get_room server session.room_id) [
  | none ↦ server
  | some room ↦
      let room_id = session.room_id in
      let left = forget_ack session.socket_id (leave_room env session.socket_id room) in
      if is_last_ack session.socket_id room
      then erase_room room_id server
      else if takes_part left session.socket_id
      then vacate env room_id session
          (record left {
            voice_participants = erase_name session.socket_id left.voice_participants;
          })
          (drop_voice room_id session.socket_id left server)
      else vacate env room_id session left server
]

abbrev pub without_client : Env → String → Env
without_client env socket = record env {
  active_gateway_clients = erase_member socket env.active_gateway_clients;
}

abbrev pub erase_session : String → Server → Server
erase_session socket server = record server { sessions = erase_name socket server.sessions }

-- What `remove_session` does once the socket is no longer among the connected clients, and what
-- `detach_gateway` does for each socket.
unfoldable pub drop_session : Env → String → Server → Server
drop_session env socket server = elim (find_name socket server.sessions) [
  | none ↦ server
  | some session ↦ erase_session socket (handle_disconnect env session server)
]

unfoldable pub remove_session : Env → String → Server → Server
remove_session env socket server =
    if str_eq socket "" then server else drop_session (without_client env socket) socket server

unfoldable pub drop_sessions : Env → List String → Server → Server
drop_sessions env [] server = server
drop_sessions env (socket ∷ sockets) server =
    drop_sessions env sockets (drop_session env socket server)

-- The gateway is gone, and with it all its sockets.
unfoldable pub detach_gateway : Env → List String → Server → Server
detach_gateway env tracked server =
    drop_sessions (record env { active_gateway_clients = [] }) tracked server
