-- ===== src/Server/Marks.antt =====
-- How far the sessions have seen a room's events: `mark_last_seen_for_socket` of
-- backend-cpp/src/main.cpp and what `emit_room_event` and `emit_seat_event` note in the sessions.
-- The operations of a room append their events to its log; `catch_up` then makes the notes for
-- the events that were appended.
pub mod Rooms
pub mod Seen
use Prim.Native.String.{String}
use text.Mathlib.Text.{◌==◌ as str_eq}
use dezhou.Prelude.{
  ℕ, Bool, true, false, List, [], ◌∷◌, Option, none, some, max, leb, if◌then◌else◌,
}
use dezhou.Prelude.Names.{find_name, put_name}
use dezhou.Table.State.{Room, Env, RoomEventEntry, seat_at}
use dezhou.Table.Serving.{Session}
use dezhou.Server.State.{Server, GameplaySessionData, put_room, put_session}
use dezhou.Server.Gameplay.{with_gameplay}

-- What a read mark writes into a gameplay session.
abbrev pub seen_by_session : Session → ℕ → GameplaySessionData → GameplaySessionData
seen_by_session session seq g = record g {
  last_seen_seq = max g.last_seen_seq seq;
  room_id = session.room_id;
  seat_idx = session.seat_idx;
}

abbrev pub mark_gameplay : Env → Session → ℕ → Server → Server
mark_gameplay env session seq server =
    if str_eq session.gameplay_session_id "" then server else record server {
      gameplay_sessions =
          with_gameplay env session.gameplay_session_id session.user_id
            (seen_by_session session seq) server.gameplay_sessions;
    }

unfoldable pub mark_last_seen_for_socket : Env → String → ℕ → Server → Server
mark_last_seen_for_socket env socket seq server = elim (find_name socket server.sessions) [
  | none ↦ server
  | some session ↦ mark_gameplay env session seq (record server {
    sessions =
        put_name socket (record session { last_seen_seq = max session.last_seen_seq seq })
          server.sessions;
  })
]

-- `for (const auto& socket_id : room.socket_ids)`.
unfoldable pub mark_sockets : Env → List String → ℕ → Server → Server
mark_sockets env [] seq server = server
mark_sockets env (socket ∷ sockets) seq server =
    mark_sockets env sockets seq (mark_last_seen_for_socket env socket seq server)

-- The notes of `emit_seat_event`.
unfoldable pub mark_seat : Env → Room → ℕ → ℕ → Server → Server
mark_seat env room i seq server =
    let seat = seat_at room i in
    if str_eq seat.gameplay_session_id "" then server else record server {
      gameplay_sessions =
          with_gameplay env seat.gameplay_session_id seat.user_id
            (λ g. record g {
              last_seen_seq = max g.last_seen_seq seq;
              room_id = room.room_id;
              seat_idx = some i;
              reconnect_token = seat.reconnect_token;
              ai_managed = seat.ai_managed;
              ai_takeover_at = seat.ai_takeover_at;
            })
            server.gameplay_sessions;
    }

abbrev mark_event : Env → Room → RoomEventEntry → Server → Server
mark_event env room entry server = elim entry.seat_idx [
  | none ↦ mark_sockets env room.socket_ids entry.seq server
  | some i ↦ mark_seat env room i entry.seq server
]

-- The notes for the events after `before`.
unfoldable pub mark_events : Env → ℕ → Room → List RoomEventEntry → Server → Server
mark_events env before room [] server = server
mark_events env before room (entry ∷ entries) server =
    mark_events env before room entries
      (if leb entry.seq before then server else mark_event env room entry server)

-- The notes for the events that led from `before` to `after`.
unfoldable pub catch_up : Env → Room → Room → Server → Server
catch_up env before after server = mark_events env before.event_seq after after.event_log server

-- The room after an operation, with the notes for its events.
abbrev pub update_room : Env → String → Room → Room → Server → Server
update_room env room_id before after server =
    catch_up env before after (put_room room_id after server)
