-- ===== src/Server/Sync.antt =====
-- What a session is sent when it comes to a room or a seat: `emit_you_state`,
-- `send_full_state_sync`, the seat's session, and the replay of missed events, with the notes that
-- `replay_missed_events` of backend-cpp/src/main.cpp makes.
use text.Mathlib.Text.{◌==◌ as str_eq}
use dezhou.Prelude.{
  ℕ, Bool, false, not, List, [], ◌∷◌, map, Option, none, some, ltb, length, if◌then◌else◌,
}
use dezhou.Table.State.{Room, Env, Seat, seat_at, k_seats}
use dezhou.Table.Events.{build_game_state}
use dezhou.Table.Seats.{get_player}
use dezhou.Table.Serving.{Session, Reply, is_host, build_room_state}
use dezhou.Table.Requests.{replay_missed_events}
use dezhou.Server.State.{Server, GameplaySessionData, send_all, put_session}
use dezhou.Server.Gameplay.{with_gameplay, get_gameplay_session}
use dezhou.Server.Marks.{mark_gameplay}

abbrev pub you_state : Session → Room → Reply
you_state session room = Reply.you_state room.room_id session.seat_idx (is_host session room)

abbrev pub seat_session : Session → Room → Seat → Reply
seat_session session room seat =
    Reply.seat_session room.room_id seat.reconnect_token session.gameplay_session_id
      session.last_seen_seq

-- The player's own cards, if there are two.
unfoldable pub own_hand : Room → Bool → ℕ → List Reply
own_hand room include_private_hand i =
    if not include_private_hand then [] else elim (get_player room i) [
      | none ↦ []
      | some p ↦ if ltb (length p.hand) 2 then [] else Reply.own_hand i p.hand ∷ []
    ]

-- The part of `send_full_state_sync` that a seated session gets.
unfoldable pub seat_sync : Session → Room → Bool → List Reply
seat_sync session room include_private_hand = elim session.seat_idx [
  | none ↦ []
  | some i ↦
      if ltb i k_seats
      then seat_session session room (seat_at room i) ∷ own_hand room include_private_hand i
      else []
]

unfoldable pub send_full_state_sync : Session → Room → Bool → Server → Server
send_full_state_sync session room include_private_hand = send_all (
    map (λ reply. (session.socket_id, reply))
      (Reply.room_state (build_room_state room session.socket_id)
        ∷ you_state session room
        ∷ Reply.activity_sync room.activity_log
        ∷ Reply.game_state (build_game_state room)
        ∷ seat_sync session room include_private_hand))

-- What is written into the gameplay session of a session that has come to a seat.
abbrev pub seated_at : Room → ℕ → Seat → GameplaySessionData → GameplaySessionData
seated_at room i seat g = record g {
  room_id = room.room_id;
  seat_idx = some i;
  reconnect_token = seat.reconnect_token;
  last_disconnect_at = 0;
  ai_managed = false;
  ai_takeover_at = 0;
}

abbrev pub bind_gameplay : Env → Session → Room → ℕ → Seat → Server → Server
bind_gameplay env session room i seat server =
    if str_eq session.gameplay_session_id "" then server else record server {
      gameplay_sessions =
          with_gameplay env session.gameplay_session_id session.user_id (seated_at room i seat)
            server.gameplay_sessions;
    }

-- The gameplay session's `last_seen_seq`; looking it up may erase it.
unfoldable pub look_up_seen : Env → Session → Server → Server × Option ℕ
look_up_seen env session server =
    if str_eq session.gameplay_session_id ""
    then (server, none)
    else (let (left, found) =
          get_gameplay_session env session.gameplay_session_id server.gameplay_sessions in
        (
          record server { gameplay_sessions = left },
          elim found [ none ↦ none | some g ↦ some g.last_seen_seq ],
        ))

-- `replay_missed_events` with what it sends and what it notes.
unfoldable pub replay_to_session : Env → Session → Room → Server → Server
replay_to_session env session room server =
    let (looked, gameplay_seen) = look_up_seen env session server in
    let (missed, seen) = replay_missed_events session gameplay_seen room in
    mark_gameplay env session seen (
      send_all (map (λ entry. (session.socket_id, Reply.missed entry)) missed)
        (put_session (record session { last_seen_seq = seen }) looked))
