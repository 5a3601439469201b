-- ===== src/Tests/Server.antt =====
-- A server with one room, and what happens to it.
use Prim.Native.String.{String}
use text.Mathlib.Text.{◌==◌ as str_eq}
use dezhou.Prelude.{false, true, ◌≡◌, refl, [], ◌∷◌, some, none, keep, set, ◌+◌, arith}
use dezhou.Prelude.Names.{find_name, put_name, erase_name}
use dezhou.Prelude.Int.{pos}
use dezhou.Table.State.{Room, SeatType, no_seat}
use dezhou.Table.Events.{keep_last, drop_front}
use dezhou.Table.Events.History.{IsHistoryOf}
use dezhou.Table.Serving.{Session}
use dezhou.Table.Requests.{replay_missed_events}
use dezhou.Table.Requests.Ownership.{is_missed, last_seen_of}
use dezhou.Table.Requests.Complete.{replay_missed_events_complete}
use dezhou.Server.State.{Server, GameplaySessionData, get_room}
use dezhou.Server.Gameplay.{
  ensure_gameplay_session, get_gameplay_session, k_gameplay_session_ttl_ms,
}
use dezhou.Server.Gameplay.Expiry.{lasts_until, get_gameplay_session-ensure_gameplay_session}
use dezhou.Server.Rooms.{
  RoomRequest, new_room, user_room, ensure_room, fresh_code, create_room_for_user,
}
use dezhou.Server.Rooms.Created.{IsCreated, create_room_for_user-IsCreated}
use dezhou.Server.Seating.{handle_take_seat}
use dezhou.Server.Seating.Seated.{Outcome, handle_take_seat-Outcome}
use dezhou.Server.Joining.{JoinRoomRequest, handle_join_room}
use dezhou.Server.Joining.Missed.{missed_of}
use dezhou.Server.Joining.Rejoin.{handle_join_room-missed}
use dezhou.Server.Dispatch.{join_room, take_seat, on_ws_message}
use dezhou.Server.Leaving.{remove_session}
use dezhou.Server.Leaving.Gone.{GoneFrom, remove_session-GoneFrom}
use dezhou.Server.Sound.{IsSound}
use dezhou.Server.Reachable.{
  new_server, Reachable, start, step, message, register, create, Reachable-IsSound,
}
use dezhou.Tests.Table.{env, room}
use dezhou.Tests.Rooms.{ada_profile, host, event}

abbrev small_room : RoomRequest
small_room = record {
  visibility = "";
  total_hands = pos 3;
  initial_chips = pos 500;
  room_type = "";
}

abbrev first_room : Room
first_room = user_room env ada_profile small_room "AB" (new_room env "AB")

abbrev one_room : Server
one_room = record new_server { rooms = ("AB", first_room) ∷ [] }

-- The first code drawn is taken, the second is not.
create_room_for_user-IsCreated_example :
    IsCreated one_room
      ("AB" ∷ "CD" ∷ "EF" ∷ [])
      ada_profile
      (create_room_for_user env ("AB" ∷ "CD" ∷ "EF" ∷ []) ada_profile small_room one_room)
create_room_for_user-IsCreated_example =
    create_room_for_user-IsCreated env ("AB" ∷ "CD" ∷ "EF" ∷ []) ada_profile small_room one_room

made :
    create_room_for_user env ("AB" ∷ []) ada_profile small_room new_server
    ≡ some (first_room, one_room)
unfolding create_room_for_user fresh_code find_name ensure_room put_name
made = refl

abbrev to_join : JoinRoomRequest
to_join = record { room_id = "AB"; client_id = "c0"; session_id = "g0"; reconnect_token = "" }

-- Ada makes a room, connects, joins it, sits down on seat 2, and is gone again.
abbrev connected : Server
connected = record one_room {
  sessions = ("s0", record host { room_id = ""; seat_idx = none }) ∷ [];
}

abbrev joined : Server
joined = on_ws_message env "t1" "t2" "s0" (some (join_room to_join)) connected

abbrev seated : Server
seated = on_ws_message env "t3" "t4" "s0" (some (take_seat (some 2) "")) joined

seated_run : Reachable seated
unfolding put_name
seated_run =
    step
      (step
        (step (step start (create env ("AB" ∷ []) ada_profile small_room first_room made))
          (register (record host { room_id = ""; seat_idx = none })))
        (message env "t1" "t2" "s0" (some (join_room to_join))))
      (message env "t3" "t4" "s0" (some (take_seat (some 2) "")))

Reachable-IsSound_example : IsSound seated
Reachable-IsSound_example = Reachable-IsSound seated_run

-- The same room with Ada on seat 2, as host and only member.
abbrev on_seat : Session
on_seat = record host { room_id = "AB"; seat_idx = some 2; last_seen_seq = 0 }

-- A match is on, and there was an event while she was away.
abbrev her_room : Room
her_room = record first_room {
  started = true;
  event_seq = 1;
  event_log = event 1 ∷ [];
  seats =
      set first_room.seats 2
        (record no_seat { type = SeatType.player; socket_id = "s0"; user_id = 7 });
  socket_ids = "s0" ∷ [];
  host_socket_id = "s0";
}

abbrev with_ada : Server
with_ada = record new_server { rooms = ("AB", her_room) ∷ []; sessions = ("s0", on_seat) ∷ [] }

with_ada-IsSound : IsSound with_ada
unfolding keep_last drop_front
with_ada-IsSound = record {
  rooms = (
    record {
      own_id = refl;
      ten_seats = refl;
      history = event 1 ∷ [];
      logged = record { kept = refl; numbered = (refl, tt); counted = refl };
    },
    tt,
  );
  sessions = (refl, tt);
}

with_ada_found : find_name "s0" with_ada.sessions ≡ some on_seat
unfolding find_name
with_ada_found = refl

-- She went on to a second room and kept her seat in the first one.
abbrev elsewhere : Session
elsewhere = record on_seat { room_id = "CD" }

abbrev with_two : Server
with_two = record new_server {
  rooms = ("AB", her_room) ∷ ("CD", record (new_room env "CD") { socket_ids = "s0" ∷ [] }) ∷ [];
  sessions = ("s0", elsewhere) ∷ [];
}

with_two-IsSound : IsSound with_two
unfolding keep_last drop_front
with_two-IsSound = record {
  rooms = (
    with_ada-IsSound.rooms.0,
    (
      record {
        own_id = refl;
        ten_seats = refl;
        history = [];
        logged = record { kept = refl; numbered = tt; counted = refl };
      },
      tt,
    ),
  );
  sessions = (refl, tt);
}

with_two_found : find_name "s0" with_two.sessions ≡ some elsewhere
unfolding find_name
with_two_found = refl

remove_session-GoneFrom_example :
    (find_name "s0" (remove_session env "s0" with_two).sessions ≡ none)
    × GoneFrom "s0" (get_room (remove_session env "s0" with_two) "CD")
    × ((other : String)
        → str_eq other "CD" ≡ false
        → get_room (remove_session env "s0" with_two) other ≡ get_room with_two other)
remove_session-GoneFrom_example =
    remove_session-GoneFrom env elsewhere with_two with_two-IsSound refl with_two_found

-- She asks for another seat while the match is on.
handle_take_seat-Outcome_example :
    Outcome on_seat
      (some 4)
      ""
      with_ada
      (handle_take_seat env "t1" "t2" on_seat (some 4) "" with_ada)
handle_take_seat-Outcome_example =
    handle_take_seat-Outcome env "t1" "t2" on_seat (some 4) "" with_ada with_ada-IsSound

handle_join_room-missed_example :
    missed_of (handle_join_room env on_seat to_join with_ada).sent ≡ missed_of with_ada.sent
handle_join_room-missed_example =
    handle_join_room-missed env on_seat to_join with_ada with_ada-IsSound

get_gameplay_session-ensure_gameplay_session_example :
    (g : GameplaySessionData) × (find_name "g0" (ensure_gameplay_session env "g0" 7 []) ≡ some g)
    × (get_gameplay_session
          (record env { now_ms = 400000 })
          "g0"
          (ensure_gameplay_session env "g0" 7 [])
        ≡ lasts_until
            (env.now_ms + k_gameplay_session_ttl_ms)
            400000
            "g0"
            (ensure_gameplay_session env "g0" 7 [])
            g)
    × (find_name "g0" (erase_name "g0" (ensure_gameplay_session env "g0" 7 [])) ≡ none)
get_gameplay_session-ensure_gameplay_session_example =
    get_gameplay_session-ensure_gameplay_session env (record env { now_ms = 400000 }) "g0" 7 []

-- A room with a history of three events, of which the host has seen the first.
abbrev told : Room
told = record room { event_seq = 3; event_log = event 1 ∷ event 2 ∷ event 3 ∷ [] }

told-IsHistoryOf : IsHistoryOf (event 1 ∷ event 2 ∷ event 3 ∷ []) told
unfolding keep_last drop_front
told-IsHistoryOf = record { kept = refl; numbered = (refl, (refl, (refl, tt))); counted = refl }

replay_missed_events_complete_example :
    (replay_missed_events host none told).0
    ≡ keep (is_missed (last_seen_of host none) host.seat_idx) (event 1 ∷ event 2 ∷ event 3 ∷ [])
replay_missed_events_complete_example =
    replay_missed_events_complete host none told (event 1 ∷ event 2 ∷ event 3 ∷ []) told-IsHistoryOf
      (omega arith)
