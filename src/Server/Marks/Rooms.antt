-- ===== src/Server/Marks/Rooms.antt =====
-- The notes for events leave the rooms alone, and send nothing.
use Prim.Native.String.{String}
use text.Mathlib.Text.{◌==◌ as str_eq}
use dezhou.Prelude.{ℕ, ◌≡◌, refl, ap, ◌∙◌, List, [], ◌∷◌, some, leb, if-cases, elim-cases}
use dezhou.Prelude.Names.{find_name, find_name-put_name_self}
use dezhou.Table.State.{Room, Env, RoomEventEntry, seat_at}
use dezhou.Table.Serving.{Reply}
use dezhou.Server.State.{Server, get_room}
use dezhou.Server.Marks.{
  mark_last_seen_for_socket, mark_sockets, mark_seat, mark_events, catch_up, update_room,
}

-- What the notes do not touch.
abbrev outside : Server → List (String × Room) × List (String × Reply)
outside server = (server.rooms, server.sent)

abbrev SameRooms : Server → Server → Type 0
SameRooms server after = outside after ≡ outside server

mark_last_seen-rooms :
    (env : Env) (socket : String) (seq : ℕ) (server : Server)
    → SameRooms server (mark_last_seen_for_socket env socket seq server)
unfolding mark_last_seen_for_socket
mark_last_seen-rooms env socket seq server =
    elim-cases (SameRooms server) (find_name socket server.sessions) _ _ (λ e. refl)
      λ session e.
        if-cases (SameRooms server) (str_eq session.gameplay_session_id "") _ _ (λ e. refl)
          (λ e. refl)

mark_sockets-rooms :
    (env : Env) (sockets : List String) (seq : ℕ) (server : Server)
    → SameRooms server (mark_sockets env sockets seq server)
unfolding mark_sockets
mark_sockets-rooms env [] seq server = refl
mark_sockets-rooms env (socket ∷ sockets) seq server =
    mark_sockets-rooms env sockets seq _ ∙ mark_last_seen-rooms env socket seq server

mark_events-rooms :
    (env : Env) (before : ℕ) (room : Room) (entries : List RoomEventEntry) (server : Server)
    → SameRooms server (mark_events env before room entries server)
unfolding mark_events mark_seat
mark_events-rooms env before room [] server = refl
mark_events-rooms env before room (entry ∷ entries) server =
    mark_events-rooms env before room entries _
    ∙ if-cases (SameRooms server) (leb entry.seq before) _ _ (λ e. refl)
        (λ e.
          elim-cases (SameRooms server) entry.seat_idx _ _
            (λ e. mark_sockets-rooms env room.socket_ids entry.seq server)
            (λ i e.
              if-cases (SameRooms server) (str_eq (seat_at room i).gameplay_session_id "") _ _
                (λ e. refl) (λ e. refl)))

pub update_room-found :
    (env : Env) (id : String) (before after : Room) (server : Server)
    → get_room (update_room env id before after server) id ≡ some after
unfolding catch_up
update_room-found env id before after server =
    ap (λ o. find_name id o.0) (mark_events-rooms env before.event_seq after after.event_log _)
    ∙ find_name-put_name_self id after server.rooms

pub catch_up-rooms :
    (env : Env) (before after : Room) (server : Server)
    → (catch_up env before after server).rooms ≡ server.rooms
unfolding catch_up
catch_up-rooms env before after server =
    ap (λ o. o.0) (mark_events-rooms env before.event_seq after after.event_log server)

pub catch_up-sent :
    (env : Env) (before after : Room) (server : Server)
    → (catch_up env before after server).sent ≡ server.sent
unfolding catch_up
catch_up-sent env before after server =
    ap (λ o. o.1) (mark_events-rooms env before.event_seq after after.event_log server)
