-- ===== src/Server/Sound.antt =====
-- What holds of every server: each room stands under its own id, has ten seats and a log that is
-- the end of its history; each session stands under its own socket.
pub mod Marks
pub mod Sessions
pub mod Leaving
pub mod Requests
use Prim.Native.String.{String}
use dezhou.Prelude.{
  ℕ, ◌≡◌, refl, ◌∙◌, sym, Bool, List, [], ◌∷◌, ◌++◌, Option, none, some, length, All,
}
use dezhou.Prelude.Names.{
  find_name, put_name, erase_name, All-put_name_at, All-erase_name, All-find_name_at,
}
use dezhou.Table.State.{Room, Env, RoomEventEntry, k_seats}
use dezhou.Table.Events.History.{IsHistoryOf}
use dezhou.Table.Frame.{Grows}
use dezhou.Table.Serving.{Session}
use dezhou.Server.State.{Server, get_room, put_room, erase_room, put_session}

pub record RoomIsSound (room_id : String) (room : Room) : Type 0 where
  pub own_id : room.room_id ≡ room_id
  pub ten_seats : length room.seats ≡ k_seats
  pub history : List RoomEventEntry
  pub logged : IsHistoryOf history room

pub record IsSound (server : Server) : Type 0 where
  pub rooms : All (λ (id, room). RoomIsSound id room) server.rooms
  pub sessions : All (λ (socket, session). session.socket_id ≡ socket) server.sessions

pub grown-IsSound :
    {id : String} {room after : Room}
    → Grows room after
    → RoomIsSound id room
    → RoomIsSound id after
grown-IsSound g h = record {
  own_id = g.same_id ∙ h.own_id;
  ten_seats = g.seats_count ∙ h.ten_seats;
  history = h.history ++ g.appended;
  logged = g.grown h.history h.logged;
}

module _ {server : Server} (h : IsSound server) where
  pub get_room-IsSound :
      (id : String) (room : Room) → get_room server id ≡ some room → RoomIsSound id room
  get_room-IsSound id room e = All-find_name_at _ id server.rooms room h.rooms e

  pub put_room-IsSound :
      (id : String) (room : Room) → RoomIsSound id room → IsSound (put_room id room server)
  put_room-IsSound id room r = record {
    rooms = All-put_name_at (λ (id, room). RoomIsSound id room) id room server.rooms r h.rooms;
    sessions = h.sessions;
  }

  pub erase_room-IsSound : (id : String) → IsSound (erase_room id server)
  erase_room-IsSound id = record {
    rooms = All-erase_name (λ (id, room). RoomIsSound id room) id server.rooms h.rooms;
    sessions = h.sessions;
  }

  pub put_session-IsSound : (session : Session) → IsSound (put_session session server)
  put_session-IsSound session = record {
    rooms = h.rooms;
    sessions =
        All-put_name_at (λ (socket, session). session.socket_id ≡ socket) session.socket_id session
          server.sessions refl h.sessions;
  }
