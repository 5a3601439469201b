-- ===== src/Server/Reachable.antt =====
-- The runs of the server: what can happen to it, one thing at a time, as its single thread does it.
use Prim.Native.String.{String}
use dezhou.Prelude.{
  ◌≡◌, refl, List, [], Option, none, some, subst, elim-cases, Option-cases, inl, inr,
}
use dezhou.Stores.{UserProfileData}
use dezhou.Table.State.{Room, Env}
use dezhou.Table.Hand.{Draw, ai_timer_fired}
use dezhou.Table.Events.{keep_last, drop_front}
use dezhou.Table.Frame.{still}
use dezhou.Table.Frame.Actions.{ai_timer_fired-Frames}
use dezhou.Table.Serving.{Session}
use dezhou.Server.State.{Server, get_room, put_session}
use dezhou.Server.Marks.{update_room}
use dezhou.Server.Leaving.{remove_session, detach_gateway}
use dezhou.Server.Rooms.{
  RoomRequest, new_room, user_room, ensure_room, fresh_code, create_room_for_user,
}
use dezhou.Server.Dispatch.{Request, on_ws_message}
use dezhou.Server.Sound.{
  IsSound, RoomIsSound, grown-IsSound, get_room-IsSound, put_room-IsSound, put_session-IsSound,
}
use dezhou.Server.Sound.Marks.{update_room-IsSound}
use dezhou.Server.Sound.Leaving.{remove_session-IsSound, detach_gateway-IsSound}
use dezhou.Server.Sound.Requests.{on_ws_message-IsSound}

-- The server as it starts.
abbrev pub new_server : Server
new_server = record {
  rooms = [];
  sessions = [];
  gameplay_sessions = [];
  pending_match_rooms = [];
  cached_users = [];
  sent = [];
  stats = [];
}

-- A frame from a socket, a machine's timer, a socket that comes, one that goes, the loss of the
-- gateway, and a room that a user makes.
pub data Step : Server → Server → Type 0 where
  message :
      (env : Env) (t1 t2 socket : String) (request : Option Request) {server : Server}
      → Step server (on_ws_message env t1 t2 socket request server)
  timer :
      (env : Env) (room_id : String) (room : Room) (draw : Draw) {server : Server}
      → get_room server room_id ≡ some room
      → Step server (update_room env room_id room (ai_timer_fired env room draw) server)
  register : (session : Session) {server : Server} → Step server (put_session session server)
  unregister :
      (env : Env) (socket : String) {server : Server}
      → Step server (remove_session env socket server)
  detach :
      (env : Env) (tracked : List String) {server : Server}
      → Step server (detach_gateway env tracked server)
  create :
      (env : Env) (codes : List String) (profile : UserProfileData) (req : RoomRequest)
      (room : Room) {server after : Server}
      → create_room_for_user env codes profile req server ≡ some (room, after)
      → Step server after

pub data Reachable : Server → Type 0 where
  start : Reachable new_server
  step : {server after : Server} → Reachable server → Step server after → Reachable after

new_room-IsSound : (env : Env) (id : String) → RoomIsSound id (new_room env id)
unfolding keep_last drop_front
new_room-IsSound env id = record {
  own_id = refl;
  ten_seats = refl;
  history = [];
  logged = record { kept = refl; numbered = tt; counted = refl };
}

-- Where a room was made, the server is sound.
abbrev MadeSound : Option (Room × Server) → Type 0
MadeSound none = Unit {0}
MadeSound (some (room, after)) = IsSound after

create_room-IsSound :
    (env : Env) (codes : List String) (profile : UserProfileData) (req : RoomRequest)
    (server : Server)
    → IsSound server
    → MadeSound (create_room_for_user env codes profile req server)
unfolding create_room_for_user ensure_room
create_room-IsSound env codes profile req server h =
    elim-cases MadeSound (fresh_code server codes) _ _ (λ e. tt)
      λ code e.
        let fresh = new_room-IsSound env code in
        elim (Option-cases (get_room server code)) [
          | inl free ↦
              let owned =
                still (new_room env code) (user_room env profile req code (new_room env code))
                  refl in
              rw (free, ensure_room)
                (put_room-IsSound (put_room-IsSound h code _ fresh) code _
                  (grown-IsSound owned fresh))
          | inr (room, taken) ↦
              let sound = get_room-IsSound h code room taken in
              let owned = still room (user_room env profile req code room) refl in
              rw (taken, ensure_room) (put_room-IsSound h code _ (grown-IsSound owned sound))
        ]

Step-IsSound : {server after : Server} → Step server after → IsSound server → IsSound after
Step-IsSound {server} (message env t1 t2 socket request) h =
    on_ws_message-IsSound env t1 t2 socket request server h
Step-IsSound {server} (timer env id room draw e) h =
    update_room-IsSound env id room _ server h (get_room-IsSound h id room e)
      (ai_timer_fired-Frames env room draw).grows
Step-IsSound (register session) h = put_session-IsSound h session
Step-IsSound {server} (unregister env socket) h = remove_session-IsSound env socket server h
Step-IsSound {server} (detach env tracked) h = detach_gateway-IsSound env tracked server h
Step-IsSound {server} {after} (create env codes profile req room e) h =
    subst MadeSound e (create_room-IsSound env codes profile req server h)

-- Whatever happens to the server, each of its rooms stands under its own id, has ten seats, and
-- keeps the last 600 entries of a history that is numbered from 1 without gaps; and each session
-- stands under its own socket.
pub Reachable-IsSound : {server : Server} → Reachable server → IsSound server
Reachable-IsSound start = record { rooms = tt; sessions = tt }
Reachable-IsSound (step run s) = Step-IsSound s (Reachable-IsSound run)
