-- ===== src/Server/State.antt =====
-- The fields of `PokerServer` (backend-cpp/src/main.cpp) that the requests of sessions work on.
-- `sent` collects what is sent to single sockets apart from the rooms' events, and `stats` what is
-- handed to the user store. The connected clients are in Env.
use Prim.Native.String.{String}
use dezhou.Prelude.{ℕ, Bool, List, [], ◌∷◌, ◌++◌, Option, none, some}
use dezhou.Prelude.Names.{find_name, put_name, erase_name}
use dezhou.Stores.{UserProfileData}
use dezhou.Table.State.{Room, MatchStat}
use dezhou.Table.Serving.{Session, Reply, Refusal}

pub record GameplaySessionData : Type 0 where
  pub gameplay_session_id : String
  pub user_id : ℕ
  pub room_id : String
  pub seat_idx : Option ℕ
  pub reconnect_token : String
  pub last_seen_seq : ℕ
  pub last_disconnect_at : ℕ
  pub ai_takeover_at : ℕ
  pub expires_at : ℕ
  pub ai_managed : Bool

abbrev pub GameplaySessions : Type 0
GameplaySessions = List (String × GameplaySessionData)

pub record Server : Type 0 where
  pub rooms : List (String × Room)
  pub sessions : List (String × Session)
  pub gameplay_sessions : GameplaySessions
  pub pending_match_rooms : List (ℕ × String)
  pub cached_users : List (String × UserProfileData)
  pub sent : List (String × Reply)
  pub stats : List MatchStat

abbrev pub send_event : String → Reply → Server → Server
send_event socket reply server = record server { sent = server.sent ++ (socket, reply) ∷ [] }

abbrev pub send_all : List (String × Reply) → Server → Server
send_all replies server = record server { sent = server.sent ++ replies }

abbrev pub send_error : String → Refusal → Server → Server
send_error socket refusal = send_event socket (Reply.error refusal)

abbrev pub get_room : Server → String → Option Room
get_room server room_id = find_name room_id server.rooms

-- A room that was changed through the reference that `get_room` gave.
abbrev pub put_room : String → Room → Server → Server
put_room room_id room server = record server { rooms = put_name room_id room server.rooms }

abbrev pub erase_room : String → Server → Server
erase_room room_id server = record server { rooms = erase_name room_id server.rooms }

abbrev pub put_session : Session → Server → Server
put_session session server = record server {
  sessions = put_name session.socket_id session server.sessions;
}

-- `Session&` refers to an entry of `sessions_`; this is its value now.
abbrev pub session_now : Server → Session → Session
session_now server session = elim (find_name session.socket_id server.sessions) [
  | none ↦ session
  | some now ↦ now
]
