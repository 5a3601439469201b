-- ===== src/Table/Serving.antt =====
-- What a handler of backend-cpp/src/main.cpp works on: the session that sent the request, the
-- room that `get_room` finds, and what is sent to single sockets apart from the room's event log.
-- With it `find_host_seat_idx`, `build_room_state` and `broadcast_room`.
use Prim.Native.String.{String}
use dezhou.Prelude.{ℕ, ◌&&◌, Bool, List, [], ◌∷◌, map, Option, none, some, if◌then◌else◌}
use text.Mathlib.Text.{◌==◌ as str_eq}
use dezhou.Engine.Cards.{Card}
use dezhou.Stores.{UserProfileData}
use dezhou.Table.State.{
  Room, SeatType, MatchStat, Notice, GameState, RoomEventEntry, VoiceParticipant, seat_at,
  seat_indices,
}
use dezhou.Table.Events.{is_ai}
use dezhou.Table.Action.{Reason, is_player}

pub record Session : Type 0 where
  pub socket_id : String
  pub session_id : String
  pub gameplay_session_id : String
  pub room_id : String
  pub seat_idx : Option ℕ
  pub name : String
  pub client_id : String
  pub user_id : ℕ
  pub last_seen_seq : ℕ
  pub authenticated : Bool
  pub voice_joined : Bool
  pub profile : UserProfileData

pub record SeatRow : Type 0 where
  pub seat_idx : ℕ
  pub is_ai : Bool
  pub name : String
  pub decor : String
  pub socket_id : String
  pub client_id : String
  pub ai_managed : Bool
  pub disconnected_at : ℕ

pub record RoomState : Type 0 where
  pub room_id : String
  pub host_socket_id : String
  pub host_seat_idx : Option ℕ
  pub is_host : Bool
  pub started : Bool
  pub owner_user_id : ℕ
  pub room_code : String
  pub visibility : String
  pub status : String
  pub max_players : ℕ
  pub total_hands : ℕ
  pub initial_chips : ℕ
  pub small_blind : ℕ
  pub big_blind : ℕ
  pub seats : List SeatRow

-- The errors that the handlers send.
pub data Refusal : Type 0 where
  room_not_found already_started room_closing host_only invalid_seat seat_taken : Refusal
  too_few_players no_started_room not_a_player not_the_owner not_the_socket : Refusal
  bad_amount host_offline : Refusal
  not_logged_in cannot_rejoin cannot_reclaim : Refusal
  rejected : Reason → Refusal

pub data Reply : Type 0 where
  error : Refusal → Reply
  room_state : RoomState → Reply
  kicked kicked_in_hand : ℕ → Reply
  rebuy_requested : ℕ → String → ℕ → Reply
  rebuy_denied : Reply
  room_closed : String → Reply
  user_profile : UserProfileData → Reply
  you_state : String → Option ℕ → Bool → Reply
  activity_sync : List Notice → Reply
  game_state : GameState → Reply
  seat_taken : ℕ → Reply
  seat_session : String → String → String → ℕ → Reply
  own_hand : ℕ → List Card → Reply
  missed : RoomEventEntry → Reply
  voice_peers : List VoiceParticipant → Reply
  voice_peer_joined : VoiceParticipant → Reply
  voice_peer_left : String → Reply
  voice_signal : String → String → String → Reply

-- What a handler leaves: the room, if there still is one, what it sent to sockets, and the
-- statistics that it handed to the user store.
pub record Served : Type 0 where
  pub room : Option Room
  pub sent : List (String × Reply)
  pub stats : List MatchStat

abbrev pub unchanged : Room → Served
unchanged room = record { room = some room; sent = []; stats = [] }

abbrev pub no_room : Served
no_room = record { room = none; sent = []; stats = [] }

abbrev pub refuse : Session → Room → Refusal → Served
refuse session room refusal = record {
  room = some room;
  sent = (session.socket_id, Reply.error refusal) ∷ [];
  stats = [];
}

abbrev pub is_host : Session → Room → Bool
is_host session room = str_eq session.socket_id room.host_socket_id

unfoldable pub find_host : Room → List ℕ → Option ℕ
find_host room [] = none
find_host room (i ∷ is) =
    let rest = find_host room is in
    let seat = seat_at room i in
    if is_player seat.type && str_eq seat.socket_id room.host_socket_id then some i else rest

unfoldable pub find_host_seat_idx : Room → Option ℕ
find_host_seat_idx room = find_host room seat_indices

unfoldable pub seat_rows : Room → List ℕ → List SeatRow
seat_rows room [] = []
seat_rows room (i ∷ is) =
    let rest = seat_rows room is in
    let seat = seat_at room i in
    elim seat.type [
      | SeatType.empty ↦ rest
      | _ ↦
          record {
            seat_idx = i;
            is_ai = is_ai seat.type;
            name = seat.name;
            decor = seat.decor;
            socket_id = seat.socket_id;
            client_id = seat.client_id;
            ai_managed = seat.ai_managed;
            disconnected_at = seat.disconnected_at;
          }
          ∷ rest
    ]

unfoldable pub build_room_state : Room → String → RoomState
build_room_state room for_socket_id = record {
  room_id = room.room_id;
  host_socket_id = room.host_socket_id;
  host_seat_idx = find_host_seat_idx room;
  is_host = str_eq for_socket_id room.host_socket_id;
  started = room.started;
  owner_user_id = room.owner_user_id;
  room_code = room.room_code;
  visibility = room.visibility;
  status = room.status;
  max_players = room.max_players;
  total_hands = room.total_hands;
  initial_chips = room.initial_chips;
  small_blind = room.small_blind;
  big_blind = room.big_blind;
  seats = seat_rows room seat_indices;
}

-- What `broadcast_room` sends; it leaves the room as it is.
unfoldable pub broadcast_room : Room → List (String × Reply)
broadcast_room room =
    map (λ socket. (socket, Reply.room_state (build_room_state room socket))) room.socket_ids
