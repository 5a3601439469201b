-- ===== src/Server/Rooms.antt =====
-- Making rooms: `ensure_room`, `create_room_for_user`, `first_open_seat` and `Room` as it begins,
-- of backend-cpp/src/main.cpp. The codes that `next_room_code` draws are an argument.
pub mod Created
use Prim.Native.String.{String}
use text.Mathlib.Text.{◌==◌ as str_eq}
use dezhou.Prelude.{ℕ, Bool, true, false, not, List, [], ◌∷◌, Option, none, some, if◌then◌else◌}
use dezhou.Prelude.Int.{ℤ}
use dezhou.Prelude.Names.{find_name, put_name}
use dezhou.Engine.RoundPhase.{waiting}
use dezhou.Stores.{UserProfileData, or_else}
use dezhou.Table.State.{Room, Env, seat_indices, no_seat, k_seats}
use dezhou.Table.Lobby.{clamp_hands, at_least_1000, is_occupied}
use dezhou.Server.State.{Server, get_room, put_room}

-- `Room room; room.room_id = room_id; room.room_code = room_id;`
abbrev pub new_room : Env → String → Room
new_room env room_id = record {
  room_id = room_id;
  room_code = room_id;
  room_type = "friend";
  owner_user_id = 0;
  visibility = "private";
  max_players = k_seats;
  last_active_at = env.now_ms;
  empty_since = some env.now_ms;
  status = "waiting";
  socket_ids = [];
  host_socket_id = "";
  seats =
      no_seat ∷ no_seat ∷ no_seat ∷ no_seat ∷ no_seat ∷ no_seat ∷ no_seat ∷ no_seat ∷ no_seat
      ∷ no_seat ∷ [];
  started = false;
  total_hands = 5;
  initial_chips = 1000;
  small_blind = 50;
  big_blind = 100;
  hand_num = 0;
  dealer_seat_idx = 0;
  sb_seat_idx = none;
  bb_seat_idx = none;
  pot = 0;
  round = waiting;
  community_cards = [];
  deck = [];
  current_max_bet = 0;
  min_raise = 100;
  active_seat_idx = none;
  pending_action_seats = [];
  players = [];
  turn_nonce = 0;
  last_actor_seat_idx = none;
  ai_timer = none;
  voice_participants = [];
  hand_history = [];
  activity_log = [];
  event_seq = 0;
  event_log = [];
  closing = false;
  expected_acks = [];
  match_acks = [];
}

-- The room, which is made where there is none.
unfoldable pub ensure_room : Env → String → Server → Room × Server
ensure_room env room_id server = elim (get_room server room_id) [
  | some room ↦ (room, server)
  | none ↦ (let room = new_room env room_id in (room, put_room room_id room server))
]

-- `do code = next_room_code(); while (rooms_.count(code) > 0);` over the codes drawn; `none` is a
-- loop that has not ended yet.
unfoldable pub fresh_code : Server → List String → Option String
fresh_code server [] = none
fresh_code server (code ∷ codes) =
    let rest = fresh_code server codes in
    elim (get_room server code) [ none ↦ some code | some room ↦ rest ]

pub record RoomRequest : Type 0 where
  pub visibility : String
  pub total_hands : ℤ
  pub initial_chips : ℤ
  pub room_type : String

-- The room of a user, under a code.
abbrev pub user_room : Env → UserProfileData → RoomRequest → String → Room → Room
user_room env profile req code room =
    let type = or_else req.room_type "friend" in
    record room {
      owner_user_id = profile.user_id;
      room_code = code;
      room_type = type;
      visibility = or_else req.visibility "private";
      status = if str_eq type "friend" then "waiting" else "matching";
      total_hands = clamp_hands req.total_hands;
      initial_chips = at_least_1000 req.initial_chips;
      small_blind = 50;
      big_blind = 100;
      last_active_at = env.now_ms;
    }

unfoldable pub create_room_for_user :
    Env → List String → UserProfileData → RoomRequest → Server → Option (Room × Server)
create_room_for_user env codes profile req server = elim (fresh_code server codes) [
  | none ↦ none
  | some code ↦
      (let (room, made) = ensure_room env code server in
        let owned = user_room env profile req code room in some (owned, put_room code owned made))
]

unfoldable pub first_open : Room → List ℕ → Option ℕ
first_open room [] = none
first_open room (i ∷ is) =
    let rest = first_open room is in if not (is_occupied room i) then some i else rest

unfoldable pub first_open_seat : Room → Option ℕ
first_open_seat room = first_open room seat_indices
