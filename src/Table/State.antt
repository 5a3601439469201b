-- ===== src/Table/State.antt =====
-- The data of backend-cpp/src/main.cpp that a hand works on (`Seat`, `PlayerState`, `Room` and the
-- messages), and the surroundings of the server that a hand reads. A field that is -1 for "none" is
-- an Option. Stacks, bets and pots are numbers, as the code means them: its `int`s fall below zero
-- only where a sum of chips leaves their range. A pledge and a buy-in are integers.
use Prim.Native.String.{String}
use dezhou.Prelude.{ℕ, Bool, false, List, [], ◌∷◌, Option, get_or}
use dezhou.Prelude.Int.{ℤ}
use dezhou.Engine.Cards.{Card}
use dezhou.Engine.RoundPhase.{RoundPhase}

abbrev pub k_seats : ℕ
k_seats = 10

-- The values of `for (int i = 0; i < kSeats; ++i)`.
abbrev pub seat_indices : List ℕ
seat_indices = 0 ∷ 1 ∷ 2 ∷ 3 ∷ 4 ∷ 5 ∷ 6 ∷ 7 ∷ 8 ∷ 9 ∷ []

pub data SeatType : Type 0 where
  empty player ai : SeatType

pub record Seat : Type 0 where
  pub type : SeatType
  pub socket_id : String
  pub name : String
  pub client_id : String
  pub decor : String
  pub user_id : ℕ
  pub gameplay_session_id : String
  pub reconnect_token : String
  pub ai_managed : Bool
  pub ai_takeover_at : ℕ
  pub disconnected_at : ℕ

-- `Seat{}`.
abbrev pub no_seat : Seat
no_seat = record {
  type = SeatType.empty;
  socket_id = "";
  name = "";
  client_id = "";
  decor = "none";
  user_id = 0;
  gameplay_session_id = "";
  reconnect_token = "";
  ai_managed = false;
  ai_takeover_at = 0;
  disconnected_at = 0;
}

pub record PlayerState : Type 0 where
  pub seat_idx : ℕ
  pub chips : ℕ
  pub current_bet : ℕ
  pub hand_contribution : ℕ
  pub is_folded : Bool
  pub is_bankrupt : Bool
  pub hand : List Card
  pub total_buy_in : ℤ
  pub pending_rebuy : ℤ
  pub sit_out_until_hand : ℕ

pub record VoiceParticipant : Type 0 where
  pub socket_id : String
  pub seat_idx : ℕ
  pub name : String

pub record WinnerInfo : Type 0 where
  pub seat_idx : ℕ
  pub name : String

pub record MatchHandInfo : Type 0 where
  pub hand_num : ℕ
  pub winners : List WinnerInfo
  pub desc : String

-- The lines of the activity log, as the values that their texts show.
pub data Notice : Type 0 where
  rebuys : String → ℕ → Notice
  hand_header : ℕ → ℕ → Notice
  posts_small_blind posts_big_blind : String → ℕ → Notice
  auto_folded auto_checked : String → Notice
  folds checks calls : String → Notice
  raises_to : String → ℕ → Notice
  all_in_for all_in_to short_all_in : String → ℕ → Notice
  all_in_call : String → Notice
  others_folded : String → Notice
  wins_pot : List String → ℕ → ℕ → String → Notice
  match_text : String → Notice
  removed_by_host rebuy_denied_to : String → Notice
  rebuys_next_hand rebuy_approved : String → ℕ → Notice

-- The texts of a player's action.
pub data ActionText : Type 0 where
  did_fold did_check did_all_in : ActionText
  did_call did_raise did_all_in_to : ℕ → ActionText

pub record PlayerRow : Type 0 where
  pub seat_idx : ℕ
  pub name : String
  pub is_ai : Bool
  pub chips : ℕ
  pub current_bet : ℕ
  pub is_folded : Bool
  pub is_bankrupt : Bool
  pub total_buy_in : ℤ

pub record GameState : Type 0 where
  pub room_id : String
  pub started : Bool
  pub total_hands : ℕ
  pub initial_chips : ℕ
  pub small_blind : ℕ
  pub big_blind : ℕ
  pub hand_num : ℕ
  pub dealer_seat_idx : ℕ
  pub sb_seat_idx : Option ℕ
  pub bb_seat_idx : Option ℕ
  pub active_seat_idx : Option ℕ
  pub pot : ℕ
  pub round : RoundPhase
  pub current_max_bet : ℕ
  pub min_raise : ℕ
  pub community_cards : List Card
  pub players : List PlayerRow

pub record HandOver : Type 0 where
  pub hand_num : ℕ
  pub total_hands : ℕ
  pub desc : String
  pub winners : List WinnerInfo
  pub showdown_hands : List (WinnerInfo × List Card)

pub record Standing : Type 0 where
  pub seat_idx : ℕ
  pub is_ai : Bool
  pub name : String
  pub chips : ℕ
  pub buy_in : ℤ
  pub net : ℤ

pub record MatchStat : Type 0 where
  pub external_id : String
  pub username : String
  pub gold_delta : ℤ
  pub winner : Bool

pub record MatchOver : Type 0 where
  pub room_id : String
  pub total_hands : ℕ
  pub played_hands : ℕ
  pub standings : List Standing
  pub hands : List MatchHandInfo

-- The payloads of the events that a hand emits.
pub data Message : Type 0 where
  activity : Notice → Message
  player_action : ℕ → ActionText → Message
  private_hand : ℕ → List Card → Message
  turn : ℕ → ℕ → Message
  game_state : GameState → Message
  hand_over : HandOver → Message
  match_over : MatchOver → Message

pub record RoomEventEntry : Type 0 where
  pub seq : ℕ
  pub message : Message
  pub seat_idx : Option ℕ
  pub created_at : ℕ

pub record Room : Type 0 where
  pub room_id : String
  pub room_code : String
  pub room_type : String
  pub owner_user_id : ℕ
  pub visibility : String
  pub max_players : ℕ
  pub last_active_at : ℕ
  pub empty_since : Option ℕ
  pub status : String
  pub socket_ids : List String
  pub host_socket_id : String
  pub seats : List Seat
  pub started : Bool
  pub total_hands : ℕ
  pub initial_chips : ℕ
  pub small_blind : ℕ
  pub big_blind : ℕ
  pub hand_num : ℕ
  pub dealer_seat_idx : ℕ
  pub sb_seat_idx : Option ℕ
  pub bb_seat_idx : Option ℕ
  pub pot : ℕ
  pub round : RoundPhase
  pub community_cards : List Card
  pub deck : List Card
  pub current_max_bet : ℕ
  pub min_raise : ℕ
  pub active_seat_idx : Option ℕ
  pub pending_action_seats : List ℕ
  pub players : List (ℕ × PlayerState)
  pub turn_nonce : ℕ
  pub last_actor_seat_idx : Option ℕ
  pub ai_timer : Option ℕ
  pub voice_participants : List (String × VoiceParticipant)
  pub hand_history : List MatchHandInfo
  pub activity_log : List Notice
  pub event_seq : ℕ
  pub event_log : List RoomEventEntry
  pub closing : Bool
  pub expected_acks : List String
  pub match_acks : List String

-- What a hand reads of the server around it: the connected clients, the clock, the random number
-- generator, as what it makes of a sorted deck, and the name of an account in the auth store.
pub record Env : Type 0 where
  pub active_gateway_clients : List String
  pub now_ms : ℕ
  pub shuffle : List Card → List Card
  pub username_of : ℕ → Option String

abbrev pub seat_at : Room → ℕ → Seat
seat_at room i = get_or room.seats i no_seat

-- The request of a player, `ActionRequest`: the bytes of its type, and an `int32`.
pub record ActionRequest : Type 0 where
  pub type : List ℕ
  pub raise_by : ℤ
