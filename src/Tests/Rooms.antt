-- ===== src/Tests/Rooms.antt =====
-- The requests of a room, its event log and its cards at the table of three players.
use dezhou.Prelude.{
  true, set, ℕ, ◌≤◌, ◌≡◌, refl, ◌==◌, if◌then◌else◌, false, [], ◌∷◌, keep, All, some, none, arith,
}
use dezhou.Prelude.Int.{pos, negsuc, plus_int32}
use dezhou.Stores.{UserProfileData}
use dezhou.Engine.Cards.{Card}
use dezhou.Table.State.{seat_at, seat_indices, Room, RoomEventEntry, Message, Notice, ActionText}
use dezhou.Table.Events.{append_room_event}
use dezhou.Table.Events.Numbered.{IsLogged, append_room_event-IsLogged}
use dezhou.Table.Deal.{deal_hole_cards, apply_pending_rebuys, rebuy_player}
use dezhou.Table.Deal.Conserved.{card_weight, deal_hole_cards-weight}
use dezhou.Table.Serving.{Session}
use dezhou.Table.Lobby.Departures.{prune_departed_seats-stayed}
use dezhou.Table.Lobby.{StartGameRequest, handle_start_game, is_departed, prune_departed_seats}
use dezhou.Table.Lobby.Starting.{IsStarted, handle_start_game-IsStarted}
use dezhou.Table.Rebuys.{handle_rebuy, handle_rebuy_approve}
use dezhou.Table.Rebuys.Balance.{pledged, IsPaid, apply_pending_rebuys-pledged}
use dezhou.Table.Rebuys.Pledges.{
  RebuyResult, ApprovalResult, handle_rebuy-RebuyResult, handle_rebuy_approve-ApprovalResult,
}
use dezhou.Table.Requests.{handle_player_action, replay_missed_events}
use dezhou.Table.Requests.Ownership.{
  IsPermitted, is_missed, last_seen_of, handle_player_action-IsPermitted,
  replay_missed_events-missed,
}
use dezhou.Tests.Table.{env, room, player, raise_40}

-- The host, on seat 0.
abbrev pub ada_profile : UserProfileData
ada_profile = record {
  user_id = 7;
  external_id = "ada";
  login_username = "ada";
  username = "Ada";
  avatar = "";
  gold = pos 30;
  games_played = 4;
  games_won = 4;
}

abbrev pub host : Session
host = record {
  socket_id = "s0";
  session_id = "";
  gameplay_session_id = "";
  room_id = "r";
  seat_idx = some 0;
  name = "Ada";
  client_id = "c0";
  user_id = 7;
  last_seen_seq = 1;
  authenticated = true;
  voice_joined = false;
  profile = ada_profile;
}

abbrev card : ℕ → Card
card v = record { s = "hearts"; r = ""; v = v }

abbrev with_deck : Room
with_deck = record room {
  deck = card 2 ∷ card 3 ∷ card 4 ∷ card 5 ∷ card 6 ∷ card 7 ∷ card 8 ∷ card 9 ∷ card 10 ∷ [];
}

abbrev is_nine : Card → ℕ
is_nine c = if c.v == 9 then 1 else 0

-- A player on seat 1 who has lost everything and pledged 1000 chips.
abbrev broke : Room
broke = record room {
  players = (0, player 0 1000 0) ∷ (1, record (player 1 0 10) { pending_rebuy = pos 1000 }) ∷ [];
}

abbrev idle : Room
idle = record room { started = false }

abbrev pub event : ℕ → RoomEventEntry
event n = record {
  seq = n;
  message = Message.player_action 1 ActionText.did_fold;
  seat_idx = none;
  created_at = 0;
}

abbrev logged : Room
logged = record room { event_seq = 3; event_log = event 2 ∷ event 3 ∷ [] }

logged-IsLogged : IsLogged logged
logged-IsLogged = record { numbered = (refl, (refl, tt)); bounded = omega arith }

handle_player_action-IsPermitted_example :
    IsPermitted env host room raise_40 (handle_player_action env host (some room) raise_40)
handle_player_action-IsPermitted_example = handle_player_action-IsPermitted env host room raise_40

replay_missed_events-missed_example :
    ((replay_missed_events host none logged).0
      ≡ keep (is_missed (last_seen_of host none) (some 0)) logged.event_log)
    × (1 ≤ (replay_missed_events host none logged).1)
replay_missed_events-missed_example = replay_missed_events-missed host none logged

handle_rebuy-RebuyResult_example :
    RebuyResult
      (record host { seat_idx = some 1 })
      broke
      (pos 1500)
      (handle_rebuy env (record host { seat_idx = some 1 }) (some broke) (pos 1500))
handle_rebuy-RebuyResult_example =
    handle_rebuy-RebuyResult env (record host { seat_idx = some 1 }) broke (pos 1500)

handle_rebuy_approve-ApprovalResult_example :
    ApprovalResult host broke 1 (pos 1500) (handle_rebuy_approve env host (some broke) 1 (pos 1500))
handle_rebuy_approve-ApprovalResult_example =
    handle_rebuy_approve-ApprovalResult env host broke 1 (pos 1500)

apply_pending_rebuys-pledged_example :
    (pledged (apply_pending_rebuys env broke).players ≡ pledged broke.players)
    × All IsPaid (apply_pending_rebuys env broke).players
apply_pending_rebuys-pledged_example =
    apply_pending_rebuys-pledged env broke (omega arith, (omega arith, tt))

-- Two rebuys of 2000000000 chips leave a pledge below zero, and the next hand pays nothing.
twice_pledged :
    (plus_int32 (plus_int32 (pos 0) 2000000000) 2000000000 ≡ negsuc 294967295)
    × ((rebuy_player (record (player 1 0 10) { pending_rebuy = negsuc 294967295 })).chips ≡ 0)
twice_pledged = (refl, refl)

abbrev start_request : StartGameRequest
start_request = record { total_hands = pos 80; initial_chips = pos 500 }

handle_start_game-IsStarted_example :
    IsStarted env host idle (handle_start_game env host (some idle) start_request)
handle_start_game-IsStarted_example = handle_start_game-IsStarted env host idle start_request

append_room_event-IsLogged_example :
    IsLogged (append_room_event env logged (Message.activity (Notice.folds "s1")) none)
    × ((append_room_event env logged (Message.activity (Notice.folds "s1")) none).event_seq ≡ 4)
append_room_event-IsLogged_example =
    append_room_event-IsLogged env logged (Message.activity (Notice.folds "s1")) none
      logged-IsLogged

deal_hole_cards-weight_example :
    card_weight is_nine (deal_hole_cards env with_deck) ≡ card_weight is_nine with_deck
deal_hole_cards-weight_example = deal_hole_cards-weight is_nine env with_deck

-- The player on seat 1 has left.
abbrev left : Room
left = record room {
  seats = set room.seats 1 (record (seat_at room 1) { socket_id = "gone"; disconnected_at = 5 });
}

prune_departed_seats-stayed_example :
    All (λ i. is_departed env (seat_at (prune_departed_seats env left) i) ≡ false) seat_indices
    × ((j : ℕ)
        → is_departed env (seat_at left j) ≡ false
        → seat_at (prune_departed_seats env left) j ≡ seat_at left j)
prune_departed_seats-stayed_example = prune_departed_seats-stayed env left
