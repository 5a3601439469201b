-- ===== src/Table/Requests.antt =====
-- The requests of a player: `handle_player_action`, `handle_set_decor`, `handle_ack_match_over`
-- with `release_room_if_done`, and `replay_missed_events` of backend-cpp/src/main.cpp.
pub mod Ownership
pub mod Complete
use Prim.Native.String.{String}
use text.Mathlib.Text.{◌==◌ as str_eq}
use dezhou.Prelude.{
  ℕ, ◌&&◌, ◌||◌, not, Bool, true, false, List, [], ◌∷◌, Option, none, some, max, ltb, leb, ◌==◌,
  if◌then◌else◌, ◌++◌, all_of, any_of, set, map,
}
use dezhou.Table.State.{Room, Env, Seat, ActionRequest, RoomEventEntry, seat_at, k_seats}
use dezhou.Table.Events.{broadcast_game}
use dezhou.Table.Action.{handle_action, is_player}
use dezhou.Table.Serving.{
  Session, Served, Reply, Refusal, unchanged, no_room, refuse, broadcast_room,
}

-- What a request still carried out sends: the reason of a rejected action.
unfoldable pub act : Env → Session → Room → ℕ → ActionRequest → Served
act env session room i req =
    let (after, reason) = handle_action env room i req session.socket_id in
    record {
      room = some after;
      sent = elim reason [
        | none ↦ []
        | some r ↦ (session.socket_id, Reply.error (Refusal.rejected r)) ∷ []
      ];
      stats = [];
    }

-- `seat.user_id > 0 && seat.user_id != session.user_id`
abbrev pub is_foreign : Session → Seat → Bool
is_foreign session seat = ltb 0 seat.user_id && not (seat.user_id == session.user_id)

-- `!seat.socket_id.empty() && seat.socket_id != session.socket_id && !seat.ai_managed`
abbrev pub is_other_socket : Session → Seat → Bool
is_other_socket session seat =
    not (str_eq seat.socket_id "")
    && not (str_eq seat.socket_id session.socket_id)
    && not seat.ai_managed

unfoldable pub handle_player_action : Env → Session → Option Room → ActionRequest → Served
handle_player_action env session none req = record no_room {
  sent = (session.socket_id, Reply.error Refusal.no_started_room) ∷ [];
}
handle_player_action env session (some room) req =
    if not room.started
    then refuse session room Refusal.no_started_room
    else elim session.seat_idx [
      | none ↦ refuse session room Refusal.no_started_room
      | some i ↦
          let seat = seat_at room i in
          if not (ltb i k_seats)
          then refuse session room Refusal.invalid_seat
          else if not (is_player seat.type)
          then refuse session room Refusal.not_a_player
          else if is_foreign session seat
          then refuse session room Refusal.not_the_owner
          else if is_other_socket session seat
          then refuse session room Refusal.not_the_socket
          else act env session room i req
    ]

abbrev pub allowed_decor : List String
allowed_decor = "none" ∷ "cola" ∷ "coffee" ∷ "wine" ∷ "cigar" ∷ []

unfoldable pub handle_set_decor : Env → Session → Option Room → String → Served
handle_set_decor env session none decor = no_room
handle_set_decor env session (some room) decor = elim session.seat_idx [
  | none ↦ unchanged room
  | some i ↦
      if room.closing || not (any_of (str_eq decor) allowed_decor)
      then unchanged room
      else (let decorated = record room {
        seats = set room.seats i (record (seat_at room i) { decor = decor });
        last_active_at = env.now_ms;
      } in
          record {
            room = some (broadcast_game env decorated);
            sent = broadcast_room decorated;
            stats = [];
          })
]

-- `count(s) > 0` of a set of names.
abbrev pub has_name : List String → String → Bool
has_name names s = any_of (str_eq s) names

-- A room whose members have all acknowledged the end is closed and gone, unless it is reusable.
unfoldable pub release_room_if_done : Room → Served
release_room_if_done room =
    if str_eq room.room_type "friend"
    then unchanged room
    else if not (all_of (has_name room.match_acks) room.expected_acks)
    then unchanged room
    else record no_room {
      sent = map (λ socket. (socket, Reply.room_closed room.room_id)) room.socket_ids;
    }

unfoldable pub handle_ack_match_over : Session → Option Room → Served
handle_ack_match_over session none = no_room
handle_ack_match_over session (some room) =
    if not room.closing
    then unchanged room
    else release_room_if_done (record room {
      match_acks =
          if has_name room.match_acks session.socket_id
          then room.match_acks
          else session.socket_id ∷ room.match_acks;
    })

-- `entry.seat_idx >= 0 && entry.seat_idx != session.seat_idx`
abbrev pub is_private_to_other : Option ℕ → RoomEventEntry → Bool
is_private_to_other seat_idx entry = elim entry.seat_idx [
  | none ↦ false
  | some i ↦ elim seat_idx [ none ↦ true | some j ↦ not (i == j) ]
]

-- The loop of `replay_missed_events` from the last event seen on: the entries that are sent, and
-- the session's `last_seen_seq`.
unfoldable pub replay :
    ℕ → Option ℕ → List RoomEventEntry → List RoomEventEntry × ℕ → List RoomEventEntry × ℕ
replay last_seen seat_idx [] st = st
replay last_seen seat_idx (entry ∷ entries) (sent, seen) = replay last_seen seat_idx entries (
    if leb entry.seq last_seen || is_private_to_other seat_idx entry
    then (sent, seen)
    else (sent ++ entry ∷ [], max seen entry.seq))

-- `gameplay_seen` is the `last_seen_seq` of the gameplay session, if there is one.
unfoldable pub replay_missed_events : Session → Option ℕ → Room → List RoomEventEntry × ℕ
replay_missed_events session gameplay_seen room =
    let last_seen : ℕ = elim gameplay_seen [
      | none ↦ session.last_seen_seq
      | some n ↦ max session.last_seen_seq n
    ] in
    replay last_seen session.seat_idx room.event_log ([], session.last_seen_seq)
