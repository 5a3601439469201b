-- ===== src/Table/Frame.antt =====
-- What an operation of a hand leaves alone in its room: the seats and who plays, the host and the
-- members. What it tells is appended to the room's history.
pub mod Money
pub mod Turns
pub mod Actions
pub mod Matches
pub mod Serves
pub mod Lobby
pub mod Requests
use Prim.Native.String.{String}
use dezhou.Prelude.{
  ℕ, ◌+◌, ◌≡◌, refl, ap, sym, ◌∙◌, subst, Bool, List, [], ◌∷◌, ◌++◌, Option, none, some, length,
}
use mathlib.Core.List.{append_assoc, append-nil}
use dezhou.Table.State.{
  Room, Env, Seat, SeatType, VoiceParticipant, RoomEventEntry, Message, Notice, ActionText, seat_at,
  k_seats,
}
use dezhou.Prelude.{not, ltb, if-cases, inl, inr, Bool-cases}
use dezhou.Table.Events.{
  append_room_event, emit_room_event, emit_seat_event, broadcast_activity, broadcast_player_action,
  broadcast_game, build_game_state,
}
use dezhou.Table.Events.{keep_last, k_room_event_log_limit}
use dezhou.Table.Events.Numbered.{IsNumbered}
use dezhou.Table.Events.History.{IsHistoryOf, append_room_event-IsHistoryOf}

-- The room keeps its id and the number of its seats, and its history grows.
pub record Grows (before after : Room) : Type 0 where
  pub same_id : after.room_id ≡ before.room_id
  pub seats_count : length after.seats ≡ length before.seats
  pub appended : List RoomEventEntry
  pub grown :
      (history : List RoomEventEntry)
      → IsHistoryOf history before
      → IsHistoryOf (history ++ appended) after

-- What `quiet` operations do not touch.
pub record Outline : Type 0 where
  pub room_id : String
  pub seats_count : ℕ
  pub event_seq : ℕ
  pub event_log : List RoomEventEntry

abbrev pub outline : Room → Outline
outline r = record {
  room_id = r.room_id;
  seats_count = length r.seats;
  event_seq = r.event_seq;
  event_log = r.event_log;
}

pub still : (r r' : Room) → outline r' ≡ outline r → Grows r r'
still r r' e = record {
  same_id = ap (λ o. o.room_id) e;
  seats_count = ap (λ o. o.seats_count) e;
  appended = [];
  grown = λ history h. record {
    kept =
        ap (λ o. o.event_log) e
        ∙ h.kept
        ∙ ap (keep_last k_room_event_log_limit) (sym (append-nil history));
    numbered =
        subst (λ o. IsNumbered o.event_seq (history ++ [])) (sym e)
          (subst (IsNumbered r.event_seq) (sym (append-nil history)) h.numbered);
    counted = ap length (append-nil history) ∙ h.counted ∙ sym (ap (λ o. o.event_seq) e);
  };
}

pub grow_more : {r r' r'' : Room} → Grows r r' → Grows r' r'' → Grows r r''
grow_more {r} {r'} {r''} g g' = record {
  same_id = g'.same_id ∙ g.same_id;
  seats_count = g'.seats_count ∙ g.seats_count;
  appended = g.appended ++ g'.appended;
  grown = λ history h.
      subst (λ l. IsHistoryOf l r'') (append_assoc history g.appended g'.appended)
        (g'.grown (history ++ g.appended) (g.grown history h));
}

pub append_room_event-Grows :
    (env : Env) (room : Room) (message : Message) (seat_idx : Option ℕ)
    → Grows room (append_room_event env room message seat_idx)
unfolding append_room_event
append_room_event-Grows env room message seat_idx =
    let (e, h) = append_room_event-IsHistoryOf env room message seat_idx in
    record { same_id = refl; seats_count = refl; appended = e ∷ []; grown = h }

-- Who sits where, who is the host, who is in the room and in its voice, and whether a match is on
-- or ending.
pub record Scene : Type 0 where
  pub seats : List Seat
  pub host_socket_id : String
  pub socket_ids : List String
  pub started : Bool
  pub closing : Bool
  pub voice_participants : List (String × VoiceParticipant)

abbrev pub scene : Room → Scene
scene r = record {
  seats = r.seats;
  host_socket_id = r.host_socket_id;
  socket_ids = r.socket_ids;
  started = r.started;
  closing = r.closing;
  voice_participants = r.voice_participants;
}

-- The scene stays, and the history grows.
pub record Frames (before after : Room) : Type 0 where
  pub same_scene : scene after ≡ scene before
  pub grows : Grows before after

-- A room that differs in its chips, cards and turns only.
pub quiet : {r : Room} (r' : Room) → scene r' ≡ scene r → outline r' ≡ outline r → Frames r r'
quiet {r} r' s e = record { same_scene = s; grows = still r r' e }

pub and_then : {r r' r'' : Room} → Frames r r' → Frames r' r'' → Frames r r''
and_then f f' = record {
  same_scene = f'.same_scene ∙ f.same_scene;
  grows = grow_more f.grows f'.grows;
}

pub append_room_event-Frames :
    (env : Env) (room : Room) (message : Message) (seat_idx : Option ℕ)
    → Frames room (append_room_event env room message seat_idx)
unfolding append_room_event
append_room_event-Frames env room message seat_idx = record {
  same_scene = refl;
  grows = append_room_event-Grows env room message seat_idx;
}

pub emit_room_event-Frames :
    (env : Env) (room : Room) (message : Message) → Frames room (emit_room_event env room message)
unfolding emit_room_event
emit_room_event-Frames env room message = append_room_event-Frames env room message none

pub emit_seat_event-Frames :
    (env : Env) (room : Room) (i : ℕ) (message : Message)
    → Frames room (emit_seat_event env room i message)
unfolding emit_seat_event
emit_seat_event-Frames env room i message =
    if-cases (Frames room) (not (ltb i k_seats)) _ _ (λ h. quiet room refl refl)
      (λ h. seat_event (seat_at room i).type)
  where
    seat_event :
        (t : SeatType)
        → Frames room
            (elim t [ SeatType.empty ↦ room | _ ↦ append_room_event env room message (some i) ])
    seat_event SeatType.empty = quiet room refl refl
    seat_event SeatType.player = append_room_event-Frames env room message (some i)
    seat_event SeatType.ai = append_room_event-Frames env room message (some i)

pub broadcast_activity-Frames :
    (env : Env) (room : Room) (notice : Notice) → Frames room (broadcast_activity env room notice)
unfolding broadcast_activity
broadcast_activity-Frames env room notice =
    and_then (quiet (record room { activity_log = _ }) refl refl) (emit_room_event-Frames env _ _)

pub broadcast_player_action-Frames :
    (env : Env) (room : Room) (i : ℕ) (text : ActionText)
    → Frames room (broadcast_player_action env room i text)
unfolding broadcast_player_action
broadcast_player_action-Frames env room i text = emit_room_event-Frames env room _

pub broadcast_game-Frames : (env : Env) (room : Room) → Frames room (broadcast_game env room)
unfolding broadcast_game
broadcast_game-Frames env room = emit_room_event-Frames env room _
