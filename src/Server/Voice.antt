-- ===== src/Server/Voice.antt =====
-- Voice: `handle_voice_join`, `handle_voice_leave` and `handle_voice_signal` of
-- backend-cpp/src/main.cpp. The participants of a room are a map by socket.
use Prim.Native.String.{String}
use text.Mathlib.Text.{◌==◌ as str_eq}
use dezhou.Prelude.{ℕ, Bool, true, false, ◌||◌, not, List, map, keep, none, some, if◌then◌else◌}
use dezhou.Prelude.Names.{find_name, put_name, erase_name}
use dezhou.Table.State.{Room, VoiceParticipant, seat_at}
use dezhou.Table.Action.{is_player}
use dezhou.Table.Serving.{Session, Reply}
use dezhou.Server.State.{Server, send_event, send_all, get_room, put_room, put_session}

abbrev pub takes_part : Room → String → Bool
takes_part room socket = elim (find_name socket room.voice_participants) [
  | none ↦ false
  | some p ↦ true
]

-- The participants but for the one with this socket.
abbrev pub other_peers : Room → String → List VoiceParticipant
other_peers room socket =
    map (λ e. e.1) (keep (λ e. not (str_eq e.0 socket)) room.voice_participants)

-- A reply to each of the participants.
abbrev pub to_peers : List (String × VoiceParticipant) → Reply → List (String × Reply)
to_peers participants reply = map (λ e. (e.0, reply)) participants

abbrev pub join_voice : Session → ℕ → Room → Server → Server
join_voice session i room server =
    let peer : VoiceParticipant = record {
      socket_id = session.socket_id;
      seat_idx = i;
      name = (seat_at room i).name;
    } in
    let joined = record room {
      voice_participants = put_name session.socket_id peer room.voice_participants;
    } in
    let others = keep (λ e. not (str_eq e.0 session.socket_id)) joined.voice_participants in
    send_all (to_peers others (Reply.voice_peer_joined peer)) (
      send_event session.socket_id (Reply.voice_peers (other_peers joined session.socket_id)) (
        put_session (record session { voice_joined = true })
          (put_room session.room_id joined server)))

unfoldable pub handle_voice_join : Session → Server → Server
handle_voice_join session server = elim (get_room server session.room_id) [
  | none ↦ server
  | some room ↦ elim session.seat_idx [
    | none ↦ server
    | some i ↦
        let seat = seat_at room i in
        if not (is_player seat.type) || not (str_eq seat.socket_id session.socket_id)
        then server
        else join_voice session i room server
  ]
]

-- A participant that is erased, and the others that are told.
abbrev pub drop_voice : String → String → Room → Server → Server
drop_voice room_id socket room server =
    let left = record room { voice_participants = erase_name socket room.voice_participants } in
    send_all (to_peers left.voice_participants (Reply.voice_peer_left socket))
      (put_room room_id left server)

unfoldable pub handle_voice_leave : Session → Server → Server
handle_voice_leave session server = elim (get_room server session.room_id) [
  | none ↦ server
  | some room ↦
      if not (takes_part room session.socket_id)
      then server
      else drop_voice session.room_id session.socket_id room
          (put_session (record session { voice_joined = false }) server)
]

pub record VoiceSignalMessage : Type 0 where
  pub to : String
  pub signal_data : String

unfoldable pub handle_voice_signal : Session → VoiceSignalMessage → Server → Server
handle_voice_signal session req server = elim (get_room server session.room_id) [
  | none ↦ server
  | some room ↦
      if not session.voice_joined
      then server
      else if not (takes_part room session.socket_id) || not (takes_part room req.to)
      then server
      else send_event req.to (Reply.voice_signal session.socket_id req.to req.signal_data) server
]
