-- ===== src/Server/Sound/Leaving.antt =====
-- Voice and leaving keep the server sound.
use Prim.Native.String.{String}
use text.Mathlib.Text.{◌==◌ as str_eq}
use dezhou.Prelude.{
  ℕ, ◌≡◌, refl, true, false, not, ◌&&◌, ◌||◌, List, [], ◌∷◌, keep, is_empty, if-cases, elim-cases,
  if◌then◌else◌,
}
use dezhou.Prelude.Names.{find_name, erase_name, All-erase_name}
use dezhou.Table.State.{Room, Env, seat_at, seat_indices}
use dezhou.Table.Action.{is_player}
use dezhou.Table.Lobby.{is_occupied}
use dezhou.Table.Serving.{Session}
use dezhou.Table.Requests.{has_name}
use dezhou.Table.Frame.{Grows, still, grow_more, broadcast_game-Frames}
use dezhou.Table.Frame.Actions.{resolve_disconnect-Frames}
use dezhou.Table.Frame.Serves.{nothing, set_seat-Grows, free_seat-Grows}
use dezhou.Server.State.{Server, get_room}
use dezhou.Server.Seating.{set_seat, cancel_ai_takeover, unmanaged}
use dezhou.Server.Voice.{
  takes_part, drop_voice, handle_voice_join, handle_voice_leave, handle_voice_signal,
  VoiceSignalMessage,
}
use dezhou.Server.Leaving.{
  away, note_departure, release_seat, is_held_by, release_seats, hand_over_host, vacate, leave_room,
  forget_ack, is_last_ack, handle_disconnect, erase_session, drop_session, remove_session,
  drop_sessions, detach_gateway,
}
use dezhou.Server.Sound.{
  IsSound, RoomIsSound, grown-IsSound, get_room-IsSound, put_room-IsSound, erase_room-IsSound,
  put_session-IsSound,
}
use dezhou.Server.Sound.Marks.{catch_up-IsSound, update_room-IsSound}
use dezhou.Server.Sound.Sessions.{send_all-IsSound, cancel_gameplay_takeover-IsSound}

pub handle_voice_join-IsSound :
    (session : Session) (server : Server)
    → IsSound server
    → IsSound (handle_voice_join session server)
unfolding handle_voice_join
handle_voice_join-IsSound session server h =
    elim-cases IsSound (get_room server session.room_id) _ _ (λ e. h)
      λ room e.
        elim-cases IsSound session.seat_idx _ _ (λ e. h)
          λ i f.
            let seat = seat_at room i in
            if-cases IsSound
              (not (is_player seat.type) || not (str_eq seat.socket_id session.socket_id)) _ _
              (λ e. h)
              λ g.
                let joined =
                  grown-IsSound (still room (record room { voice_participants = _ }) refl)
                    (get_room-IsSound h session.room_id room e) in
                let put = put_room-IsSound h session.room_id _ joined in
                send_all-IsSound _ _ (
                  send_all-IsSound _ _
                    (put_session-IsSound put (record session { voice_joined = true })))

drop_voice-IsSound :
    (id socket : String) (room : Room) (server : Server)
    → IsSound server
    → RoomIsSound id room
    → IsSound (drop_voice id socket room server)
drop_voice-IsSound id socket room server h r = send_all-IsSound _ _ (
    put_room-IsSound h id _ (
      grown-IsSound
        (still room (record room { voice_participants = erase_name socket room.voice_participants })
          refl)
        r))

pub handle_voice_leave-IsSound :
    (session : Session) (server : Server)
    → IsSound server
    → IsSound (handle_voice_leave session server)
unfolding handle_voice_leave
handle_voice_leave-IsSound session server h =
    elim-cases IsSound (get_room server session.room_id) _ _ (λ e. h)
      λ room e.
        if-cases IsSound (not (takes_part room session.socket_id)) _ _ (λ e. h)
          λ f.
            drop_voice-IsSound session.room_id session.socket_id room _
              (put_session-IsSound h (record session { voice_joined = false }))
              (get_room-IsSound h session.room_id room e)

pub handle_voice_signal-IsSound :
    (session : Session) (req : VoiceSignalMessage) (server : Server)
    → IsSound server
    → IsSound (handle_voice_signal session req server)
unfolding handle_voice_signal
handle_voice_signal-IsSound session req server h =
    elim-cases IsSound (get_room server session.room_id) _ _ (λ e. h)
      λ room e.
        if-cases IsSound (not session.voice_joined) _ _ (λ e. h)
          λ e.
            if-cases IsSound
              (not (takes_part room session.socket_id) || not (takes_part room req.to)) _ _ (λ e. h)
              (λ e. send_all-IsSound _ _ h)

-- A room and the server around it.
abbrev BothSound : String → Room × Server → Type 0
BothSound id (room, server) = RoomIsSound id room × IsSound server

note_departure-IsSound :
    (env : Env) (session : Session) (room : Room) (i : ℕ) (server : Server)
    → IsSound server
    → IsSound (note_departure env session room i server)
note_departure-IsSound env session room i server h =
    if-cases IsSound (str_eq (seat_at room i).gameplay_session_id "") server _ (λ e. h)
      (λ e. record { rooms = h.rooms; sessions = h.sessions })

release_seat-IsSound :
    (env : Env) (session : Session) (id : String) (i : ℕ) (room : Room) (server : Server)
    → RoomIsSound id room
    → IsSound server
    → BothSound id (release_seat env session i (room, server))
unfolding release_seat
release_seat-IsSound env session id i room server r h =
    let noted = note_departure-IsSound env session room i server h in
    let left = set_seat room i (away env (seat_at room i)) in
    let cleared = cancel_ai_takeover room i in
    if-cases (BothSound id) room.started _ _
      (λ e. (
        grown-IsSound
            (grow_more (set_seat-Grows room i _) (resolve_disconnect-Frames env left i).grows) r,
        catch_up-IsSound env left _ _ noted,
      ))
      (λ e. (
        grown-IsSound
            (grow_more (set_seat-Grows room i (unmanaged (seat_at room i)))
              (free_seat-Grows cleared i _))
            r,
        cancel_gameplay_takeover-IsSound env room i _ noted,
      ))

release_seats-IsSound :
    (env : Env) (session : Session) (id : String) (is : List ℕ) (room : Room) (server : Server)
    → RoomIsSound id room
    → IsSound server
    → BothSound id (release_seats env session is (room, server))
unfolding release_seats
release_seats-IsSound env session id [] room server r h = (r, h)
release_seats-IsSound env session id (i ∷ is) room server r h =
    let next =
      if is_held_by session.socket_id (seat_at room i)
      then release_seat env session i (room, server)
      else (room, server) in
    let sound : BothSound id next =
      if-cases (BothSound id) (is_held_by session.socket_id (seat_at room i)) _ _
        (λ e. release_seat-IsSound env session id i room server r h) (λ e. (r, h)) in
    release_seats-IsSound env session id is next.0 next.1 sound.0 sound.1

hand_over_host-Grows :
    (env : Env) (socket : String) (room : Room) → Grows room (hand_over_host env socket room)
hand_over_host-Grows env socket room =
    if-cases (Grows room) (str_eq room.host_socket_id socket) _ _
      (λ e. still room (record room { host_socket_id = _ }) refl) (λ e. nothing room)

vacate-IsSound :
    (env : Env) (id : String) (session : Session) (room : Room) (server : Server)
    → IsSound server
    → RoomIsSound id room
    → IsSound (vacate env id session room server)
unfolding vacate
vacate-IsSound env id session room server h r =
    let (released, noted) = release_seats env session seat_indices (room, server) in
    let both = release_seats-IsSound env session id seat_indices room server r h in
    let left = hand_over_host env session.socket_id released in
    let left-IsSound = grown-IsSound (hand_over_host-Grows env session.socket_id released) both.0 in
    if-cases IsSound (is_empty (keep (is_occupied left) seat_indices)) _ _
      (λ e. erase_room-IsSound both.1 id)
      (λ e.
        update_room-IsSound env id left _ _ (send_all-IsSound _ _ both.1) left-IsSound
          (broadcast_game-Frames env left).grows)

forget_ack-Grows : (socket : String) (room : Room) → Grows room (forget_ack socket room)
forget_ack-Grows socket room =
    if-cases (Grows room) (room.closing && has_name room.expected_acks socket) _ _
      (λ e. still room (record room { expected_acks = _; match_acks = _ }) refl) (λ e. nothing room)

handle_disconnect-IsSound :
    (env : Env) (session : Session) (server : Server)
    → IsSound server
    → IsSound (handle_disconnect env session server)
unfolding handle_disconnect
handle_disconnect-IsSound env session server h =
    elim-cases IsSound (get_room server session.room_id) _ _ (λ e. h)
      λ room e.
        let entered = leave_room env session.socket_id room in
        let left = forget_ack session.socket_id entered in
        let left-IsSound =
          grown-IsSound
            (grow_more (still room entered refl) (forget_ack-Grows session.socket_id entered))
            (get_room-IsSound h session.room_id room e) in
        if-cases IsSound (is_last_ack session.socket_id room) _ _
          (λ e. erase_room-IsSound h session.room_id)
          (λ e.
            if-cases IsSound (takes_part left session.socket_id) _ _
              (λ e.
                vacate-IsSound env session.room_id session _ _
                  (drop_voice-IsSound session.room_id session.socket_id left server h left-IsSound)
                  (grown-IsSound (still left (record left { voice_participants = _ }) refl)
                    left-IsSound))
              (λ e. vacate-IsSound env session.room_id session left server h left-IsSound))

erase_session-IsSound :
    (socket : String) (server : Server) → IsSound server → IsSound (erase_session socket server)
erase_session-IsSound socket server h = record {
  rooms = h.rooms;
  sessions =
      All-erase_name (λ (socket, session). session.socket_id ≡ socket) socket server.sessions
        h.sessions;
}

drop_session-IsSound :
    (env : Env) (socket : String) (server : Server)
    → IsSound server
    → IsSound (drop_session env socket server)
unfolding drop_session
drop_session-IsSound env socket server h =
    elim-cases IsSound (find_name socket server.sessions) _ _ (λ e. h)
      λ session e. erase_session-IsSound socket _ (handle_disconnect-IsSound env session server h)

pub remove_session-IsSound :
    (env : Env) (socket : String) (server : Server)
    → IsSound server
    → IsSound (remove_session env socket server)
unfolding remove_session
remove_session-IsSound env socket server h =
    if-cases IsSound (str_eq socket "") _ _ (λ e. h) (λ e. drop_session-IsSound _ socket server h)

drop_sessions-IsSound :
    (env : Env) (sockets : List String) (server : Server)
    → IsSound server
    → IsSound (drop_sessions env sockets server)
unfolding drop_sessions
drop_sessions-IsSound env [] server h = h
drop_sessions-IsSound env (socket ∷ sockets) server h =
    drop_sessions-IsSound env sockets _ (drop_session-IsSound env socket server h)

pub detach_gateway-IsSound :
    (env : Env) (tracked : List String) (server : Server)
    → IsSound server
    → IsSound (detach_gateway env tracked server)
unfolding detach_gateway
detach_gateway-IsSound env tracked server h = drop_sessions-IsSound _ tracked server h
