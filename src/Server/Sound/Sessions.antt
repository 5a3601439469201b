-- ===== src/Server/Sound/Sessions.antt =====
-- Joining, taking a seat, voice and leaving keep the server sound.
use Prim.Native.String.{String}
use text.Mathlib.Text.{◌==◌ as str_eq}
use dezhou.Prelude.{
  ℕ, refl, not, ltb, ◌&&◌, List, [], ◌∷◌, Option, none, some, if-cases, elim-cases,
}
use dezhou.Table.State.{Room, Env, Seat, seat_at, seat_indices, no_seat, k_seats}
use dezhou.Table.Events.{broadcast_game}
use dezhou.Table.Seats.{ensure_players_map, is_seat_occupied}
use dezhou.Table.Action.{is_player}
use dezhou.Table.Serving.{Session, Reply}
use dezhou.Table.Frame.{Grows, still, grow_more, broadcast_game-Frames}
use dezhou.Table.Frame.Turns.{request_turn-Frames}
use dezhou.Table.Frame.Serves.{nothing, set_seat-Grows}
use dezhou.Server.State.{Server, send_all, get_room}
use dezhou.Server.Sync.{bind_gameplay, look_up_seen, replay_to_session, send_full_state_sync}
use dezhou.Server.Seating.{
  set_seat, cancel_ai_takeover, cancel_gameplay_takeover, reclaimed_seat, can_reclaim_started_seat,
  own_or, reclaim_seat, leave_seats, new_seat, move_to_seat, sit_down, handle_take_seat, unmanaged,
}
use dezhou.Server.Joining.{
  JoinRoomRequest, resume_gameplay, enter, reconnect_idx, rejoined_seat, rejoin, admit, welcome,
  join, is_seated, is_hand_over, handle_join_room,
}
use dezhou.Server.Sound.{
  IsSound, RoomIsSound, grown-IsSound, get_room-IsSound, put_room-IsSound, put_session-IsSound,
}
use dezhou.Server.Sound.Marks.{mark_gameplay-IsSound, update_room-IsSound}

pub send_all-IsSound :
    (replies : List (String × Reply)) (server : Server)
    → IsSound server
    → IsSound (send_all replies server)
send_all-IsSound replies server h = record { rooms = h.rooms; sessions = h.sessions }

replay_to_session-IsSound :
    (env : Env) (session : Session) (room : Room) (server : Server)
    → IsSound server
    → IsSound (replay_to_session env session room server)
unfolding replay_to_session look_up_seen
replay_to_session-IsSound env session room server h =
    let (looked, seen) = look_up_seen env session server in
    let looked-IsSound : IsSound looked =
      if-cases (λ (r : Server × Option ℕ). IsSound r.0) (str_eq session.gameplay_session_id "")
        (server, none) _ (λ e. h) (λ e. record { rooms = h.rooms; sessions = h.sessions }) in
    mark_gameplay-IsSound env session _ _
      (send_all-IsSound _ _ (put_session-IsSound looked-IsSound _))

bind_gameplay-IsSound :
    (env : Env) (session : Session) (room : Room) (i : ℕ) (seat : Seat) (server : Server)
    → IsSound server
    → IsSound (bind_gameplay env session room i seat server)
bind_gameplay-IsSound env session room i seat server h =
    if-cases IsSound (str_eq session.gameplay_session_id "") server _ (λ e. h)
      (λ e. record { rooms = h.rooms; sessions = h.sessions })

pub cancel_gameplay_takeover-IsSound :
    (env : Env) (room : Room) (i : ℕ) (server : Server)
    → IsSound server
    → IsSound (cancel_gameplay_takeover env room i server)
cancel_gameplay_takeover-IsSound env room i server h =
    if-cases IsSound (str_eq (seat_at room i).gameplay_session_id "") server _ (λ e. h)
      (λ e. record { rooms = h.rooms; sessions = h.sessions })

reclaim_seat-IsSound :
    (env : Env) (id : String) (session : Session) (room : Room) (i : ℕ) (server : Server)
    → IsSound server
    → RoomIsSound id room
    → IsSound (reclaim_seat env id session room i server)
unfolding reclaim_seat send_full_state_sync
reclaim_seat-IsSound env id session room i server h r =
    let held = set_seat room i (reclaimed_seat session (seat_at room i)) in
    let back = cancel_ai_takeover held i in
    let own = record session {
      gameplay_session_id = own_or session (seat_at room i).gameplay_session_id;
      seat_idx = some i;
    } in
    let to_back =
      grow_more (set_seat-Grows room i _) (set_seat-Grows held i (unmanaged (seat_at held i))) in
    let noted = put_session-IsSound (cancel_gameplay_takeover-IsSound env held i server h) own in
    let told = send_all-IsSound _ _ (
      send_all-IsSound _ _
        (bind_gameplay-IsSound env own back i (seat_at back i) _ (send_all-IsSound _ _ noted))) in
    replay_to_session-IsSound env _ _ _ (
      update_room-IsSound env id back _ _ told (grown-IsSound to_back r)
        (broadcast_game-Frames env back).grows)

leave_seats-Grows :
    (socket : String) (is : List ℕ) (room : Room) → Grows room (leave_seats socket is room)
unfolding leave_seats
leave_seats-Grows socket [] room = nothing room
leave_seats-Grows socket (i ∷ is) room =
    let seat = seat_at room i in
    grow_more
      (if-cases (Grows room) (is_player seat.type && str_eq seat.socket_id socket) _ _
        (λ e. set_seat-Grows room i no_seat) (λ e. nothing room))
      (leave_seats-Grows socket is _)

move_to_seat-Grows :
    (session : Session) (id token : String) (room : Room) (i : ℕ)
    → Grows room (move_to_seat session id token room i)
unfolding move_to_seat ensure_players_map
move_to_seat-Grows session id token room i =
    grow_more (leave_seats-Grows session.socket_id seat_indices room)
      (grow_more (set_seat-Grows _ i (new_seat session id token)) (still _ _ refl))

sit_down-IsSound :
    (env : Env) (t1 t2 id : String) (session : Session) (room : Room) (i : ℕ) (server : Server)
    → IsSound server
    → RoomIsSound id room
    → IsSound (sit_down env t1 t2 id session room i server)
unfolding sit_down
sit_down-IsSound env t1 t2 id session room i server h r =
    update_room-IsSound env id _ _ _
      (send_all-IsSound _ _ (
        put_session-IsSound {server = record server { gameplay_sessions = _ }}
          (record { rooms = h.rooms; sessions = h.sessions }) _))
      (grown-IsSound (move_to_seat-Grows session _ t2 room i) r) (broadcast_game-Frames env _).grows

pub handle_take_seat-IsSound :
    (env : Env) (t1 t2 : String) (session : Session) (seat_idx : Option ℕ) (token : String)
    (server : Server)
    → IsSound server
    → IsSound (handle_take_seat env t1 t2 session seat_idx token server)
unfolding handle_take_seat
handle_take_seat-IsSound env t1 t2 session seat_idx token server h =
    let refused = λ (reply : List (String × Reply)). send_all-IsSound reply server h in
    elim-cases IsSound (get_room server session.room_id) _ _ (λ e. refused _)
      λ room e.
        let r = get_room-IsSound h session.room_id room e in
        if-cases IsSound room.closing _ _ (λ e. refused _)
          λ e.
            elim-cases IsSound seat_idx _ _ (λ e. refused _)
              λ i e.
                let seat = seat_at room i in
                if-cases IsSound (not (ltb i k_seats)) _ _ (λ e. refused _)
                  λ e.
                    if-cases IsSound room.started _ _
                      (λ e.
                        if-cases IsSound (can_reclaim_started_seat seat session token) _ _
                          (λ e. reclaim_seat-IsSound env _ session room i server h r)
                          (λ e. refused _))
                      (λ e.
                        if-cases IsSound
                          (is_seat_occupied room i && not (str_eq seat.socket_id session.socket_id))
                          _ _ (λ e. refused _)
                          (λ e. sit_down-IsSound env t1 t2 _ session room i server h r))

enter-IsSound :
    (env : Env) (session : Session) (req : JoinRoomRequest) (server : Server)
    → IsSound server
    → IsSound (enter env session req server).1
unfolding enter resume_gameplay
enter-IsSound env session req server h =
    let resumed = resume_gameplay env _ req.room_id server in
    let resumed-IsSound : IsSound resumed.1 =
      if-cases (λ (r : Session × Server). IsSound r.1) (str_eq _ "") _ _ (λ e. h)
        (λ e. record { rooms = h.rooms; sessions = h.sessions }) in
    let put = put_session-IsSound resumed-IsSound resumed.0 in
    record { rooms = put.rooms; sessions = put.sessions }

welcome-IsSound :
    (env : Env) (session : Session) (room : Room) (server : Server)
    → IsSound server
    → RoomIsSound room.room_id room
    → IsSound (welcome env session room server)
unfolding welcome send_full_state_sync
welcome-IsSound env session room server h r =
    let back = room.started && not room.closing && is_seated session in
    let synced = send_all-IsSound _ _ (send_all-IsSound _ _ (send_all-IsSound _ _ h)) in
    let told = (broadcast_game-Frames env room).grows in
    let shown = update_room-IsSound env room.room_id room _ _ synced r told in
    let replayed = replay_to_session-IsSound env _ (broadcast_game env room) _ shown in
    if-cases IsSound (not back) _ _ (λ e. shown)
      λ e.
        if-cases IsSound (is_hand_over (broadcast_game env room).round) _ _ (λ e. replayed)
          λ e.
            update_room-IsSound env room.room_id _ _ _ replayed (grown-IsSound told r)
              (request_turn-Frames env _).grows

-- A room that stands under its id stands under its own.
pub own_room : {id : String} {room : Room} → RoomIsSound id room → RoomIsSound room.room_id room
own_room r = record {
  own_id = refl;
  ten_seats = r.ten_seats;
  history = r.history;
  logged = r.logged;
}

pub rejoin-Grows :
    (session : Session) (room : Room) (i : ℕ)
    → Grows room (cancel_ai_takeover (set_seat room i (rejoined_seat session (seat_at room i))) i)
rejoin-Grows session room i =
    let held = set_seat room i (rejoined_seat session (seat_at room i)) in
    grow_more (set_seat-Grows room i _) (set_seat-Grows held i (unmanaged (seat_at held i)))

join-IsSound :
    (env : Env) (session : Session) (req : JoinRoomRequest) (room : Room) (server : Server)
    → IsSound server
    → RoomIsSound req.room_id room
    → IsSound (join env session req room server)
unfolding join rejoin
join-IsSound env session req room server h r =
    let (own, entered) = enter env session req server in
    let entered-IsSound = enter-IsSound env session req server h in
    if-cases IsSound (not room.started) _ _
      (λ e.
        let admitted = grown-IsSound (still room (admit env own room) refl) r in
        welcome-IsSound env own (admit env own room) _
          (put_room-IsSound entered-IsSound req.room_id _ admitted) (own_room admitted))
      (λ e.
        elim-cases IsSound (reconnect_idx own req room) _ _
          (λ e. send_all-IsSound _ _ (put_room-IsSound entered-IsSound req.room_id room r))
          (λ i e.
            let held = set_seat room i (rejoined_seat own (seat_at room i)) in
            let back = cancel_ai_takeover held i in
            let (again, _, _) = rejoin env own room i entered in
            let bound = bind_gameplay-IsSound env again back i (seat_at back i) _ (
              put_session-IsSound (cancel_gameplay_takeover-IsSound env held i _ entered-IsSound)
                again) in
            let admitted =
              grown-IsSound
                (grow_more (rejoin-Grows own room i) (still back (admit env again back) refl)) r in
            welcome-IsSound env again (admit env again back) _
              (put_room-IsSound bound req.room_id _ admitted) (own_room admitted)))

pub handle_join_room-IsSound :
    (env : Env) (session : Session) (req : JoinRoomRequest) (server : Server)
    → IsSound server
    → IsSound (handle_join_room env session req server)
unfolding handle_join_room
handle_join_room-IsSound env session req server h =
    if-cases IsSound (not session.authenticated) _ _ (λ e. send_all-IsSound _ _ h)
      λ e.
        if-cases IsSound (str_eq req.room_id "") _ _ (λ e. h)
          λ e.
            elim-cases IsSound (get_room server req.room_id) _ _ (λ e. send_all-IsSound _ _ h)
              λ room e.
                let active =
                  grown-IsSound (still room (record room { last_active_at = env.now_ms }) refl)
                    (get_room-IsSound h req.room_id room e) in
                if-cases IsSound room.closing _ _
                  (λ e. send_all-IsSound _ _ (put_room-IsSound h req.room_id _ active))
                  (λ e. join-IsSound env session req _ server h active)
