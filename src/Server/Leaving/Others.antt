-- ===== src/Server/Leaving/Others.antt =====
-- A removed session leaves every other room as it is.
use Prim.Native.String.{String}
use text.Mathlib.Text.{◌==◌ as str_eq}
use dezhou.Prelude.{
  ℕ, ◌≡◌, refl, ap, ◌∙◌, false, List, [], ◌∷◌, keep, is_empty, if-cases, elim-cases,
}
use dezhou.Prelude.Names.{find_name, find_name-put_name_ne, find_name-erase_name_ne}
use dezhou.Table.State.{Room, Env, seat_at, seat_indices}
use dezhou.Table.Events.{broadcast_game}
use dezhou.Table.Lobby.{is_occupied}
use dezhou.Table.Serving.{Session}
use dezhou.Server.State.{Server, get_room}
use dezhou.Server.Marks.Rooms.{catch_up-rooms}
use dezhou.Server.Voice.{takes_part}
use dezhou.Server.Leaving.{
  is_held_by, note_departure, release_seat, release_seats, hand_over_host, vacate, leave_room,
  forget_ack, is_last_ack, handle_disconnect,
}

note_departure-rooms :
    (env : Env) (session : Session) (room : Room) (i : ℕ) (server : Server)
    → (note_departure env session room i server).rooms ≡ server.rooms
note_departure-rooms env session room i server =
    if-cases (λ (s : Server). s.rooms ≡ server.rooms)
      (str_eq (seat_at room i).gameplay_session_id "") _ _ (λ e. refl) (λ e. refl)

release_seat-rooms :
    (env : Env) (session : Session) (i : ℕ) (room : Room) (server : Server)
    → (release_seat env session i (room, server)).1.rooms ≡ server.rooms
unfolding release_seat
release_seat-rooms env session i room server =
    let P = λ (st : Room × Server). st.1.rooms ≡ server.rooms in
    let noted = note_departure-rooms env session room i server in
    if-cases P room.started _ _ (λ e. catch_up-rooms env _ _ _ ∙ noted)
      (λ e.
        if-cases (λ (s : Server). s.rooms ≡ server.rooms)
          (str_eq (seat_at room i).gameplay_session_id "") _ _ (λ e. noted) (λ e. noted))

release_seats-rooms :
    (env : Env) (session : Session) (is : List ℕ) (room : Room) (server : Server)
    → (release_seats env session is (room, server)).1.rooms ≡ server.rooms
unfolding release_seats
release_seats-rooms env session [] room server = refl
release_seats-rooms env session (i ∷ is) room server =
    if-cases (λ (st : Room × Server). (release_seats env session is st).1.rooms ≡ server.rooms)
      (is_held_by session.socket_id (seat_at room i)) _ _
      (λ e.
        let (next, noted) = release_seat env session i (room, server) in
        release_seats-rooms env session is next noted
        ∙ release_seat-rooms env session i room server)
      (λ e. release_seats-rooms env session is room server)

module _ (env : Env) (session : Session) (id other : String)
    (differs : str_eq other id ≡ false) where
  vacate-others :
      (room : Room) (server : Server)
      → get_room (vacate env id session room server) other ≡ get_room server other
  unfolding vacate
  vacate-others room server =
      let (released, noted) = release_seats env session seat_indices (room, server) in
      let left = hand_over_host env session.socket_id released in
      let same = ap (find_name other) (release_seats-rooms env session seat_indices room server) in
      if-cases (λ (s : Server). get_room s other ≡ get_room server other)
        (is_empty (keep (is_occupied left) seat_indices)) _ _
        (λ e. find_name-erase_name_ne other id noted.rooms differs ∙ same)
        (λ e.
          ap (find_name other) (catch_up-rooms env left (broadcast_game env left) _)
          ∙ find_name-put_name_ne other id (broadcast_game env left) noted.rooms differs
          ∙ same)

pub handle_disconnect-others :
    (env : Env) (session : Session) (server : Server) (other : String)
    → str_eq other session.room_id ≡ false
    → get_room (handle_disconnect env session server) other ≡ get_room server other
unfolding handle_disconnect
handle_disconnect-others env session server other differs =
    let id = session.room_id in
    let P = λ (s : Server). get_room s other ≡ get_room server other in
    elim-cases P (get_room server id) server _ (λ e. refl)
      λ room found.
        let left = forget_ack session.socket_id (leave_room env session.socket_id room) in
        if-cases P (is_last_ack session.socket_id room) _ _
          (λ e. find_name-erase_name_ne other id server.rooms differs)
          (λ e.
            if-cases P (takes_part left session.socket_id) _ _
              (λ e.
                vacate-others env session id other differs _ _
                ∙ find_name-put_name_ne other id _ server.rooms differs)
              (λ e. vacate-others env session id other differs left server))
