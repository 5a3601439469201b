-- ===== src/Server/Leaving/Gone.antt =====
-- What a removed session leaves of its socket: nothing in the room that the session names, and the
-- other rooms as they are, also those that the socket joined before.
use Prim.Native.String.{String}
use text.Mathlib.Text.{◌==◌ as str_eq}
use text.Mathlib.TextEquality.{eq_iff}
use dezhou.Prelude.{
  ℕ, ◌<◌, ◌≡◌, refl, sym, ap, ◌∙◌, subst, inl, inr, Bool, true, false, ◌&&◌, ◌||◌, not, ◌==◌, List,
  [], ◌∷◌, keep, any_of, is_empty, Option, none, some, length, get_or, Bool-cases, if-cases,
  elim-cases, arith,
}
use dezhou.Prelude.Names.{find_name, find_name-erase_name_self}
use dezhou.Table.State.{Room, Env, Seat, seat_at, seat_indices, no_seat, k_seats}
use dezhou.Table.Events.{broadcast_game}
use dezhou.Table.Seats.{is_online, holds}
use dezhou.Table.Action.{is_player}
use dezhou.Table.Lobby.{is_occupied}
use dezhou.Table.Serving.{Session}
use dezhou.Table.Requests.{has_name}
use dezhou.Table.Frame.{broadcast_game-Frames}
use dezhou.Server.State.{Server, get_room}
use dezhou.Server.Voice.{takes_part}
use dezhou.Server.Marks.Rooms.{update_room-found}
use dezhou.Server.Leaving.Released.{release_seats-AllReleased, and_false}
use dezhou.Server.Sound.{IsSound, get_room-IsSound}
use dezhou.Server.Leaving.Others.{handle_disconnect-others}
use dezhou.Server.Leaving.{
  erase_member, away, is_held_by, release_seats, online_socket, hand_over_host, vacate, leave_room,
  forget_ack, is_last_ack, handle_disconnect, without_client, erase_session, drop_session,
  remove_session,
}

-- The room knows nothing of the socket any more.
pub record IsGone (socket : String) (room : Room) : Type 0 where
  pub no_seat_held : (i : ℕ) → i < k_seats → is_held_by socket (seat_at room i) ≡ false
  pub no_member : has_name room.socket_ids socket ≡ false
  pub no_host : str_eq room.host_socket_id socket ≡ false
  pub no_voice : takes_part room socket ≡ false

online_differs :
    (env : Env) (socket : String) (seats : List Seat)
    → is_online env socket ≡ false
    → str_eq "" socket ≡ false
    → str_eq (online_socket env seats) socket ≡ false
unfolding online_socket
online_differs env socket [] off named = named
online_differs env socket (seat ∷ seats) off named =
    if-cases (λ s. str_eq s socket ≡ false) (is_player seat.type && is_online env seat.socket_id) _
      _
      (λ on. elim (Bool-cases (str_eq seat.socket_id socket)) [
        | inl e ↦
            let same : is_online env seat.socket_id ≡ false =
              ap (is_online env) ((eq_iff seat.socket_id socket).0 e) ∙ off in
            absurd (ground (arith, same, on))
        | inr e ↦ e
      ])
      (λ off_line. online_differs env socket seats off named)

all_listed : (j : ℕ) → j < k_seats → any_of (λ i. i == j) seat_indices ≡ true
all_listed j h = ground arith

-- Where the room is still there, the socket is gone from it.
abbrev pub GoneFrom : String → Option Room → Type 0
GoneFrom socket none = Unit {0}
GoneFrom socket (some room) = IsGone socket room

module _ (env : Env) (session : Session) (named : str_eq "" session.socket_id ≡ false)
    (off : is_online env session.socket_id ≡ false) where
  host_gone :
      (room : Room)
      → str_eq (hand_over_host env session.socket_id room).host_socket_id session.socket_id ≡ false
  host_gone room =
      if-cases (λ (r : Room). str_eq r.host_socket_id session.socket_id ≡ false)
        (str_eq room.host_socket_id session.socket_id) _ _
        (λ e. online_differs env session.socket_id room.seats off named) (λ e. e)

  -- Handing over the host and showing the room changes neither seats nor members.
  shown-IsGone :
      (released : Room)
      → ((j : ℕ) → j < k_seats → is_held_by session.socket_id (seat_at released j) ≡ false)
      → has_name released.socket_ids session.socket_id ≡ false
      → takes_part released session.socket_id ≡ false
      → IsGone session.socket_id
          (broadcast_game env (hand_over_host env session.socket_id released))
  shown-IsGone released free away silent =
      let left = hand_over_host env session.socket_id released in
      let same = (broadcast_game-Frames env left).same_scene in
      let kept : (seat_list : left.seats ≡ released.seats) × (left.socket_ids ≡ released.socket_ids)
          × (left.voice_participants ≡ released.voice_participants) =
        if-cases
          (λ (r : Room).
            (r.seats ≡ released.seats)
            × (r.socket_ids ≡ released.socket_ids)
            × (r.voice_participants ≡ released.voice_participants))
          (str_eq released.host_socket_id session.socket_id) _ _ (λ e. (refl, refl, refl))
          (λ e. (refl, refl, refl)) in
      record {
        no_seat_held = λ i lt.
            ap (λ xs. is_held_by session.socket_id (get_or xs i no_seat))
              (ap (λ s. s.seats) same ∙ kept.0)
            ∙ free i lt;
        no_member =
            ap (λ xs. has_name xs session.socket_id) (ap (λ s. s.socket_ids) same ∙ kept.1) ∙ away;
        no_host = ap (λ s. str_eq s.host_socket_id session.socket_id) same ∙ host_gone released;
        no_voice =
            ap (λ ps. elim (find_name session.socket_id ps) [ none ↦ false | some p ↦ true ])
              (ap (λ s. s.voice_participants) same ∙ kept.2)
            ∙ silent;
      }

  vacate-GoneFrom :
      (id : String) (room : Room) (server : Server)
      → length room.seats ≡ k_seats
      → has_name room.socket_ids session.socket_id ≡ false
      → takes_part room session.socket_id ≡ false
      → GoneFrom session.socket_id (get_room (vacate env id session room server) id)
  unfolding vacate
  vacate-GoneFrom id room server ten away silent =
      let (released, noted) = release_seats env session seat_indices (room, server) in
      let all = release_seats-AllReleased env session named seat_indices room server ten in
      let left = hand_over_host env session.socket_id released in
      let P = λ (s : Server). GoneFrom session.socket_id (get_room s id) in
      if-cases P (is_empty (keep (is_occupied left) seat_indices)) _ _
        (λ e.
          subst (GoneFrom session.socket_id) (sym (find_name-erase_name_self id noted.rooms)) tt)
        (λ e. subst (GoneFrom session.socket_id) (sym (update_room-found env id left _ _)) (
          shown-IsGone released (λ j lt. all.not_held j lt (inr (all_listed j lt)))
            (ap (λ xs. has_name xs session.socket_id) all.members ∙ away)
            (ap (λ ps. elim (find_name session.socket_id ps) [ none ↦ false | some p ↦ true ])
                all.voice
              ∙ silent)))

differs_back : (s t : String) → str_eq s t ≡ false → str_eq t s ≡ false
differs_back s t h = elim (Bool-cases (str_eq t s)) [
  | inl e ↦
      let same : str_eq s t ≡ true = (eq_iff s t).1 (sym ((eq_iff t s).0 e)) in
      absurd (ground (arith, same, h))
  | inr e ↦ e
]

not_named : (socket : String) (xs : List String) → has_name (erase_member socket xs) socket ≡ false
not_named socket [] = refl
not_named socket (x ∷ xs) =
    if-cases (λ ys. has_name ys socket ≡ false) (not (str_eq x socket)) _ _
      (λ e.
        ap (λ b. b || has_name (erase_member socket xs) socket)
          (differs_back x socket (ground (arith, e)))
        ∙ not_named socket xs)
      (λ e. not_named socket xs)

false_of_not : {b : Bool} → not b ≡ true → b ≡ false
false_of_not {b = true} h = sym h
false_of_not {b = false} h = refl

not_held_in : (socket : String) (xs : List String) → holds (erase_member socket xs) socket ≡ false
unfolding holds
not_held_in socket [] = refl
not_held_in socket (x ∷ xs) =
    if-cases (λ ys. holds ys socket ≡ false) (not (str_eq x socket)) _ _
      (λ e.
        ap (λ b. b || holds (erase_member socket xs) socket) (false_of_not e)
        ∙ not_held_in socket xs)
      (λ e. not_held_in socket xs)

off_line : (env : Env) (socket : String) → is_online (without_client env socket) socket ≡ false
unfolding is_online
off_line env socket =
    ap (λ b. not (str_eq socket "") && b) (not_held_in socket env.active_gateway_clients)
    ∙ and_false (not (str_eq socket ""))

handle_disconnect-GoneFrom :
    (env : Env) (session : Session) (server : Server)
    → str_eq "" session.socket_id ≡ false
    → is_online env session.socket_id ≡ false
    → IsSound server
    → GoneFrom session.socket_id (get_room (handle_disconnect env session server) session.room_id)
unfolding handle_disconnect
handle_disconnect-GoneFrom env session server named off h =
    let socket = session.socket_id in
    let id = session.room_id in
    let P = λ (s : Server). GoneFrom socket (get_room s id) in
    elim-cases P (get_room server id) server _ (λ e. subst (GoneFrom socket) (sym e) tt)
      λ room found.
        let left = forget_ack socket (leave_room env socket room) in
        let Q = λ (r : Room). (length r.seats ≡ k_seats) × (has_name r.socket_ids socket ≡ false) in
        let stays : Q (leave_room env socket room) =
          ((get_room-IsSound h id room found).ten_seats, not_named socket room.socket_ids) in
        let kept : Q left =
          if-cases Q (room.closing && has_name room.expected_acks socket) _ _ (λ e. stays)
            (λ e. stays) in
        if-cases P (is_last_ack socket room) _ _
          (λ e. subst (GoneFrom socket) (sym (find_name-erase_name_self id server.rooms)) tt)
          (λ e.
            if-cases P (takes_part left socket) _ _
              (λ e. vacate-GoneFrom env session named off id _ _ kept.0 kept.1 (
                ap (λ o. elim o [ none ↦ false | some p ↦ true ])
                  (find_name-erase_name_self socket left.voice_participants)))
              (λ e. vacate-GoneFrom env session named off id left server kept.0 kept.1 e))

-- When a named socket with a session is removed from a sound server, its session is gone, and if
-- the room that the session names is still there, no seat, membership, voice or host of this room
-- is the socket's. Every other room is as it was, also one that the socket had joined before.
pub remove_session-GoneFrom :
    (env : Env) (session : Session) (server : Server)
    → IsSound server
    → str_eq "" session.socket_id ≡ false
    → find_name session.socket_id server.sessions ≡ some session
    → (find_name session.socket_id (remove_session env session.socket_id server).sessions ≡ none)
      × GoneFrom session.socket_id
          (get_room (remove_session env session.socket_id server) session.room_id)
      × ((other : String)
          → str_eq other session.room_id ≡ false
          → get_room (remove_session env session.socket_id server) other ≡ get_room server other)
unfolding remove_session drop_session
remove_session-GoneFrom env session server h named present =
    let socket = session.socket_id in
    let gone = without_client env socket in
    let P = λ (s : Server).
      (find_name socket s.sessions ≡ none)
      × GoneFrom socket (get_room s session.room_id)
      × ((other : String)
          → str_eq other session.room_id ≡ false
          → get_room s other ≡ get_room server other) in
    let after = handle_disconnect gone session server in
    if-cases P (str_eq socket "") _ _
      (λ e. absurd (ground (arith, differs_back "" socket named, e)))
      (λ e.
        subst
          (λ o. P (elim o [
            | none ↦ server
            | some s ↦ erase_session socket (handle_disconnect gone s server)
          ]))
          (sym present)
          (
            find_name-erase_name_self socket after.sessions,
            handle_disconnect-GoneFrom gone session server named (off_line env socket) h,
            handle_disconnect-others gone session server,
          ))
