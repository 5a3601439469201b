-- ===== src/Server/Seating/Seated.antt =====
-- Who sits where after a session has asked for a seat.
use Prim.Native.String.{String}
use text.Mathlib.Text.{◌==◌ as str_eq}
use dezhou.Prelude.{
  ℕ, ◌<◌, ◌≡◌, ◌≢◌, refl, sym, ap, ◌∙◌, ◌⊎◌, inl, inr, Bool, true, false, ◌&&◌, not, ltb, ltb→lt,
  ◌==◌, any_of, length, length-set, get_or, get_or-set_self, get_or-set_ne, Option, none, some,
  Bool-cases, if-cases, elim-cases, of_not, if◌then◌else◌, arith,
}
use dezhou.Prelude.Names.{find_name, str_eq_refl}
use dezhou.Table.State.{Room, Env, Seat, seat_at, seat_indices, no_seat, k_seats}
use dezhou.Table.Events.{broadcast_game}
use dezhou.Table.Seats.{is_seat_occupied, ensure_players_map}
use dezhou.Table.Action.{is_player}
use dezhou.Table.Frame.{broadcast_game-Frames}
use dezhou.Table.Serving.{Session}
use dezhou.Server.State.{Server, get_room}
use dezhou.Server.Marks.Rooms.{update_room-found}
use dezhou.Server.Sync.{replay_to_session, look_up_seen}
use dezhou.Server.Seating.{
  can_reclaim_started_seat, set_seat, cancel_ai_takeover, unmanaged, reclaimed_seat, reclaim_seat,
  leave_seats, new_seat, move_to_seat, own_or, sit_down, handle_take_seat,
}
use dezhou.Server.Seating.Left.{is_held, vacated, leave_seats-vacated}
use dezhou.Server.Sound.{IsSound, get_room-IsSound}

-- Whether the session may have the seat: in a match its own again, before it a free one.
abbrev pub may_sit : Session → String → Room → ℕ → Bool
may_sit session token room i =
    let seat = seat_at room i in
    if room.started
    then can_reclaim_started_seat seat session token
    else not (is_seat_occupied room i && not (str_eq seat.socket_id session.socket_id))

-- The session holds the seat `i`, to which it is entitled. Before a match it has left every other
-- seat; nobody else's seat has changed.
pub record Takes (session : Session) (token : String) (i : ℕ) (room after : Room) : Type 0 where
  pub in_range : i < k_seats
  pub entitled : may_sit session token room i ≡ true
  pub held : is_held session.socket_id (seat_at after i) ≡ true
  pub others :
      (j : ℕ)
      → j < k_seats
      → (i == j) ≡ false
      → seat_at after j
        ≡ (if room.started then seat_at room j else vacated session.socket_id (seat_at room j))

-- The request changes no room, or the session takes the seat that it asked for.
abbrev pub Outcome : Session → Option ℕ → String → Server → Server → Type 0
Outcome session seat_idx token server after =
    (after.rooms ≡ server.rooms)
    ⊎ ((i : ℕ) × (room : Room) × (taken : Room) × (seat_idx ≡ some i)
        × (get_room server session.room_id ≡ some room)
        × (get_room after session.room_id ≡ some taken)
        × Takes session token i room taken)

replay_to_session-rooms :
    (env : Env) (session : Session) (room : Room) (server : Server)
    → (replay_to_session env session room server).rooms ≡ server.rooms
unfolding replay_to_session look_up_seen
replay_to_session-rooms env session room server =
    let P = λ (s : Server). s.rooms ≡ server.rooms in
    let looked : P (look_up_seen env session server).0 =
      if-cases (λ (l : Server × Option ℕ). P l.0) (str_eq session.gameplay_session_id "")
        (server, none) _ (λ e. refl) (λ e. refl) in
    if-cases P (str_eq session.gameplay_session_id "") _ _ (λ e. looked) (λ e. looked)

reclaim_seat-found :
    (env : Env) (id : String) (session : Session) (room : Room) (i : ℕ) (server : Server)
    → get_room (reclaim_seat env id session room i server) id
      ≡ some (
          broadcast_game env
            (cancel_ai_takeover (set_seat room i (reclaimed_seat session (seat_at room i))) i))
unfolding reclaim_seat
reclaim_seat-found env id session room i server =
    ap (find_name id) (replay_to_session-rooms env _ _ _) ∙ update_room-found env id _ _ _

differs : (i j : ℕ) → (i == j) ≡ false → i ≢ j
differs i j ne e = absurd (ground (arith, e, ne))

can_reclaim-player :
    (seat : Seat) (session : Session) (token : String)
    → can_reclaim_started_seat seat session token ≡ true
    → is_player seat.type ≡ true
unfolding can_reclaim_started_seat
can_reclaim-player seat session token h = elim (Bool-cases (is_player seat.type)) [
  | inl e ↦ e
  | inr e ↦ absurd (ground (arith, rw e at h))
]

reclaimed-Takes :
    (env : Env) (session : Session) (token : String) (room : Room) (i : ℕ)
    → i < k_seats
    → length room.seats ≡ k_seats
    → room.started ≡ true
    → can_reclaim_started_seat (seat_at room i) session token ≡ true
    → Takes session token i room (
        broadcast_game env
          (cancel_ai_takeover (set_seat room i (reclaimed_seat session (seat_at room i))) i))
reclaimed-Takes env session token room i lt ten on can =
    let held = set_seat room i (reclaimed_seat session (seat_at room i)) in
    let back = cancel_ai_takeover held i in
    let shown = ap (λ s. s.seats) (broadcast_game-Frames env back).same_scene in
    let first : seat_at held i ≡ reclaimed_seat session (seat_at room i) =
      get_or-set_self room.seats i _ no_seat (omega (arith, lt, ten)) in
    let second : seat_at back i ≡ unmanaged (seat_at held i) =
      get_or-set_self held.seats i _ no_seat (
        omega
          (arith, lt, ten, length-set room.seats i (reclaimed_seat session (seat_at room i)))) in
    record {
      in_range = lt;
      entitled =
          ap
            (λ b.
              if b
              then can_reclaim_started_seat (seat_at room i) session token
              else not (
                  is_seat_occupied room i
                  && not (str_eq (seat_at room i).socket_id session.socket_id)))
            on
          ∙ can;
      held =
          ap (λ xs. is_held session.socket_id (get_or xs i no_seat)) shown
          ∙ ap (is_held session.socket_id) (second ∙ ap unmanaged first)
          ∙ ap (λ b. b && str_eq session.socket_id session.socket_id)
              (can_reclaim-player (seat_at room i) session token can)
          ∙ str_eq_refl session.socket_id;
      others = λ j ltj ne.
          ap (λ xs. get_or xs j no_seat) shown
          ∙ get_or-set_ne held.seats i j _ no_seat (differs i j ne)
          ∙ get_or-set_ne room.seats i j _ no_seat (differs i j ne)
          ∙ sym (
              ap (λ b. if b then seat_at room j else vacated session.socket_id (seat_at room j))
                on);
    }

moved-Takes :
    (env : Env) (session : Session) (token id reconnect_token : String) (room : Room) (i : ℕ)
    → i < k_seats
    → length room.seats ≡ k_seats
    → room.started ≡ false
    → (is_seat_occupied room i && not (str_eq (seat_at room i).socket_id session.socket_id)) ≡ false
    → Takes session token i room
        (broadcast_game env (move_to_seat session id reconnect_token room i))
unfolding move_to_seat ensure_players_map
moved-Takes env session token id reconnect_token room i lt ten off free =
    let seat = new_seat session id reconnect_token in
    let left = leave_seats session.socket_id seat_indices room in
    let moved = move_to_seat session id reconnect_token room i in
    let shown = ap (λ s. s.seats) (broadcast_game-Frames env moved).same_scene in
    let listed : (j : ℕ) → j < k_seats → any_of (λ i. i == j) seat_indices ≡ true =
      λ j h. ground arith in
    let vacated_at = λ (j : ℕ) (h : j < k_seats).
      leave_seats-vacated session.socket_id seat_indices j room (omega (arith, h, ten))
        (inr (listed j h)) in
    record {
      in_range = lt;
      entitled =
          ap
            (λ b.
              if b
              then can_reclaim_started_seat (seat_at room i) session token
              else not (
                  is_seat_occupied room i
                  && not (str_eq (seat_at room i).socket_id session.socket_id)))
            off
          ∙ ap not free;
      held =
          ap (λ xs. is_held session.socket_id (get_or xs i no_seat)) shown
          ∙ ap (is_held session.socket_id) (
              get_or-set_self left.seats i seat no_seat
                (omega (arith, lt, ten, (vacated_at i lt).1)))
          ∙ str_eq_refl session.socket_id;
      others = λ j ltj ne.
          ap (λ xs. get_or xs j no_seat) shown
          ∙ get_or-set_ne left.seats i j seat no_seat (differs i j ne)
          ∙ (vacated_at j ltj).0
          ∙ sym (
              ap (λ b. if b then seat_at room j else vacated session.socket_id (seat_at room j))
                off);
    }

-- A request for a seat changes no room, or the session holds the seat that it asked for and was
-- entitled to: in a match its own seat, before one a seat that nobody else had. It then has left
-- every other seat if no match is on, and the seats of others are as they were.
pub handle_take_seat-Outcome :
    (env : Env) (t1 t2 : String) (session : Session) (seat_idx : Option ℕ) (token : String)
    (server : Server)
    → IsSound server
    → Outcome session seat_idx token server
        (handle_take_seat env t1 t2 session seat_idx token server)
unfolding handle_take_seat sit_down
handle_take_seat-Outcome env t1 t2 session seat_idx token server h =
    let id = session.room_id in
    let P = Outcome session seat_idx token server in
    elim-cases P (get_room server id) _ _ (λ e. inl refl)
      λ room found.
        let ten = (get_room-IsSound h id room found).ten_seats in
        if-cases P room.closing _ _ (λ e. inl refl)
          λ e.
            elim-cases P seat_idx _ _ (λ e. inl refl)
              λ i asked.
                let seat = seat_at room i in
                if-cases P (not (ltb i k_seats)) _ _ (λ e. inl refl)
                  λ near.
                    let lt = ltb→lt i k_seats (of_not near) in
                    if-cases P room.started _ _
                      (λ on.
                        if-cases P (can_reclaim_started_seat seat session token) _ _
                          (λ can. inr (
                            i,
                            room,
                            _,
                            asked,
                            found,
                            reclaim_seat-found env id session room i server,
                            reclaimed-Takes env session token room i lt ten on can,
                          ))
                          (λ e. inl refl))
                      (λ off.
                        if-cases P
                          (is_seat_occupied room i && not (str_eq seat.socket_id session.socket_id))
                          _ _ (λ e. inl refl)
                          (λ free. inr (
                            i,
                            room,
                            _,
                            asked,
                            found,
                            update_room-found env id _ _ _,
                            moved-Takes env session token (own_or session t1) t2 room i lt ten off
                                free,
                          )))
