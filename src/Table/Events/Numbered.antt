-- ===== src/Table/Events/Numbered.antt =====
-- The event log is numbered without gaps and bounded.
use dezhou.Prelude.{
  ℕ, zero, suc, ◌+◌, ◌-◌, ◌≤◌, ◌≡◌, List, [], ◌∷◌, ◌++◌, Option, length, length-append, arith,
}
use dezhou.Table.State.{Room, Env, RoomEventEntry, Message, Notice}
use dezhou.Table.Events.{
  drop_front, keep_last, append_room_event, emit_room_event, broadcast_activity,
  k_room_event_log_limit, activity_log_limit,
}

-- The entries carry consecutive numbers that end at `last`.
abbrev pub IsNumbered : ℕ → List RoomEventEntry → Type 0
IsNumbered last [] = Unit {0}
IsNumbered last (e ∷ es) = (e.seq + length es ≡ last) × IsNumbered last es

-- A log that ends at the room's counter and is within its limit.
pub record IsLogged (room : Room) : Type 0 where
  pub numbered : IsNumbered room.event_seq room.event_log
  pub bounded : length room.event_log ≤ k_room_event_log_limit

pub append-IsNumbered :
    (last : ℕ) (es : List RoomEventEntry) (e : RoomEventEntry)
    → IsNumbered last es
    → e.seq ≡ last + 1
    → IsNumbered (last + 1) (es ++ e ∷ [])
append-IsNumbered last [] e h s = (omega (arith, s), tt)
append-IsNumbered last (f ∷ es) e h s =
    (omega (arith, h.0, length-append es (e ∷ [])), append-IsNumbered last es e h.1 s)

pub drop_front-IsNumbered :
    (last n : ℕ) (es : List RoomEventEntry) → IsNumbered last es → IsNumbered last (drop_front n es)
unfolding drop_front
drop_front-IsNumbered last zero es h = h
drop_front-IsNumbered last (suc n) [] h = h
drop_front-IsNumbered last (suc n) (e ∷ es) h = drop_front-IsNumbered last n es h.1

pub length-drop_front {ℓ} :
    {A : Type ℓ} (n : ℕ) (xs : List A) → length (drop_front n xs) ≡ length xs - n
unfolding drop_front
length-drop_front zero xs = omega arith
length-drop_front (suc n) [] = omega arith
length-drop_front (suc n) (x ∷ xs) = omega (arith, length-drop_front n xs)

-- An event that is appended to a sound log gets the next number, and the log stays sound: its
-- numbers have no gap and end at the room's counter, and it holds at most 600 events.
pub append_room_event-IsLogged :
    (env : Env) (room : Room) (message : Message) (seat_idx : Option ℕ)
    → IsLogged room
    → IsLogged (append_room_event env room message seat_idx)
      × ((append_room_event env room message seat_idx).event_seq ≡ room.event_seq + 1)
unfolding append_room_event keep_last
append_room_event-IsLogged env room message seat_idx h =
    let entry : RoomEventEntry = record {
      seq = room.event_seq + 1;
      message = message;
      seat_idx = seat_idx;
      created_at = env.now_ms;
    } in
    let longer = room.event_log ++ entry ∷ [] in
    let n = length longer - k_room_event_log_limit in
    (
      record {
        numbered =
            drop_front-IsNumbered (room.event_seq + 1) n longer
              (append-IsNumbered room.event_seq room.event_log entry h.numbered (omega arith));
        bounded = omega (arith, length-drop_front n longer);
      },
      omega arith,
    )

-- The activity log never holds more than 250 lines after a line is added, however long it was.
pub length-broadcast_activity :
    (env : Env) (room : Room) (notice : Notice)
    → length (broadcast_activity env room notice).activity_log ≤ activity_log_limit
unfolding broadcast_activity emit_room_event append_room_event keep_last
length-broadcast_activity env room notice =
    let longer = room.activity_log ++ notice ∷ [] in
    omega (arith, length-drop_front (length longer - activity_log_limit) longer)
