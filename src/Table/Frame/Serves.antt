-- ===== src/Table/Frame/Serves.antt =====
-- What a handler may do to its room.
use dezhou.Prelude.{ℕ, refl, ap, List, none, some, length-set, set}
use dezhou.Table.State.{Room, Seat, PlayerState, no_seat}
use dezhou.Table.Serving.{Served}
use dezhou.Table.Frame.{Grows, still, grow_more}

-- What a handler leaves of its room.
abbrev pub Serves : Room → Served → Type 0
Serves room served = elim served.room [ none ↦ Unit {0} | some after ↦ Grows room after ]

-- A change of one seat.
pub set_seat-Grows :
    (room : Room) (i : ℕ) (seat : Seat) → Grows room (record room { seats = set room.seats i seat })
set_seat-Grows room i seat =
    still room (record room { seats = set room.seats i seat })
      (ap
        (λ n. record {
          room_id = room.room_id;
          seats_count = n;
          event_seq = room.event_seq;
          event_log = room.event_log;
        })
        (length-set room.seats i seat))

pub free_seat-Grows :
    (room : Room) (i : ℕ) (m : List (ℕ × PlayerState))
    → Grows room (record room { seats = set room.seats i no_seat; players = m })
free_seat-Grows room i m = grow_more (set_seat-Grows room i no_seat) (still _ _ refl)

pub nothing : (room : Room) → Grows room room
nothing room = still room room refl
