-- ===== src/Server/Seating/Left.antt =====
-- The seats that a session leaves when it takes another.
use Prim.Native.String.{String}
use text.Mathlib.Text.{◌==◌ as str_eq}
use dezhou.Prelude.{
  ℕ, ◌<◌, ◌≡◌, refl, sym, ap, ◌∙◌, subst, ◌⊎◌, inl, inr, Bool, true, false, ◌&&◌, ◌==◌, List, [],
  ◌∷◌, any_of, length, length-set, set, get_or, get_or-set_self, get_or-set_ne, Bool-cases,
  if-cases, if◌then◌else◌, arith,
}
use dezhou.Table.State.{Room, Seat, seat_at, no_seat}
use dezhou.Table.Action.{is_player}
use dezhou.Server.Seating.{set_seat, leave_seats}

abbrev pub is_held : String → Seat → Bool
is_held socket seat = is_player seat.type && str_eq seat.socket_id socket

-- A seat once the socket has left what it held.
abbrev pub vacated : String → Seat → Seat
vacated socket seat = if is_held socket seat then no_seat else seat

vacated_free :
    (socket : String) (seat : Seat) → is_held socket seat ≡ false → vacated socket seat ≡ seat
vacated_free socket seat h = ap (λ b. if b then no_seat else seat) h

vacated_held :
    (socket : String) (seat : Seat) → is_held socket seat ≡ true → vacated socket seat ≡ no_seat
vacated_held socket seat h = ap (λ b. if b then no_seat else seat) h

-- What leaving the seat `i` does to the seat `j`.
record Leaves (socket : String) (i j : ℕ) (room after : Room) : Type 0 where
  pub same : vacated socket (seat_at after j) ≡ vacated socket (seat_at room j)
  pub left :
      (is_held socket (seat_at after j) ≡ false)
      ⊎ (((i == j) ≡ false) × (is_held socket (seat_at after j) ≡ is_held socket (seat_at room j)))
  pub size : length after.seats ≡ length room.seats

leave_one :
    (socket : String) (i j : ℕ) (room : Room)
    → j < length room.seats
    → Leaves socket i j room
        (if is_held socket (seat_at room i) then set_seat room i no_seat else room)
leave_one socket i j room lt =
    if-cases (Leaves socket i j room) (is_held socket (seat_at room i)) _ _
      (λ held. elim (Bool-cases (i == j)) [
        | inl e ↦
            let at : i ≡ j = ground (arith, e) in
            let freed : seat_at (set_seat room i no_seat) j ≡ no_seat =
              ap (λ k. get_or (set room.seats k no_seat) j no_seat) at
              ∙ get_or-set_self room.seats j no_seat no_seat lt in
            record {
              same =
                  ap (vacated socket) freed
                  ∙ sym (
                      vacated_held socket (seat_at room j)
                        (subst (λ k. is_held socket (seat_at room k) ≡ true) at held));
              left = inl (ap (is_held socket) freed);
              size = length-set room.seats i no_seat;
            }
        | inr ne ↦
            let kept : seat_at (set_seat room i no_seat) j ≡ seat_at room j =
              get_or-set_ne room.seats i j no_seat no_seat (λ e. absurd (ground (arith, e, ne))) in
            record {
              same = ap (vacated socket) kept;
              left = inr (ne, ap (is_held socket) kept);
              size = length-set room.seats i no_seat;
            }
      ])
      (λ free. record {
        same = refl;
        left = elim (Bool-cases (i == j)) [
          | inl e ↦
              inl (subst (λ k. is_held socket (seat_at room k) ≡ false) (ground (arith, e)) free)
          | inr ne ↦ inr (ne, refl)
        ];
        size = refl;
      })

pub leave_seats-vacated :
    (socket : String) (is : List ℕ) (j : ℕ) (room : Room)
    → j < length room.seats
    → (is_held socket (seat_at room j) ≡ false) ⊎ (any_of (λ i. i == j) is ≡ true)
    → (seat_at (leave_seats socket is room) j ≡ vacated socket (seat_at room j))
      × (length (leave_seats socket is room).seats ≡ length room.seats)
unfolding leave_seats
leave_seats-vacated socket [] j room lt h = elim h [
  | inl e ↦ (sym (vacated_free socket (seat_at room j) e), refl)
  | inr e ↦ absurd (ground (arith, e))
]
leave_seats-vacated socket (i ∷ is) j room lt h =
    let next = if is_held socket (seat_at room i) then set_seat room i no_seat else room in
    let one = leave_one socket i j room lt in
    let rest = leave_seats-vacated socket is j next (omega (arith, one.size)) (elim one.left [
      | inl e ↦ inl e
      | inr (ne, e) ↦ elim h [ inl f ↦ inl (e ∙ f) | inr f ↦ inr (ground (arith, f, ne)) ]
    ]) in
    (rest.0 ∙ one.same, rest.1 ∙ one.size)
