-- ===== src/Table/Lobby/Departures.antt =====
-- The seats that are cleared before a hand.
use dezhou.Prelude.{
  ℕ, zero, suc, ◌≡◌, refl, sym, subst, ◌∙◌, ap, true, false, inl, inr, Bool-cases, List, [], ◌∷◌,
  if-cases, get_or-set_ne, All, get_or, set, ◌==◌, ==_iff, arith,
}
use dezhou.Prelude.Maps.{erase}
use dezhou.Table.State.{Room, Env, seat_at, seat_indices, no_seat}
use dezhou.Table.Lobby.{is_departed, prune_seats, prune_departed_seats}

get_or-set_default {ℓ} : {A : Type ℓ} (xs : List A) (i : ℕ) (d : A) → get_or (set xs i d) i d ≡ d
get_or-set_default [] i d = refl
get_or-set_default (x ∷ xs) zero d = refl
get_or-set_default (x ∷ xs) (suc i) d = get_or-set_default xs i d

abbrev HasStayed : Env → Room → ℕ → Type 0
HasStayed env room i = is_departed env (seat_at room i) ≡ false

prune_seats-stayed :
    (env : Env) (is : List ℕ) (room : Room) (j : ℕ)
    → is_departed env (seat_at room j) ≡ false
    → seat_at (prune_seats env is room) j ≡ seat_at room j
unfolding prune_seats
prune_seats-stayed env [] room j h = refl
prune_seats-stayed env (i ∷ is) room j h = elim (Bool-cases (is_departed env (seat_at room i))) [
  | inr here ↦ rw (prune_seats, here) (prune_seats-stayed env is room j h)
  | inl gone ↦ elim (Bool-cases (i == j)) [
    | inl same ↦
        let eq = (==_iff i j).0 same in
        let bad : true ≡ false =
          sym (subst (λ k. is_departed env (seat_at room k) ≡ true) eq gone) ∙ h in
        absurd (ground (arith, bad))
    | inr other ↦
        let kept = get_or-set_ne room.seats i j no_seat no_seat (λ e. ground (arith, other, e)) in
        let cleared = record room {
          seats = set room.seats i no_seat;
          players = erase i room.players;
        } in
        rw (prune_seats, gone)
          (prune_seats-stayed env is cleared j (ap (is_departed env) kept ∙ h) ∙ kept)
  ]
]

prune_seats-HasStayed :
    (env : Env) (is : List ℕ) (room : Room) → All (HasStayed env (prune_seats env is room)) is
unfolding prune_seats
prune_seats-HasStayed env [] room = tt
prune_seats-HasStayed env (i ∷ is) room =
    let cleared = record room {
      seats = set room.seats i no_seat;
      players = erase i room.players;
    } in
    if-cases (λ r. All (HasStayed env (prune_seats env is r)) (i ∷ is))
      (is_departed env (seat_at room i)) cleared room
      (λ gone.
        let empty : is_departed env (seat_at cleared i) ≡ false =
          ap (is_departed env) (get_or-set_default room.seats i no_seat) in
        (
          ap (is_departed env) (prune_seats-stayed env is cleared i empty) ∙ empty,
          prune_seats-HasStayed env is cleared,
        ))
      (λ here. (
        ap (is_departed env) (prune_seats-stayed env is room i here) ∙ here,
        prune_seats-HasStayed env is room,
      ))

-- After the departed seats are cleared none of the ten seats is a departed player's, and every
-- seat that was not is what it was.
pub prune_departed_seats-stayed :
    (env : Env) (room : Room)
    → All (λ i. is_departed env (seat_at (prune_departed_seats env room) i) ≡ false) seat_indices
      × ((j : ℕ)
          → is_departed env (seat_at room j) ≡ false
          → seat_at (prune_departed_seats env room) j ≡ seat_at room j)
unfolding prune_departed_seats
prune_departed_seats-stayed env room = (
  prune_seats-HasStayed env seat_indices room,
  λ j h. prune_seats-stayed env seat_indices room j h,
)
