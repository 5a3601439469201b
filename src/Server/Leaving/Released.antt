-- ===== src/Server/Leaving/Released.antt =====
-- The seats of a socket are released.
use Prim.Native.String.{String}
use text.Mathlib.Text.{◌==◌ as str_eq}
use dezhou.Prelude.{
  ℕ, ◌<◌, ◌≡◌, refl, ap, ◌∙◌, subst, ◌⊎◌, inl, inr, Bool, true, false, ◌&&◌, ◌==◌, List, [], ◌∷◌,
  any_of, length, length-set, get_or, get_or-set_self, get_or-set_ne, set, zero, suc, Bool-cases,
  if-cases, arith,
}
use dezhou.Table.State.{Room, Env, Seat, seat_at, no_seat, k_seats}
use dezhou.Table.Action.{is_player}
use dezhou.Table.Serving.{Session}
use dezhou.Table.Frame.Actions.{resolve_disconnect-Frames}
use dezhou.Server.State.{Server}
use dezhou.Server.Seating.{set_seat, unmanaged}
use dezhou.Server.Leaving.{away, release_seat, is_held_by, release_seats}

-- What the release of one seat changes: that seat, which is held no more.
pub record Released (socket : String) (i : ℕ) (room after : Room) : Type 0 where
  pub seat : Seat
  pub seats : after.seats ≡ set room.seats i seat
  pub not_held : is_held_by socket seat ≡ false
  pub members : after.socket_ids ≡ room.socket_ids
  pub voice : after.voice_participants ≡ room.voice_participants

pub and_false : (b : Bool) → (b && false) ≡ false
and_false true = refl
and_false false = refl

set_twice : (xs : List Seat) (i : ℕ) (v w : Seat) → set (set xs i v) i w ≡ set xs i w
set_twice [] i v w = refl
set_twice (x ∷ xs) zero v w = refl
set_twice (x ∷ xs) (suc i) v w = ap (λ ys. x ∷ ys) (set_twice xs i v w)

freed :
    {socket : String} (i j : ℕ) (room after : Room)
    → Released socket i room after
    → i ≡ j
    → j < length room.seats
    → is_held_by socket (seat_at after j) ≡ false
freed {socket} i j room after one same lt =
    ap (λ xs. is_held_by socket (get_or xs j no_seat)) one.seats
    ∙ ap (λ k. is_held_by socket (get_or (set room.seats k one.seat) j no_seat)) same
    ∙ ap (is_held_by socket) (get_or-set_self room.seats j one.seat no_seat lt)
    ∙ one.not_held

kept :
    {socket : String} (i j : ℕ) (room after : Room)
    → Released socket i room after
    → (i == j) ≡ false
    → is_held_by socket (seat_at room j) ≡ false
    → is_held_by socket (seat_at after j) ≡ false
kept {socket} i j room after one other h =
    ap (λ xs. is_held_by socket (get_or xs j no_seat)) one.seats
    ∙ ap (is_held_by socket)
        (get_or-set_ne room.seats i j one.seat no_seat (λ e. absurd (ground (arith, e, other))))
    ∙ h

module _ (env : Env) (session : Session) (named : str_eq "" session.socket_id ≡ false) where
  away_not_held : (seat : Seat) → is_held_by session.socket_id (away env seat) ≡ false
  away_not_held seat = elim (Bool-cases (is_player seat.type)) [
    | inl e ↦ ap (λ b. is_player seat.type && b) named ∙ and_false (is_player seat.type)
    | inr e ↦ ap (λ b. b && str_eq "" session.socket_id) e
  ]

  release_seat-Released :
      (i : ℕ) (room : Room) (server : Server)
      → Released session.socket_id i room (release_seat env session i (room, server)).0
  unfolding release_seat
  release_seat-Released i room server =
      let left = set_seat room i (away env (seat_at room i)) in
      let resolved = (resolve_disconnect-Frames env left i).same_scene in
      if-cases (λ (r : Room × Server). Released session.socket_id i room r.0) room.started _ _
        (λ e. record {
          seat = away env (seat_at room i);
          seats = ap (λ s. s.seats) resolved;
          not_held = away_not_held (seat_at room i);
          members = ap (λ s. s.socket_ids) resolved;
          voice = ap (λ s. s.voice_participants) resolved;
        })
        (λ e. record {
          seat = no_seat;
          seats = set_twice room.seats i (unmanaged (seat_at room i)) no_seat;
          not_held = refl;
          members = refl;
          voice = refl;
        })

  -- What the release of some seats leaves: a seat is not held if it was not, or if it is one of
  -- them.
  pub record AllReleased (is : List ℕ) (room after : Room) : Type 0 where
    pub not_held :
        (j : ℕ)
        → j < k_seats
        → (is_held_by session.socket_id (seat_at room j) ≡ false) ⊎ (any_of (λ i. i == j) is ≡ true)
        → is_held_by session.socket_id (seat_at after j) ≡ false
    pub members : after.socket_ids ≡ room.socket_ids
    pub voice : after.voice_participants ≡ room.voice_participants

  pub release_seats-AllReleased :
      (is : List ℕ) (room : Room) (server : Server)
      → length room.seats ≡ k_seats
      → AllReleased is room (release_seats env session is (room, server)).0
  unfolding release_seats
  release_seats-AllReleased [] room server ten = record {
    not_held = λ j lt h. elim h [ inl e ↦ e | inr e ↦ absurd (ground (arith, e)) ];
    members = refl;
    voice = refl;
  }
  release_seats-AllReleased (i ∷ is) room server ten =
      if-cases
        (λ (st : Room × Server). AllReleased (i ∷ is) room (release_seats env session is st).0)
        (is_held_by session.socket_id (seat_at room i)) _ _
        (λ held.
          let next = release_seat env session i (room, server) in
          let one = release_seat-Released i room server in
          let more =
            release_seats-AllReleased is next.0 next.1
              (ap length one.seats ∙ length-set room.seats i one.seat ∙ ten) in
          record {
            not_held = λ j lt h. more.not_held j lt (elim (Bool-cases (i == j)) [
              | inl same ↦
                  inl (freed i j room next.0 one (ground (arith, same)) (omega (arith, ten)))
              | inr other ↦ elim h [
                | inl e ↦ inl (kept i j room next.0 one other e)
                | inr e ↦ inr (ground (arith, other))
              ]
            ]);
            members = more.members ∙ one.members;
            voice = more.voice ∙ one.voice;
          })
        (λ free.
          let more = release_seats-AllReleased is room server ten in
          record {
            not_held = λ j lt h. more.not_held j lt (elim (Bool-cases (i == j)) [
              | inl same ↦ inl (
                  subst (λ k. is_held_by session.socket_id (seat_at room k) ≡ false)
                    (ground (arith, same)) free)
              | inr other ↦ elim h [ inl e ↦ inl e | inr e ↦ inr (ground (arith, other)) ]
            ]);
            members = more.members;
            voice = more.voice;
          })
