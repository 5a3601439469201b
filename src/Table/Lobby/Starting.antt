-- ===== src/Table/Lobby/Starting.antt =====
-- The start of a match.
use dezhou.Prelude.{
  ℕ, ◌≤◌, ◌≡◌, refl, ◌⊎◌, inl, inr, if-cases, of_not, or_false, ◌||◌, not, true, false, List, [],
  ◌∷◌, some, ltb, length, keep, All, arith,
}
use dezhou.Prelude.Int.{ℤ, pos, negsuc}
use dezhou.Prelude.Maps.{map_values}
use dezhou.Table.State.{Room, Env, PlayerState, seat_indices}
use dezhou.Table.Seats.{ensure_players_map}
use dezhou.Table.Hand.{start_hand}
use dezhou.Table.Serving.{Session, Served, is_host}
use dezhou.Table.Lobby.{
  StartGameRequest, clamp_hands, at_least_1000, is_occupied, fresh_stack, set_up_match,
  handle_start_game,
}

-- A player with the initial stack, counted as his buy-in, and with nothing of an earlier match.
pub record IsFresh (initial_chips : ℕ) (p : PlayerState) : Type 0 where
  pub stack : p.chips ≡ initial_chips
  pub buy_in : p.total_buy_in ≡ pos initial_chips
  pub no_bet : p.current_bet ≡ 0
  pub no_rebuy : p.pending_rebuy ≡ pos 0
  pub plays : (p.is_bankrupt ≡ false) × (p.is_folded ≡ false)

-- A room that is ready for the first hand of a match.
pub record IsReady (room : Room) : Type 0 where
  pub some_hands : 1 ≤ room.total_hands
  pub few_hands : room.total_hands ≤ 50
  pub enough_chips : 1000 ≤ room.initial_chips
  pub all_fresh : All (λ e. IsFresh room.initial_chips e.1) room.players

clamp_hands-range : (n : ℤ) → (1 ≤ clamp_hands n) × (clamp_hands n ≤ 50)
clamp_hands-range (pos n) = (omega arith, omega arith)
clamp_hands-range (negsuc n) = (omega arith, omega arith)

at_least_1000_lem : (n : ℤ) → 1000 ≤ at_least_1000 n
at_least_1000_lem (pos n) = omega arith
at_least_1000_lem (negsuc n) = omega arith

map_values-IsFresh :
    (n : ℕ) (m : List (ℕ × PlayerState))
    → All (λ e. IsFresh n e.1) (map_values (λ i. fresh_stack n) m)
unfolding map_values
map_values-IsFresh n [] = tt
map_values-IsFresh n ((i, p) ∷ m) = (
  record { stack = refl; buy_in = refl; no_bet = refl; no_rebuy = refl; plays = (refl, refl) },
  map_values-IsFresh n m,
)

set_up_match-IsReady : (room : Room) (req : StartGameRequest) → IsReady (set_up_match room req)
unfolding set_up_match ensure_players_map
set_up_match-IsReady room req = record {
  some_hands = (clamp_hands-range req.total_hands).0;
  few_hands = (clamp_hands-range req.total_hands).1;
  enough_chips = at_least_1000_lem req.initial_chips;
  all_fresh = map_values-IsFresh _ _;
}

-- A request that is not carried out, or that is the host's and starts a match.
abbrev pub IsStarted : Env → Session → Room → Served → Type 0
IsStarted env session room r =
    (r.room ≡ some room)
    ⊎ ((is_host session room ≡ true)
        × (room.started ≡ false)
        × (3 ≤ length (keep (is_occupied room) seat_indices))
        × ((ready : Room) × IsReady ready × (r.room ≡ some (start_hand env ready).0)))

-- A request to start a match either leaves the room as it is, or comes from the host while no
-- match is on and at least three seats are taken; then the first hand starts from a room with 1 to
-- 50 hands, stacks of at least 1000 chips, and this stack for every player.
pub handle_start_game-IsStarted :
    (env : Env) (session : Session) (room : Room) (req : StartGameRequest)
    → IsStarted env session room (handle_start_game env session (some room) req)
unfolding handle_start_game
handle_start_game-IsStarted env session room req =
    let Goal = IsStarted env session room in
    if-cases Goal (room.started || room.closing || not (is_host session room)) _ _ (λ h. inl refl)
      (λ on.
        if-cases Goal (ltb (length (keep (is_occupied room) seat_indices)) 3) _ _ (λ h. inl refl)
          (λ enough.
            let count : 3 ≤ length (keep (is_occupied room) seat_indices) =
              ground (arith, enough) in
            let host = or_false (room.started || room.closing) (not (is_host session room)) on in
            let idle = or_false room.started room.closing host.0 in
            inr (
              of_not host.1,
              idle.0,
              count,
              (set_up_match room req, set_up_match-IsReady room req, refl),
            )))
