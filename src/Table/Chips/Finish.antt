-- ===== src/Table/Chips/Finish.antt =====
-- `finish_hand` pays out every chip that was put in, but for the pots that nobody left in the
-- hand may win.
use dezhou.Prelude.{
  ℕ, zero, suc, ◌+◌, ◌≡◌, refl, subst, ◌∙◌, Bool, not, List, [], ◌∷◌, arith, All, length, inl, inr,
  Option-cases, none, sum_of, keep, any_of, is_empty, if◌then◌else◌, ltb, ◌++◌, All-keep,
}
use Prim.Native.String.{String}
use dezhou.Engine.Cards.{Card}
use dezhou.Prelude.Sets.{member}
use dezhou.Prelude.Maps.{find}
use dezhou.Engine.Pots.{Pot, build_pots}
use dezhou.Engine.Pots.Totals.{build_pots_total, total_committed, total_amount}
use dezhou.Table.State.{PlayerState, Room, Env, seat_indices}
use dezhou.Table.Events.{broadcast_activity, emit_room_event, append_room_event, broadcast_game}
use dezhou.Table.Seats.{get_player, get_in_hand_seats, is_in_hand}
use dezhou.Table.Deal.{deal_community, pop_back}
use dezhou.Table.Settle.{
  Settlement, eval_rows, has_row, contributors_of, settle, settle_single, settle_showdown,
  close_hand, send_hand_over, finish_hand, fill_board, track_pot, showdown_cards,
}
use dezhou.Table.Chips.{stacks, bets, table_total}
use dezhou.Table.Chips.Payout.{players_of, Seated, Pays, Pays-refl, award-Pays}
use dezhou.Table.Chips.Pots.{RowsSeated, payout, settle_pots-Pays}

contributors_total : (m : List (ℕ × PlayerState)) → total_committed (contributors_of m) ≡ bets m
unfolding contributors_of
contributors_total [] = refl
contributors_total ((i, p) ∷ m) = ground (arith, contributors_total m)

pub deal_community-players : (room : Room) (n : ℕ) → (deal_community room n).players ≡ room.players
unfolding deal_community
deal_community-players room zero = refl
deal_community-players room (suc n) = elim (Option-cases (pop_back room.deck)) [
  | inl e ↦ rw (e, deal_community)
  | inr (d, e) ↦
      rw (e, deal_community)
        (deal_community-players
          (record room { deck = d.1; community_cards = room.community_cards ++ d.0 ∷ [] }) n)
]

fill_board-players : (fuel : ℕ) (room : Room) → (fill_board fuel room).players ≡ room.players
unfolding fill_board
fill_board-players zero room = refl
fill_board-players (suc fuel) room =
    ground (arith, fill_board-players fuel (deal_community room 1), deal_community-players room 1)

pub close_hand-players :
    (env : Env) (cards : List (ℕ × List Card)) (st : Settlement × String)
    → (close_hand env cards st).players ≡ players_of st.0
unfolding close_hand send_hand_over broadcast_game emit_room_event append_room_event
close_hand-players env cards st = refl

-- The rows of a showdown are those of the seats in the hand.
has_row-eval_rows :
    (room : Room) (is : List ℕ) (x : ℕ)
    → All (Seated room.players) is
    → has_row (eval_rows room is) x ≡ member x is
unfolding eval_rows get_player
has_row-eval_rows room [] x h = refl
has_row-eval_rows room (i ∷ is) x h = elim (Option-cases (find i room.players)) [
  | inl e ↦ absurd (ground (arith, e, h.0))
  | inr (p, e) ↦ rw (e, eval_rows) (ground (arith, has_row-eval_rows room is x h.1))
]

eval_rows-RowsSeated :
    (room : Room) (is : List ℕ)
    → All (Seated room.players) is
    → RowsSeated room.players (eval_rows room is)
unfolding eval_rows get_player
eval_rows-RowsSeated room [] h = tt
eval_rows-RowsSeated room (i ∷ is) h = elim (Option-cases (find i room.players)) [
  | inl e ↦ absurd (ground (arith, e, h.0))
  | inr (p, e) ↦ rw (e, eval_rows) (h.0, eval_rows-RowsSeated room is h.1)
]

-- Nobody in the hand may win the pot.
abbrev pub is_dead : List ℕ → Pot → Bool
is_dead in_hand pot = not (any_of (λ i. member i in_hand) pot.eligible_seat_indices)

abbrev pub dead_amount : List ℕ → List Pot → ℕ
dead_amount in_hand = sum_of (λ pot. if is_dead in_hand pot then pot.amount else 0)

keep_empty :
    (room : Room) (is xs : List ℕ)
    → All (Seated room.players) is
    → is_empty (keep (has_row (eval_rows room is)) xs) ≡ not (any_of (λ i. member i is) xs)
keep_empty room is [] h = refl
keep_empty room is (x ∷ xs) h =
    ground (arith, has_row-eval_rows room is x h, keep_empty room is xs h)

payout_dead :
    (room : Room) (is : List ℕ) (pots : List Pot)
    → All (Seated room.players) is
    → sum_of (payout (eval_rows room is)) pots + dead_amount is pots ≡ total_amount pots
payout_dead room is [] h = refl
payout_dead room is (pot ∷ pots) h =
    ground (arith, keep_empty room is pot.eligible_seat_indices h, payout_dead room is pots h)

-- The chips that are lost when the hand ends: all of them if nobody is left in the hand, none if
-- one seat is, and otherwise the pots that none of those left may win.
abbrev pub forfeited_by : List ℕ → List (ℕ × PlayerState) → ℕ
forfeited_by [] m = bets m
forfeited_by (i ∷ []) m = 0
forfeited_by (i ∷ j ∷ is) m = dead_amount (i ∷ j ∷ is) (build_pots (contributors_of m))

settle_single-Pays :
    (env : Env) (room : Room) (i : ℕ) (pots : List Pot)
    → Seated room.players i
    → Pays
        (total_amount pots)
        room.players
        (players_of (settle_single env (track_pot room) i pots).0)
unfolding settle_single broadcast_activity emit_room_event append_room_event
settle_single-Pays env room i pots h =
    award-Pays i (total_amount pots) (record { room = track_pot room; winner_order = [] }) h

settle_showdown-Pays :
    (env : Env) (room : Room) (is : List ℕ) (pots : List Pot)
    → All (Seated room.players) is
    → (n : ℕ) × Pays n room.players (players_of (settle_showdown env (track_pot room) is pots).0)
      × (n + dead_amount is pots ≡ total_amount pots)
unfolding settle_showdown
settle_showdown-Pays env room is pots h =
    let board = fill_board 5 (track_pot room) in
    let same : board.players ≡ room.players = fill_board-players 5 (track_pot room) in
    let seated : All (Seated board.players) is = rw same h in
    let paid =
      settle_pots-Pays env (eval_rows board is) (ltb 1 (length pots)) 0 pots
        (record { room = board; winner_order = [] }, "All others folded")
        (eval_rows-RowsSeated board is seated) in
    let after = players_of (settle_showdown env (track_pot room) is pots).0 in
    (
      sum_of (payout (eval_rows board is)) pots,
      subst (λ m. Pays (sum_of (payout (eval_rows board is)) pots) m after) same paid,
      payout_dead board is pots seated,
    )

pots_total : (m : List (ℕ × PlayerState)) → total_amount (build_pots (contributors_of m)) ≡ bets m
pots_total m = build_pots_total (contributors_of m) ∙ contributors_total m

-- What a settlement pays, and what is forfeited, make up the bets.
abbrev pub Settles : List ℕ → Room → Room → Type 0
Settles is room after =
    (n : ℕ) × Pays n room.players after.players
    × (n + forfeited_by is room.players ≡ bets room.players)

settle-Settles :
    (env : Env) (room : Room) (is : List ℕ)
    → All (Seated room.players) is
    → Settles is room (settle env room is)
unfolding settle
settle-Settles env room [] h =
    (0, rw (close_hand-players env [] _) (Pays-refl room.players), omega arith)
settle-Settles env room (i ∷ []) h =
    let pots = build_pots (contributors_of room.players) in
    (
      total_amount pots,
      rw (close_hand-players env (showdown_cards room (i ∷ [])) _)
          (settle_single-Pays env room i pots h.0),
      omega (arith, pots_total room.players),
    )
settle-Settles env room (i ∷ j ∷ is) h =
    let pots = build_pots (contributors_of room.players) in
    let (n, paid, rest) = settle_showdown-Pays env room (i ∷ j ∷ is) pots h in
    (
      n,
      rw (close_hand-players env (showdown_cards room (i ∷ j ∷ is)) _) paid,
      omega (arith, rest, pots_total room.players),
    )

pub in_hand-Seated :
    (env : Env) (room : Room) → All (Seated room.players) (get_in_hand_seats env room)
unfolding get_in_hand_seats is_in_hand get_player
in_hand-Seated env room =
    All-keep (is_in_hand env room) (Seated room.players) seat_indices (λ i e. ground (arith, e))

pub finish_hand-Settles :
    (env : Env) (room : Room) → Settles (get_in_hand_seats env room) room (finish_hand env room)
unfolding finish_hand get_in_hand_seats is_in_hand get_player
finish_hand-Settles env room =
    let stopped = record room {
      ai_timer = none;
      pending_action_seats = [];
      active_seat_idx = none;
    } in
    settle-Settles env stopped (get_in_hand_seats env stopped) (in_hand-Seated env stopped)

-- After `finish_hand` the stacks and the forfeited chips together are all chips of the table. The
-- forfeited chips are all bets if nobody is left in the hand, none if one seat is left, and
-- otherwise the pots that none of the seats left may win.
pub finish_hand_total :
    (env : Env) (room : Room)
    → stacks (finish_hand env room).players + forfeited_by (get_in_hand_seats env room) room.players
      ≡ table_total room
finish_hand_total env room =
    let (n, paid, rest) = finish_hand-Settles env room in omega (arith, paid.paid, rest)
