-- ===== src/Table/Deal.antt =====
-- Starting a hand and dealing: `fresh_deck`, `reset_hand`, `apply_pending_rebuys`,
-- `deal_hole_cards` and `deal_community` of backend-cpp/src/main.cpp. The back of the deck is the
-- last entry of the list.
pub mod Conserved
use Prim.Native.String.{String}
use dezhou.Prelude.{
  ℕ, zero, suc, ◌+◌, ◌%◌, Bool, false, ◌&&◌, ◌||◌, not, List, [], ◌∷◌, ◌++◌, map, Option, none,
  some, ltb, leb, if◌then◌else◌, keep,
}
use dezhou.Prelude.Int.{pos, pos_part}
use dezhou.Prelude.Maps.{adjust, map_values}
use dezhou.Engine.Cards.{Card}
use dezhou.Engine.RoundPhase.{pre_flop}
use dezhou.Table.State.{
  Room, Env, PlayerState, Seat, SeatType, Notice, seat_at, seat_indices, k_seats,
}
use dezhou.Table.Events.{broadcast_activity}
use dezhou.Table.Seats.{get_player, is_online, is_seat_eligible}

abbrev pub ranks : List (String × ℕ)
ranks =
    ("2", 2)
    ∷ ("3", 3)
    ∷ ("4", 4)
    ∷ ("5", 5)
    ∷ ("6", 6)
    ∷ ("7", 7)
    ∷ ("8", 8)
    ∷ ("9", 9)
    ∷ ("10", 10)
    ∷ ("J", 11)
    ∷ ("Q", 12)
    ∷ ("K", 13)
    ∷ ("A", 14)
    ∷ []

abbrev pub suits : List String
suits = "hearts" ∷ "diamonds" ∷ "clubs" ∷ "spades" ∷ []

unfoldable pub deck_of : List String → List Card
deck_of [] = []
deck_of (s ∷ ss) = map (λ (r, v). record { s = s; r = r; v = v }) ranks ++ deck_of ss

unfoldable pub fresh_deck : Env → List Card
fresh_deck env = env.shuffle (deck_of suits)

-- `deck.back()` with the deck after `pop_back`.
unfoldable pub pop_back {ℓ} : {A : Type ℓ} → List A → Option (A × List A)
pop_back [] = none
pop_back (x ∷ xs) = elim (pop_back xs) [
  | none ↦ some (x, [])
  | some (last, rest) ↦ some (last, x ∷ rest)
]

-- `seat.type == Player && !is_online(...) && !seat.ai_managed`.
abbrev pub is_disconnected : Env → Seat → Bool
is_disconnected env seat = elim seat.type [
  | SeatType.player ↦ not (is_online env seat.socket_id) && not seat.ai_managed
  | _ ↦ false
]

-- The state of a player at the start of the hand `hand_num`.
abbrev pub reset_player : Env → Room → ℕ → ℕ → PlayerState → PlayerState
reset_player env room hand_num seat_idx p = record p {
  hand = [];
  current_bet = 0;
  hand_contribution = 0;
  is_folded =
      leb p.chips 0
      || is_disconnected env (seat_at room seat_idx)
      || ltb hand_num p.sit_out_until_hand;
  is_bankrupt = leb p.chips 0;
}

unfoldable pub reset_hand : Env → Room → Room
reset_hand env room =
    let hand_num = room.hand_num + 1 in
    record room {
      hand_num = hand_num;
      pot = 0;
      round = pre_flop;
      community_cards = [];
      deck = fresh_deck env;
      current_max_bet = 0;
      pending_action_seats = [];
      turn_nonce = room.turn_nonce + 1;
      last_actor_seat_idx = none;
      players = map_values (reset_player env room hand_num) room.players;
    }

-- `if (pend <= 0) continue;`, where the positive part of a pledge is zero. A stack is a number
-- without an upper bound, so `p.chips += pend` is the code's sum while that fits an `int`.
abbrev pub rebuy_player : PlayerState → PlayerState
rebuy_player p = if leb (pos_part p.pending_rebuy) 0 then p else record p {
  chips = p.chips + pos_part p.pending_rebuy;
  pending_rebuy = pos 0;
  is_bankrupt = false;
  is_folded = false;
  current_bet = 0;
}

-- The announcements of `apply_pending_rebuys`, in the order of the seats.
unfoldable pub announce_rebuys : Env → List (ℕ × PlayerState) → Room → Room
announce_rebuys env [] room = room
announce_rebuys env ((i, p) ∷ m) room = announce_rebuys env m (
    if leb (pos_part p.pending_rebuy) 0
    then room
    else broadcast_activity env room
        (Notice.rebuys (seat_at room i).name (pos_part p.pending_rebuy)))

unfoldable pub apply_pending_rebuys : Env → Room → Room
apply_pending_rebuys env room =
    announce_rebuys env room.players
      (record room { players = map_values (λ i. rebuy_player) room.players })

abbrev pub take_card : Card → PlayerState → PlayerState
take_card card p = record p { hand = p.hand ++ card ∷ [] }

-- One round of `deal_hole_cards`.
unfoldable pub deal_round : List ℕ → Room → Room
deal_round [] room = room
deal_round (i ∷ is) room = deal_round is (elim (get_player room i) [
  | none ↦ room
  | some p ↦ elim (pop_back room.deck) [
    | none ↦ room
    | some (card, deck) ↦ record room {
      deck = deck;
      players = adjust i (take_card card) room.players;
    }
  ]
])

-- The seats in the order of dealing, from the left of the dealer.
abbrev pub dealing_order : Room → List ℕ
dealing_order room = map (λ i. (room.dealer_seat_idx + 1 + i) % k_seats) seat_indices

unfoldable pub deal_hole_cards : Env → Room → Room
deal_hole_cards env room =
    let eligible = keep (is_seat_eligible env room) (dealing_order room) in
    deal_round eligible (deal_round eligible room)

unfoldable pub deal_community : Room → ℕ → Room
deal_community room zero = room
deal_community room (suc n) = elim (pop_back room.deck) [
  | none ↦ room
  | some (card, deck) ↦
      deal_community
        (record room { deck = deck; community_cards = room.community_cards ++ card ∷ [] }) n
]
