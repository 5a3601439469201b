-- ===== src/Table/Chips/Streets.antt =====
-- Streets and turns move no chip until the hand is settled.
use dezhou.Prelude.{
  ℕ, zero, suc, ◌+◌, ◌≤◌, ◌≡◌, refl, List, [], ◌∷◌, arith, length, inl, inr, ◌⊎◌, Option-cases,
  Bool-cases, none, ap, is_empty, leb, ◌++◌,
}
use dezhou.Prelude.Maps.{sum-map_values}
use dezhou.Engine.RoundPhase.{RoundPhase, pre_flop, flop, turn, river, showdown, hand_over}
use dezhou.Table.State.{Room, Env, seat_at}
use dezhou.Table.Events.{emit_room_event, append_room_event, broadcast_game}
use dezhou.Table.Seats.{get_in_hand_seats, get_actable_seats, get_active_offset}
use dezhou.Table.Betting.{init_pending_action, remove_ineligible_from_pending, choose_next_actor}
use dezhou.Table.Deal.{deal_community, pop_back}
use dezhou.Table.Settle.{finish_hand, settle, close_hand, send_hand_over}
use dezhou.Table.Turn.{
  open_street, clear_bet, clear_bets, is_showdown, proceed_with, is_machine, announce_turn,
  settle_turn, is_pending_turn, request_with, request_turn_fuel, street_fuel, request_turn,
  proceed_to_next_street,
}
use dezhou.Table.Chips.{stacks, bets, table_total}
use dezhou.Table.Chips.Finish.{deal_community-players, finish_hand-Settles}

-- The chips of the table stay, and the pot grows as the bets do.
pub record Keeps (a b : Room) : Type 0 where
  pub total : table_total b ≡ table_total a
  pub tracked : b.pot + bets a.players ≡ a.pot + bets b.players

pub Keeps-refl : (a : Room) → Keeps a a
Keeps-refl a = record { total = refl; tracked = refl }

pub Keeps-trans : (a b c : Room) → Keeps a b → Keeps b c → Keeps a c
Keeps-trans a b c p q = record {
  total = omega (arith, p.total, q.total);
  tracked = omega (arith, p.tracked, q.tracked);
}

-- Neither the players nor the pot change.
pub Keeps-same : (a b : Room) → b.players ≡ a.players → b.pot ≡ a.pot → Keeps a b
Keeps-same a b p q = record {
  total = ap (λ m. stacks m + bets m) p;
  tracked = omega (arith, ap bets p, q);
}

-- The hand goes on with the same chips, or it is over: the pot is empty, and the stacks hold no
-- more than there was on the table.
abbrev pub Ends : Room → Room → Type 0
Ends a b = Keeps a b ⊎ ((b.round ≡ hand_over) × (b.pot ≡ 0) × (stacks b.players ≤ table_total a))

pub Keeps-Ends : (a b c : Room) → Keeps a b → Ends b c → Ends a c
Keeps-Ends a b c p (inl q) = inl (Keeps-trans a b c p q)
Keeps-Ends a b c p (inr (r, z, q)) = inr (r, z, omega (arith, p.total, q))

settle-closed :
    (env : Env) (room : Room) (is : List ℕ)
    → ((settle env room is).round ≡ hand_over) × ((settle env room is).pot ≡ 0)
unfolding settle close_hand send_hand_over broadcast_game emit_room_event append_room_event
settle-closed env room [] = (refl, refl)
settle-closed env room (i ∷ []) = (refl, refl)
settle-closed env room (i ∷ j ∷ is) = (refl, refl)

pub finish_hand-closed :
    (env : Env) (room : Room)
    → ((finish_hand env room).round ≡ hand_over) × ((finish_hand env room).pot ≡ 0)
unfolding finish_hand
finish_hand-closed env room = settle-closed env _ _

pub finish_hand-Ends : (env : Env) (room : Room) → Ends room (finish_hand env room)
finish_hand-Ends env room =
    let (n, paid, rest) = finish_hand-Settles env room in
    let (r, z) = finish_hand-closed env room in inr (r, z, omega (arith, paid.paid, rest))

clear_bets-Keeps : (room : Room) → Keeps room (clear_bets room)
unfolding clear_bets
clear_bets-Keeps room = record {
  total = omega (
    arith,
    sum-map_values (λ p. p.chips) (λ i. clear_bet) room.players (λ i p. refl),
    sum-map_values (λ p. p.hand_contribution) (λ i. clear_bet) room.players (λ i p. refl),
  );
  tracked = omega (
    arith,
    sum-map_values (λ p. p.hand_contribution) (λ i. clear_bet) room.players (λ i p. refl),
  );
}

deal_community-pot : (room : Room) (n : ℕ) → (deal_community room n).pot ≡ room.pot
unfolding deal_community
deal_community-pot room zero = refl
deal_community-pot room (suc n) = elim (Option-cases (pop_back room.deck)) [
  | inl e ↦ rw (e, deal_community)
  | inr (d, e) ↦
      rw (e, deal_community)
        (deal_community-pot
          (record room { deck = d.1; community_cards = room.community_cards ++ d.0 ∷ [] }) n)
]

deal-Keeps : (room : Room) (n : ℕ) → Keeps room (deal_community room n)
deal-Keeps room n =
    Keeps-same room (deal_community room n) (deal_community-players room n)
      (deal_community-pot room n)

open_street-Keeps : (phase : RoundPhase) (room : Room) → Keeps room (open_street phase room)
unfolding open_street
open_street-Keeps pre_flop room =
    Keeps-trans room (record room { round = flop }) _ (Keeps-same _ _ refl refl)
      (deal-Keeps (record room { round = flop }) 3)
open_street-Keeps flop room =
    Keeps-trans room (record room { round = turn }) _ (Keeps-same _ _ refl refl)
      (deal-Keeps (record room { round = turn }) 1)
open_street-Keeps turn room =
    Keeps-trans room (record room { round = river }) _ (Keeps-same _ _ refl refl)
      (deal-Keeps (record room { round = river }) 1)
open_street-Keeps _ room = Keeps-same _ _ refl refl

prepared-Keeps :
    (env : Env) (room : Room) (first : ℕ)
    → Keeps room (broadcast_game env (init_pending_action env room first))
unfolding broadcast_game init_pending_action emit_room_event append_room_event
prepared-Keeps env room first = Keeps-same _ _ refl refl

proceed_with-Ends :
    (request : Room → Room) (env : Env)
    → ((r : Room) → Ends r (request r))
    → (room : Room) → Ends room (proceed_with request env room)
unfolding proceed_with
proceed_with-Ends request env keep room =
    let cleared = clear_bets room in
    let opened = open_street room.round cleared in
    let start =
      Keeps-trans room cleared opened (clear_bets-Keeps room)
        (open_street-Keeps room.round cleared) in
    elim (Bool-cases (is_showdown opened.round)) [
      | inl e ↦ rw e (Keeps-Ends room opened _ start (finish_hand-Ends env opened))
      | inr e ↦
          let first = get_active_offset env opened opened.dealer_seat_idx 1 in
          let ready = broadcast_game env (init_pending_action env opened first) in
          rw e (
            Keeps-Ends room ready _
              (Keeps-trans room opened ready start (prepared-Keeps env opened first)) (keep ready))
    ]

settle_turn-Keeps : (room : Room) → Keeps room (settle_turn room)
unfolding settle_turn remove_ineligible_from_pending choose_next_actor
settle_turn-Keeps room = elim (Bool-cases (is_pending_turn (remove_ineligible_from_pending room))) [
  | inl e ↦ rw e (Keeps-same _ _ refl refl)
  | inr e ↦ rw e (Keeps-same _ _ refl refl)
]

announce_turn-Keeps :
    (env : Env) (room : Room) (active : ℕ) → Keeps room (announce_turn env room active)
unfolding announce_turn broadcast_game emit_room_event append_room_event
announce_turn-Keeps env room active = elim (Bool-cases (is_machine env (seat_at room active))) [
  | inl e ↦ rw e (Keeps-same _ _ refl refl)
  | inr e ↦ rw e (Keeps-same _ _ refl refl)
]

request_with-Ends :
    (proceed : Room → Room) (env : Env)
    → ((r : Room) → Ends r (proceed r))
    → (room : Room) → Ends room (request_with proceed env room)
unfolding request_with
request_with-Ends proceed env keep room =
    let stopped = record room { ai_timer = none } in
    let same : Keeps room stopped = Keeps-same room stopped refl refl in
    let over = record stopped { round = showdown } in
    let ready = settle_turn stopped in
    let turned = Keeps-trans room stopped ready same (settle_turn-Keeps stopped) in
    elim (Bool-cases (leb (length (get_in_hand_seats env stopped)) 1)) [
      | inl e ↦ rw e (Keeps-Ends room stopped _ same (finish_hand-Ends env stopped))
      | inr e ↦ elim (Bool-cases (is_empty (get_actable_seats env stopped))) [
        | inl a ↦
            rw (e, a)
              (Keeps-Ends room over _ (Keeps-same room over refl refl) (finish_hand-Ends env over))
        | inr a ↦ elim (Option-cases ready.active_seat_idx) [
          | inl n ↦ rw (e, a, n) (Keeps-Ends room ready _ turned (keep ready))
          | inr (i, n) ↦
              rw (e, a, n) (inl (Keeps-trans room ready _ turned (announce_turn-Keeps env ready i)))
        ]
      ]
    ]

pub request_turn_fuel-Ends :
    (fuel : ℕ) (env : Env) (room : Room) → Ends room (request_turn_fuel fuel env room)
unfolding request_turn_fuel
request_turn_fuel-Ends zero env room = inl (Keeps-refl room)
request_turn_fuel-Ends (suc fuel) env room =
    request_with-Ends (proceed_with (request_turn_fuel fuel env) env) env
      (proceed_with-Ends (request_turn_fuel fuel env) env (request_turn_fuel-Ends fuel env)) room

pub request_turn-Ends : (env : Env) (room : Room) → Ends room (request_turn env room)
unfolding request_turn
request_turn-Ends env room = request_turn_fuel-Ends street_fuel env room

pub proceed_to_next_street-Ends :
    (env : Env) (room : Room) → Ends room (proceed_to_next_street env room)
unfolding proceed_to_next_street
proceed_to_next_street-Ends env room =
    proceed_with-Ends (request_turn_fuel street_fuel env) env
      (request_turn_fuel-Ends street_fuel env) room
