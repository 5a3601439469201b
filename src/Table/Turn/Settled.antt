-- ===== src/Table/Turn/Settled.antt =====
-- The calls between `request_turn` and `proceed_to_next_street` come to an end.
use dezhou.Prelude.{
  ℕ, zero, suc, ◌+◌, ◌≤◌, ◌≡◌, refl, sym, ◌∙◌, Bool, true, false, List, [], ◌∷◌, ◌++◌, arith,
  length, inl, inr, ◌⊎◌, Option-cases, Bool-cases, Option, some, none, ap, is_empty, if◌then◌else◌,
  leb,
}
use dezhou.Prelude.Sets.{member}
use dezhou.Engine.RoundPhase.{RoundPhase, pre_flop, flop, turn, river, showdown, hand_over}
use dezhou.Table.State.{Room, Env, seat_at}
use dezhou.Table.Events.{broadcast_game, emit_room_event, append_room_event}
use dezhou.Table.Seats.{get_in_hand_seats, get_actable_seats, get_active_offset}
use dezhou.Table.Seats.Clockwise.{next_seat_clockwise-passes}
use dezhou.Table.Betting.{init_pending_action, remove_ineligible_from_pending, choose_next_actor}
use dezhou.Table.Deal.{deal_community, pop_back}
use dezhou.Table.Settle.{finish_hand, settle, close_hand, send_hand_over}
use dezhou.Table.Turn.{
  open_street, clear_bets, is_showdown, proceed_with, is_machine, announce_turn, settle_turn,
  is_pending_turn, request_with, request_turn_fuel, street_fuel, request_turn,
  proceed_to_next_street,
}

-- The hand waits for one seat: it has the turn, it is pending, and a timer runs exactly if a
-- machine plays it.
abbrev pub Waits : Env → Room → Type 0
Waits env r =
    (k : ℕ) × (r.active_seat_idx ≡ some k)
    × (member k r.pending_action_seats ≡ true)
    × (r.ai_timer ≡ (if is_machine env (seat_at r k) then some k else none))

abbrev pub Settled : Env → Room → Type 0
Settled env r = (r.round ≡ hand_over) ⊎ Waits env r

settle-round : (env : Env) (room : Room) (is : List ℕ) → (settle env room is).round ≡ hand_over
unfolding settle close_hand send_hand_over broadcast_game emit_room_event append_room_event
settle-round env room [] = refl
settle-round env room (i ∷ []) = refl
settle-round env room (i ∷ j ∷ is) = refl

pub finish_hand-round : (env : Env) (room : Room) → (finish_hand env room).round ≡ hand_over
unfolding finish_hand
finish_hand-round env room = settle-round env _ _

-- How many requests are enough from a round on.
abbrev pub need : RoundPhase → ℕ
need pre_flop = 4
need flop = 3
need turn = 2
need _ = 1

deal_community-round : (room : Room) (n : ℕ) → (deal_community room n).round ≡ room.round
unfolding deal_community
deal_community-round room zero = refl
deal_community-round room (suc n) = elim (Option-cases (pop_back room.deck)) [
  | inl e ↦ rw (e, deal_community)
  | inr (d, e) ↦
      rw (e, deal_community)
        (deal_community-round
          (record room { deck = d.1; community_cards = room.community_cards ++ d.0 ∷ [] }) n)
]

-- The street after `phase`.
abbrev next_round : RoundPhase → RoundPhase
next_round pre_flop = flop
next_round flop = turn
next_round turn = river
next_round _ = showdown

open_street-round :
    (phase : RoundPhase) (room : Room) → (open_street phase room).round ≡ next_round phase
unfolding open_street
open_street-round pre_flop room = deal_community-round (record room { round = flop }) 3
open_street-round flop room = deal_community-round (record room { round = turn }) 1
open_street-round turn room = deal_community-round (record room { round = river }) 1
open_street-round _ room = refl

need-next :
    (phase : RoundPhase)
    → is_showdown (next_round phase) ≡ false
    → need (next_round phase) + 1 ≤ need phase
need-next pre_flop h = omega arith
need-next flop h = omega arith
need-next turn h = omega arith
need-next _ h = absurd (ground arith)

prepared-round :
    (env : Env) (room : Room) (first : ℕ)
    → (broadcast_game env (init_pending_action env room first)).round ≡ room.round
unfolding broadcast_game init_pending_action emit_room_event append_room_event
prepared-round env room first = refl

proceed_with-Settled :
    (request : Room → Room) (env : Env) (fuel : ℕ)
    → ((r : Room) → need r.round ≤ fuel → Settled env (request r))
    → (room : Room) → need room.round ≤ suc fuel
    → Settled env (proceed_with request env room)
unfolding proceed_with
proceed_with-Settled request env fuel keep_going room h =
    let opened = open_street room.round (clear_bets room) in
    let at : opened.round ≡ next_round room.round =
      open_street-round room.round (clear_bets room) in
    elim (Bool-cases (is_showdown opened.round)) [
      | inl e ↦ rw e (inl (finish_hand-round env opened))
      | inr e ↦
          let first = get_active_offset env opened opened.dealer_seat_idx 1 in
          let ready = broadcast_game env (init_pending_action env opened first) in
          let same : ready.round ≡ next_round room.round = prepared-round env opened first ∙ at in
          let open_round : is_showdown (next_round room.round) ≡ false =
            ap is_showdown (sym at) ∙ e in
          rw e (keep_going ready (omega (arith, ap need same, need-next room.round open_round)))
    ]

pending_active :
    (r : Room) (k : ℕ)
    → is_pending_turn r ≡ true
    → r.active_seat_idx ≡ some k
    → member k r.pending_action_seats ≡ true
pending_active r k h e = ground arith

chosen_found : (b : Bool) (o : Option ℕ) (k : ℕ) → (if b then none else o) ≡ some k → o ≡ some k
chosen_found true o k h = absurd (ground arith)
chosen_found false o k h = h

-- The turn that `settle_turn` leaves is pending.
settle_turn-pending :
    (room : Room) (k : ℕ)
    → (settle_turn room).active_seat_idx ≡ some k
    → member k (settle_turn room).pending_action_seats ≡ true
unfolding settle_turn choose_next_actor
settle_turn-pending room k h =
    let pruned = remove_ineligible_from_pending room in
    let again = remove_ineligible_from_pending pruned in
    elim (Bool-cases (is_pending_turn pruned)) [
      | inl e ↦ rw e (pending_active pruned k e (rw e at h))
      | inr e ↦ rw e (
          next_seat_clockwise-passes _ (λ idx. member idx again.pending_action_seats) k
            (chosen_found (is_empty again.pending_action_seats) _ k (rw e at h)))
    ]

settle_turn-timer : (room : Room) → (settle_turn room).ai_timer ≡ room.ai_timer
unfolding settle_turn choose_next_actor remove_ineligible_from_pending
settle_turn-timer room = elim (Bool-cases (is_pending_turn (remove_ineligible_from_pending room))) [
  | inl e ↦ rw e
  | inr e ↦ rw e
]

settle_turn-round : (room : Room) → (settle_turn room).round ≡ room.round
unfolding settle_turn choose_next_actor remove_ineligible_from_pending
settle_turn-round room = elim (Bool-cases (is_pending_turn (remove_ineligible_from_pending room))) [
  | inl e ↦ rw e
  | inr e ↦ rw e
]

announce_turn-Waits :
    (env : Env) (room : Room) (k : ℕ)
    → room.active_seat_idx ≡ some k
    → member k room.pending_action_seats ≡ true
    → room.ai_timer ≡ none
    → Waits env (announce_turn env room k)
unfolding announce_turn broadcast_game emit_room_event append_room_event
announce_turn-Waits env room k a m t = elim (Bool-cases (is_machine env (seat_at room k))) [
  | inl e ↦ rw e (k, a, m, rw e)
  | inr e ↦ rw e (k, a, m, rw e t)
]

request_with-Settled :
    (proceed : Room → Room) (env : Env) (room : Room)
    → ((r : Room) → r.round ≡ room.round → Settled env (proceed r))
    → Settled env (request_with proceed env room)
unfolding request_with
request_with-Settled proceed env room go =
    let stopped = record room { ai_timer = none } in
    let ready = settle_turn stopped in
    elim (Bool-cases (leb (length (get_in_hand_seats env stopped)) 1)) [
      | inl e ↦ rw e (inl (finish_hand-round env stopped))
      | inr e ↦ elim (Bool-cases (is_empty (get_actable_seats env stopped))) [
        | inl a ↦ rw (e, a) (inl (finish_hand-round env (record stopped { round = showdown })))
        | inr a ↦ elim (Option-cases ready.active_seat_idx) [
          | inl n ↦ rw (e, a, n) (go ready (settle_turn-round stopped))
          | inr (k, n) ↦
              rw (e, a, n)
                (inr (
                  announce_turn-Waits env ready k n (settle_turn-pending stopped k n)
                    (settle_turn-timer stopped)))
        ]
      ]
    ]

need-pos : (phase : RoundPhase) → need phase ≤ 0 → ⊥
need-pos pre_flop h = omega arith
need-pos flop h = omega arith
need-pos turn h = omega arith
need-pos _ h = omega arith

need_max : (phase : RoundPhase) → need phase ≤ street_fuel
need_max pre_flop = omega arith
need_max flop = omega arith
need_max turn = omega arith
need_max _ = omega arith

request_turn_fuel-Settled :
    (fuel : ℕ) (env : Env) (room : Room)
    → need room.round ≤ fuel
    → Settled env (request_turn_fuel fuel env room)
unfolding request_turn_fuel
request_turn_fuel-Settled zero env room h = absurd (need-pos room.round h)
request_turn_fuel-Settled (suc fuel) env room h =
    request_with-Settled (proceed_with (request_turn_fuel fuel env) env) env room λ r e.
      proceed_with-Settled (request_turn_fuel fuel env) env fuel
        (request_turn_fuel-Settled fuel env) r (omega (arith, ap need e))

-- `request_turn` comes to an end from every room: the hand is over, or it waits for one seat,
-- which has the turn and is pending, and whose timer runs exactly if a machine plays it.
pub request_turn-Settled : (env : Env) (room : Room) → Settled env (request_turn env room)
unfolding request_turn
request_turn-Settled env room = request_turn_fuel-Settled street_fuel env room (need_max room.round)

-- So does `proceed_to_next_street`.
pub proceed_to_next_street-Settled :
    (env : Env) (room : Room) → Settled env (proceed_to_next_street env room)
unfolding proceed_to_next_street
proceed_to_next_street-Settled env room =
    proceed_with-Settled (request_turn_fuel street_fuel env) env street_fuel
      (request_turn_fuel-Settled street_fuel env) room (omega (arith, need_max room.round))
