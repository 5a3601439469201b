-- ===== src/Table/Frame/Money.antt =====
-- Dealing to the board and the end of a hand keep the frame.
use Prim.Native.String.{String}
use dezhou.Prelude.{
  ℕ, zero, suc, ◌+◌, ◌/◌, ◌%◌, Bool, not, ◌&&◌, ltb, refl, List, [], ◌∷◌, if-cases, elim-cases,
  is_empty, keep, length, none,
}
use dezhou.Engine.Cards.{Card}
use dezhou.Engine.RoundPhase.{hand_over}
use dezhou.Engine.Pots.{Pot}
use dezhou.Table.State.{Room, Env}
use dezhou.Table.Deal.{deal_community, pop_back}
use dezhou.Table.Settle.{
  Settlement, EvalRow, award, award_shares, award_odd_chips, split_pot, settle_pot, settle_pots,
  fill_board, settle_single, settle_showdown, close_hand, send_hand_over, settle, finish_hand,
  track_pot, has_row, best_row, winning_seats,
}
use dezhou.Table.Frame.{
  Frames, quiet, and_then, broadcast_activity-Frames, emit_room_event-Frames, broadcast_game-Frames,
}

pub deal_community-Frames : (room : Room) (n : ℕ) → Frames room (deal_community room n)
unfolding deal_community
deal_community-Frames room zero = quiet room refl refl
deal_community-Frames room (suc n) =
    elim-cases (Frames room) (pop_back room.deck) _ _ (λ e. quiet room refl refl)
      λ d e.
        and_then (quiet (record room { deck = d.1; community_cards = _ }) refl refl)
          (deal_community-Frames _ n)

award_shares-Frames :
    (share : ℕ) (is : List ℕ) (st : Settlement) → Frames st.room (award_shares share is st).room
unfolding award_shares award
award_shares-Frames share [] st = quiet st.room refl refl
award_shares-Frames share (i ∷ is) st =
    and_then (quiet (award i share st).room refl refl) (award_shares-Frames share is _)

award_odd_chips-Frames :
    (n : ℕ) (is : List ℕ) (st : Settlement) → Frames st.room (award_odd_chips n is st).room
unfolding award_odd_chips award
award_odd_chips-Frames zero is st = quiet st.room refl refl
award_odd_chips-Frames (suc n) [] st = quiet st.room refl refl
award_odd_chips-Frames (suc n) (i ∷ is) st =
    and_then (quiet (award i 1 st).room refl refl) (award_odd_chips-Frames n is _)

split_pot-Frames :
    (pot : Pot) (winners : List ℕ) (st : Settlement)
    → Frames st.room (split_pot pot winners st).room
unfolding split_pot
split_pot-Frames pot winners st =
    and_then (award_shares-Frames (pot.amount / length winners) winners st)
      (award_odd_chips-Frames (pot.amount % length winners) _ _)

settle_pot-Frames :
    (env : Env) (evals : List EvalRow) (side : Bool) (index : ℕ) (pot : Pot)
    (st : Settlement × String)
    → Frames st.0.room (settle_pot env evals side index pot st).0.room
unfolding settle_pot
settle_pot-Frames env evals side index pot (st, desc) =
    let P = λ (r : Settlement × String). Frames st.room r.0.room in
    let eligible = keep (has_row evals) pot.eligible_seat_indices in
    let still_room = quiet st.room refl refl in
    if-cases P (is_empty eligible) (st, desc) _ (λ h. still_room)
      λ h.
        elim-cases P (best_row eligible none evals) (st, desc) _ (λ h. still_room)
          λ best h.
            let winners = winning_seats eligible best evals in
            if-cases P (is_empty winners) (st, desc) _ (λ h. still_room)
              λ h. and_then (split_pot-Frames pot winners st) (broadcast_activity-Frames env _ _)

settle_pots-Frames :
    (env : Env) (evals : List EvalRow) (side : Bool) (index : ℕ) (pots : List Pot)
    (st : Settlement × String)
    → Frames st.0.room (settle_pots env evals side index pots st).0.room
unfolding settle_pots
settle_pots-Frames env evals side index [] st = quiet st.0.room refl refl
settle_pots-Frames env evals side index (pot ∷ pots) st =
    and_then (settle_pot-Frames env evals side index pot st)
      (settle_pots-Frames env evals side (index + 1) pots _)

fill_board-Frames : (fuel : ℕ) (room : Room) → Frames room (fill_board fuel room)
unfolding fill_board
fill_board-Frames zero room = quiet room refl refl
fill_board-Frames (suc fuel) room =
    if-cases (Frames room) (ltb (length room.community_cards) 5 && not (is_empty room.deck)) _ _
      (λ h. and_then (deal_community-Frames room 1) (fill_board-Frames fuel _))
      (λ h. quiet room refl refl)

settle_single-Frames :
    (env : Env) (room : Room) (winner : ℕ) (pots : List Pot)
    → Frames room (settle_single env room winner pots).0.room
unfolding settle_single award
settle_single-Frames env room winner pots =
    and_then (quiet (award winner _ (record { room = room; winner_order = [] })).room refl refl)
      (broadcast_activity-Frames env _ _)

settle_showdown-Frames :
    (env : Env) (room : Room) (in_hand : List ℕ) (pots : List Pot)
    → Frames room (settle_showdown env room in_hand pots).0.room
unfolding settle_showdown
settle_showdown-Frames env room in_hand pots =
    and_then (fill_board-Frames 5 room) (settle_pots-Frames env _ _ 0 pots _)

close_hand-Frames :
    (env : Env) (cards : List (ℕ × List Card)) (st : Settlement × String)
    → Frames st.0.room (close_hand env cards st)
unfolding close_hand send_hand_over
close_hand-Frames env cards (st, desc) =
    and_then (quiet (record (st.room) { pot = 0; round = hand_over; hand_history = _ }) refl refl)
      (and_then (emit_room_event-Frames env _ _) (broadcast_game-Frames env _))

settle-Frames : (env : Env) (room : Room) (is : List ℕ) → Frames room (settle env room is)
unfolding settle
settle-Frames env room [] = close_hand-Frames env [] _
settle-Frames env room (i ∷ []) =
    and_then (quiet (track_pot room) refl refl)
      (and_then (settle_single-Frames env (track_pot room) i _) (close_hand-Frames env _ _))
settle-Frames env room (i ∷ j ∷ is) = and_then (quiet (track_pot room) refl refl) (
    and_then (settle_showdown-Frames env (track_pot room) (i ∷ j ∷ is) _)
      (close_hand-Frames env _ _))

pub finish_hand-Frames : (env : Env) (room : Room) → Frames room (finish_hand env room)
unfolding finish_hand
finish_hand-Frames env room =
    and_then
      (quiet (record room { ai_timer = none; pending_action_seats = []; active_seat_idx = none })
        refl refl)
      (settle-Frames env _ _)
