-- ===== src/Table/Settle.antt =====
-- The end of a hand: `winners_by_odd_chip_priority`, `finish_hand` and `send_hand_over` of
-- backend-cpp/src/main.cpp. `awarded_by_seat` is written and never read, and is left out.
pub mod OddChips
pub mod Winners
use Prim.Native.String.{String}
use dezhou.Prelude.{
  ℕ, zero, suc, ◌+◌, ◌-◌, ◌/◌, ◌%◌, Bool, ◌&&◌, not, List, [], ◌∷◌, ◌++◌, map, Option, none, some,
  ltb, leb, ◌==◌, if◌then◌else◌, keep, any_of, is_empty, length, sum_of,
}
use dezhou.Prelude.Maps.{adjust}
use dezhou.Prelude.Sets.{member}
use dezhou.Prelude.Sorting.{sort_by}
use dezhou.Engine.Cards.{Card, HandEval}
use dezhou.Engine.RoundPhase.{hand_over}
use dezhou.Engine.Pots.{PotContributor, Pot, build_pots}
use dezhou.Engine.Evaluator.{best_hand, compare_hands, is_positive, is_zero}
use dezhou.Table.State.{
  Room, Env, PlayerState, Notice, Message, HandOver, WinnerInfo, MatchHandInfo, seat_at, k_seats,
}
use dezhou.Table.Events.{broadcast_activity, broadcast_game, emit_room_event}
use dezhou.Table.Seats.{get_player, get_in_hand_seats}
use dezhou.Table.Deal.{deal_community}

-- The distance of a seat from the first seat left of the dealer, clockwise.
abbrev pub odd_chip_distance : ℕ → ℕ → ℕ
odd_chip_distance dealer a = (a + k_seats - (dealer + 1) % k_seats) % k_seats

abbrev pub odd_chip_before : ℕ → ℕ → ℕ → Bool
odd_chip_before dealer a b =
    let da = odd_chip_distance dealer a in
    let db = odd_chip_distance dealer b in if not (da == db) then ltb da db else ltb a b

unfoldable pub winners_by_odd_chip_priority : Room → List ℕ → List ℕ
winners_by_odd_chip_priority room winners = sort_by (odd_chip_before room.dealer_seat_idx) winners

-- The hands that the message of the end of a hand shows.
unfoldable pub showdown_cards : Room → List ℕ → List (ℕ × List Card)
showdown_cards room [] = []
showdown_cards room (i ∷ is) =
    let rest = showdown_cards room is in
    elim (get_player room i) [
      | none ↦ rest
      | some p ↦ if leb 2 (length p.hand) then (i, p.hand) ∷ rest else rest
    ]

unfoldable pub send_hand_over : Env → Room → String → List WinnerInfo → List (ℕ × List Card) → Room
send_hand_over env room desc winners showdown =
    let msg : HandOver = record {
      hand_num = room.hand_num;
      total_hands = room.total_hands;
      desc = desc;
      winners = winners;
      showdown_hands =
          map (λ (i, cards). (record { seat_idx = i; name = (seat_at room i).name }, cards))
            showdown;
    } in
    let hist : MatchHandInfo = record {
      hand_num = room.hand_num;
      winners = winners;
      desc = desc;
    } in
    broadcast_game env (
      emit_room_event env (record room { hand_history = room.hand_history ++ hist ∷ [] })
        (Message.hand_over msg))

-- The players who put something in, in the order of the seats.
unfoldable pub contributors_of : List (ℕ × PlayerState) → List PotContributor
contributors_of [] = []
contributors_of ((i, p) ∷ m) =
    let rest = contributors_of m in
    if leb p.hand_contribution 0
    then rest
    else record {
      seat_idx = i;
      committed = p.hand_contribution;
      showdown_eligible = not p.is_folded;
    }
      ∷ rest

abbrev pub add_chips : ℕ → PlayerState → PlayerState
add_chips n p = record p { chips = p.chips + n }

-- What the settlement changes: the room, and `hand_winner_order`.
pub record Settlement : Type 0 where
  pub room : Room
  pub winner_order : List ℕ

abbrev pub note_winner : ℕ → ℕ → List ℕ → List ℕ
note_winner seat_idx amount order =
    if leb amount 0 then order else if member seat_idx order then order else order ++ seat_idx ∷ []

-- `if (p) p->chips += amount; note_winner(seat_idx, amount);`
unfoldable pub award : ℕ → ℕ → Settlement → Settlement
award seat_idx amount st = record {
  room = record (st.room) { players = adjust seat_idx (add_chips amount) st.room.players };
  winner_order = note_winner seat_idx amount st.winner_order;
}

unfoldable pub award_shares : ℕ → List ℕ → Settlement → Settlement
award_shares share [] st = st
award_shares share (i ∷ is) st = award_shares share is (award i share st)

-- One chip each until the odd chips are gone.
unfoldable pub award_odd_chips : ℕ → List ℕ → Settlement → Settlement
award_odd_chips zero is st = st
award_odd_chips (suc n) [] st = st
award_odd_chips (suc n) (i ∷ is) st = award_odd_chips n is (award i 1 st)

pub record EvalRow : Type 0 where
  pub seat_idx : ℕ
  pub hand : HandEval

unfoldable pub eval_rows : Room → List ℕ → List EvalRow
eval_rows room [] = []
eval_rows room (i ∷ is) =
    let rest = eval_rows room is in
    elim (get_player room i) [
      | none ↦ rest
      | some p ↦ record { seat_idx = i; hand = best_hand (p.hand ++ room.community_cards) } ∷ rest
    ]

abbrev pub has_row : List EvalRow → ℕ → Bool
has_row evals i = any_of (λ row. row.seat_idx == i) evals

-- The loop that looks for `best_row`.
unfoldable pub best_row : List ℕ → Option EvalRow → List EvalRow → Option EvalRow
best_row eligible best [] = best
best_row eligible none (row ∷ rows) =
    best_row eligible (if member row.seat_idx eligible then some row else none) rows
best_row eligible (some best) (row ∷ rows) =
    best_row eligible
      (some (
        if member row.seat_idx eligible && is_positive (compare_hands row.hand best.hand)
        then row
        else best))
      rows

abbrev pub winning_seats : List ℕ → EvalRow → List EvalRow → List ℕ
winning_seats eligible best evals =
    map (λ row. row.seat_idx)
      (keep (λ row. member row.seat_idx eligible && is_zero (compare_hands row.hand best.hand))
        evals)

-- The split of one pot among its winners, the first of them left of the dealer first.
unfoldable pub split_pot : Pot → List ℕ → Settlement → Settlement
split_pot pot winners st =
    award_odd_chips (pot.amount % length winners) (winners_by_odd_chip_priority st.room winners)
      (award_shares (pot.amount / length winners) winners st)

abbrev pub names_of : Room → List ℕ → List String
names_of room = map (λ i. (seat_at room i).name)

-- The body of the loop over the pots, with the description of the hand.
unfoldable pub settle_pot :
    Env → List EvalRow → Bool → ℕ → Pot → Settlement × String → Settlement × String
settle_pot env evals has_side_pots pot_index pot (st, desc) =
    let eligible = keep (has_row evals) pot.eligible_seat_indices in
    if is_empty eligible then (st, desc) else (elim (best_row eligible none evals) [
      | none ↦ (st, desc)
      | some best ↦
          (let winners = winning_seats eligible best evals in
            if is_empty winners
            then (st, desc)
            else (let paid = split_pot pot winners st in
                (
                  record paid {
                    room = broadcast_activity env paid.room (
                        Notice.wins_pot (names_of paid.room winners) pot_index pot.amount
                          best.hand.desc);
                  },
                  (if not has_side_pots && pot_index == 0
                      then best.hand.desc
                      else "Side pots settled"),
                )))
    ])

unfoldable pub settle_pots :
    Env → List EvalRow → Bool → ℕ → List Pot → Settlement × String → Settlement × String
settle_pots env evals side index [] st = st
settle_pots env evals side index (pot ∷ pots) st =
    settle_pots env evals side (index + 1) pots (settle_pot env evals side index pot st)

-- `while (community_cards.size() < 5 && !deck.empty()) deal_community(room, 1);` A round deals a
-- card, so five rounds are enough.
unfoldable pub fill_board : ℕ → Room → Room
fill_board zero room = room
fill_board (suc fuel) room =
    let rest = fill_board fuel (deal_community room 1) in
    if ltb (length room.community_cards) 5 && not (is_empty room.deck) then rest else room

abbrev pub winner_info : Room → ℕ → WinnerInfo
winner_info room i = record { seat_idx = i; name = (seat_at room i).name }

-- The last lines of `finish_hand`.
unfoldable pub close_hand : Env → List (ℕ × List Card) → Settlement × String → Room
close_hand env showdown (st, desc) =
    let room = record (st.room) { pot = 0; round = hand_over } in
    send_hand_over env room desc (map (winner_info room) st.winner_order) showdown

-- The branch of a single seat in the hand, which takes every pot.
unfoldable pub settle_single : Env → Room → ℕ → List Pot → Settlement × String
settle_single env room winner pots =
    let paid =
      award winner (sum_of (λ p. p.amount) pots) (record { room = room; winner_order = [] }) in
    (
      record paid {
        room = broadcast_activity env paid.room (Notice.others_folded (seat_at room winner).name);
      },
      "All others folded",
    )

-- The branch of a showdown.
unfoldable pub settle_showdown : Env → Room → List ℕ → List Pot → Settlement × String
settle_showdown env room in_hand pots =
    let board = fill_board 5 room in
    settle_pots env (eval_rows board in_hand) (ltb 1 (length pots)) 0 pots
      (record { room = board; winner_order = [] }, "All others folded")

-- `if (!contributors.empty()) room.pot = tracked_total_pot;`
abbrev pub track_pot : Room → Room
track_pot room =
    let contributors = contributors_of room.players in
    record room {
      pot = if is_empty contributors then room.pot else sum_of (λ c. c.committed) contributors;
    }

-- `finish_hand` from the list of the seats in the hand on.
unfoldable pub settle : Env → Room → List ℕ → Room
settle env room [] =
    close_hand env [] (record { room = room; winner_order = [] }, "No active players")
settle env room (winner ∷ []) =
    close_hand env (showdown_cards room (winner ∷ []))
      (settle_single env (track_pot room) winner (build_pots (contributors_of room.players)))
settle env room (i ∷ j ∷ is) =
    close_hand env (showdown_cards room (i ∷ j ∷ is)) (
      settle_showdown env (track_pot room) (i ∷ j ∷ is) (build_pots (contributors_of room.players)))

unfoldable pub finish_hand : Env → Room → Room
finish_hand env room =
    let stopped = record room {
      ai_timer = none;
      pending_action_seats = [];
      active_seat_idx = none;
    } in
    settle env stopped (get_in_hand_seats env stopped)
