-- ===== src/Table/Deal/Conserved.antt =====
-- Dealing loses no card and makes none.
use dezhou.Prelude.{
  ℕ, zero, suc, ◌+◌, ◌≡◌, refl, ap, ◌∙◌, inl, inr, Option-cases, List, [], ◌∷◌, ◌++◌, none, some,
  keep, sum_of, sum_of-append, arith,
}
use dezhou.Prelude.Maps.{adjust, sum_values, sum-adjust}
use dezhou.Engine.Cards.{Card}
use dezhou.Table.State.{Room, Env, PlayerState}
use dezhou.Table.Seats.{get_player, is_seat_eligible}
use dezhou.Table.Deal.{
  pop_back, take_card, deal_round, dealing_order, deal_hole_cards, deal_community,
}

-- The weight of all cards of a table: of the deck, of the board and of the hands. With the weight
-- 1 for one card and 0 for the others it is how often that card is on the table.
abbrev pub card_weight : (Card → ℕ) → Room → ℕ
card_weight w room =
    sum_of w room.deck
    + sum_of w room.community_cards
    + sum_values (λ p. sum_of w p.hand) room.players

some_eq {ℓ} : {A : Type ℓ} (a b : A) → some a ≡ some b → a ≡ b
some_eq a b h = ap (λ o. elim o [ none ↦ a | some c ↦ c ]) h

pop_back-none : (ys : List Card) → pop_back ys ≡ none → ys ≡ []
unfolding pop_back
pop_back-none [] h = refl
pop_back-none (y ∷ ys) h = elim (Option-cases (pop_back ys)) [
  | inl e ↦ let bad = rw e at h in absurd (ground (arith, bad))
  | inr (r, e) ↦ let bad = rw e at h in absurd (ground (arith, bad))
]

pop_back-sum :
    (w : Card → ℕ) (xs : List Card) (card : Card) (rest : List Card)
    → pop_back xs ≡ some (card, rest)
    → sum_of w xs ≡ sum_of w rest + w card
unfolding pop_back
pop_back-sum w [] card rest h = absurd (ground arith)
pop_back-sum w (x ∷ xs) card rest h = elim (Option-cases (pop_back xs)) [
  | inl e ↦
      let empty = pop_back-none xs e in
      let same = some_eq _ _ (rw e at h) in
      omega (arith, ap (sum_of w) empty, ap (λ c. w c.0) same, ap (λ c. sum_of w c.1) same)
  | inr ((last, front), e) ↦
      let same = some_eq _ _ (rw e at h) in
      omega
        (arith, pop_back-sum w xs last front e, ap (λ c. w c.0) same, ap (λ c. sum_of w c.1) same)
]

weight-take_card :
    (w : Card → ℕ) (room : Room) (i : ℕ) (card : Card) (p : PlayerState)
    → get_player room i ≡ some p
    → sum_values (λ q. sum_of w q.hand) (adjust i (take_card card) room.players)
      ≡ sum_values (λ q. sum_of w q.hand) room.players + w card
unfolding get_player
weight-take_card w room i card p e = omega (
  arith,
  sum-adjust (λ q. sum_of w q.hand) i (take_card card) room.players p e,
  sum_of-append w p.hand (card ∷ []),
)

deal_round-weight :
    (w : Card → ℕ) (is : List ℕ) (room : Room)
    → card_weight w (deal_round is room) ≡ card_weight w room
unfolding deal_round
deal_round-weight w [] room = refl
deal_round-weight w (i ∷ is) room = elim (Option-cases (get_player room i)) [
  | inl e ↦ rw (deal_round, e) (deal_round-weight w is room)
  | inr (p, e) ↦ elim (Option-cases (pop_back room.deck)) [
    | inl f ↦ rw (deal_round, e, f) (deal_round-weight w is room)
    | inr ((card, deck), f) ↦
        let dealt = record room { deck = deck; players = adjust i (take_card card) room.players } in
        let taken = weight-take_card w room i card p e in
        let one : card_weight w dealt ≡ card_weight w room =
          omega (arith, pop_back-sum w room.deck card deck f, taken) in
        rw (deal_round, e, f) (deal_round-weight w is dealt ∙ one)
  ]
]

-- Dealing the hole cards moves cards from the deck to the hands: whatever the cards weigh, the
-- table weighs the same, so no card is dealt twice and none is lost.
pub deal_hole_cards-weight :
    (w : Card → ℕ) (env : Env) (room : Room)
    → card_weight w (deal_hole_cards env room) ≡ card_weight w room
unfolding deal_hole_cards
deal_hole_cards-weight w env room =
    let eligible = keep (is_seat_eligible env room) (dealing_order room) in
    deal_round-weight w eligible (deal_round eligible room) ∙ deal_round-weight w eligible room

-- Dealing the board, however many cards are asked for, moves cards from the deck to the board:
-- whatever the cards weigh, the table weighs the same.
pub deal_community-weight :
    (w : Card → ℕ) (room : Room) (n : ℕ)
    → card_weight w (deal_community room n) ≡ card_weight w room
unfolding deal_community
deal_community-weight w room zero = refl
deal_community-weight w room (suc n) = elim (Option-cases (pop_back room.deck)) [
  | inl e ↦ rw (deal_community, e) refl
  | inr ((card, deck), e) ↦
      let dealt = record room {
        deck = deck;
        community_cards = room.community_cards ++ card ∷ [];
      } in
      let one : card_weight w dealt ≡ card_weight w room = omega (
        arith,
        pop_back-sum w room.deck card deck e,
        sum_of-append w room.community_cards (card ∷ []),
      ) in
      rw (deal_community, e) (deal_community-weight w dealt n ∙ one)
]
