-- ===== src/Table/Chips/Pots.antt =====
-- Settling the pots of a showdown: a pot is paid out in full if one of the seats that may win it
-- is still in the hand, and is lost otherwise.
use dezhou.Prelude.{
  ℕ, ◌+◌, ◌<◌, ◌≡◌, refl, ◌∙◌, Bool, true, false, ◌&&◌, List, [], ◌∷◌, arith, All, All-map, length,
  inl, inr, ◌⊎◌, Bool-cases, Option, some, none, sum_of, keep, any_of, is_empty, map, if◌then◌else◌,
  ◌==◌, ==_refl, ==_iff,
}
use Prim.Native.String.{String}
use dezhou.Prelude.Sets.{member}
use dezhou.Engine.Pots.{Pot}
use dezhou.Engine.Evaluator.{compare_hands, is_zero, is_positive}
use dezhou.Engine.Evaluator.Order.{compare_hands_refl}
use dezhou.Table.State.{PlayerState, Env}
use dezhou.Table.Events.{broadcast_activity, emit_room_event, append_room_event}
use dezhou.Table.Settle.{
  Settlement, EvalRow, settle_pot, settle_pots, best_row, winning_seats, has_row,
}
use dezhou.Table.Chips.Payout.{players_of, Seated, Pays, Pays-refl, Pays-trans, split_pot-Pays}

abbrev wins : List ℕ → EvalRow → EvalRow → Bool
wins eligible best row = member row.seat_idx eligible && is_zero (compare_hands row.hand best.hand)

-- The best row is itself among the winning rows.
best_row-wins :
    (eligible : List ℕ) (acc : Option EvalRow) (rows : List EvalRow) (b : EvalRow)
    → best_row eligible acc rows ≡ some b
    → (acc ≡ some b) ⊎ (any_of (wins eligible b) rows ≡ true)
unfolding best_row
best_row-wins eligible acc [] b h = inl h
best_row-wins eligible none (row ∷ rows) b h = ground (
  arith,
  best_row-wins eligible (if member row.seat_idx eligible then some row else none) rows b h,
  compare_hands_refl row.hand,
)
best_row-wins eligible (some a) (row ∷ rows) b h = ground (
  arith,
  best_row-wins eligible
      (some (
        if member row.seat_idx eligible && is_positive (compare_hands row.hand a.hand)
        then row
        else a))
      rows b h,
  compare_hands_refl row.hand,
)

best_row-some :
    (eligible : List ℕ) (a : EvalRow) (rows : List EvalRow)
    → (b : EvalRow) × (best_row eligible (some a) rows ≡ some b)
unfolding best_row
best_row-some eligible a [] = (a, refl)
best_row-some eligible a (row ∷ rows) =
    best_row-some eligible
      (if member row.seat_idx eligible && is_positive (compare_hands row.hand a.hand)
        then row
        else a)
      rows

best_row_exists :
    (eligible : List ℕ) (rows : List EvalRow)
    → any_of (λ row. member row.seat_idx eligible) rows ≡ true
    → (b : EvalRow) × (best_row eligible none rows ≡ some b)
unfolding best_row
best_row_exists eligible [] h = absurd (ground arith)
best_row_exists eligible (row ∷ rows) h = elim (Bool-cases (member row.seat_idx eligible)) [
  | inl e ↦ rw e (best_row-some eligible row rows)
  | inr e ↦ rw e (best_row_exists eligible rows (ground (arith, h, e)))
]

member_row :
    (x : ℕ) (eligible : List ℕ) (rows : List EvalRow)
    → has_row rows x ≡ true
    → member x eligible ≡ true
    → any_of (λ row. member row.seat_idx eligible) rows ≡ true
member_row x eligible [] h m = h
member_row x eligible (row ∷ rows) h m = elim (Bool-cases (row.seat_idx == x)) [
  | inl e ↦ let same : row.seat_idx ≡ x = (==_iff _ x).0 e in rw (same, m)
  | inr e ↦ ground (arith, member_row x eligible rows (ground (arith, h, e)) m)
]

eligible_row :
    (xs : List ℕ) (rows : List EvalRow)
    → is_empty (keep (has_row rows) xs) ≡ false
    → any_of (λ row. member row.seat_idx (keep (has_row rows) xs)) rows ≡ true
eligible_row [] rows h = absurd (ground arith)
eligible_row (x ∷ xs) rows h = elim (Bool-cases (has_row rows x)) [
  | inl e ↦ rw e (member_row x (x ∷ keep (has_row rows) xs) rows e (ground (arith, ==_refl x)))
  | inr e ↦ rw e (eligible_row xs rows (rw e at h))
]

kept {ℓ} :
    {A : Type ℓ} (p : A → Bool) (f : A → ℕ) (xs : List A)
    → any_of p xs ≡ true
    → 0 < length (map f (keep p xs))
kept p f [] h = absurd (ground arith)
kept p f (x ∷ xs) h = elim (Bool-cases (p x)) [
  | inl e ↦ rw e (omega arith)
  | inr e ↦ rw e (kept p f xs (ground (arith, h, e)))
]

abbrev pub RowsSeated : List (ℕ × PlayerState) → List EvalRow → Type 0
RowsSeated m = All (λ row. Seated m row.seat_idx)

winners-Seated :
    (m : List (ℕ × PlayerState)) (p : EvalRow → Bool) (rows : List EvalRow)
    → RowsSeated m rows
    → All (Seated m) (map (λ row. row.seat_idx) (keep p rows))
winners-Seated m p [] h = tt
winners-Seated m p (row ∷ rows) h = elim (Bool-cases (p row)) [
  | inl e ↦ rw e (h.0, winners-Seated m p rows h.1)
  | inr e ↦ rw e (winners-Seated m p rows h.1)
]

-- What a pot pays out: all or nothing.
abbrev pub payout : List EvalRow → Pot → ℕ
payout evals pot =
    if is_empty (keep (has_row evals) pot.eligible_seat_indices) then 0 else pot.amount

pub settle_pot-Pays :
    (env : Env) (evals : List EvalRow) (side : Bool) (index : ℕ) (pot : Pot) (st : Settlement)
    (desc : String)
    → RowsSeated (players_of st) evals
    → Pays
        (payout evals pot)
        (players_of st)
        (players_of (settle_pot env evals side index pot (st, desc)).0)
unfolding settle_pot broadcast_activity emit_room_event append_room_event
settle_pot-Pays env evals side index pot st desc h =
    let eligible = keep (has_row evals) pot.eligible_seat_indices in
    elim (Bool-cases (is_empty eligible)) [
      | inl e ↦ rw e (Pays-refl (players_of st))
      | inr e ↦
          let (best, found) =
            best_row_exists eligible evals (eligible_row pot.eligible_seat_indices evals e) in
          let any_winner : any_of (wins eligible best) evals ≡ true =
            ground (arith, best_row-wins eligible none evals best found) in
          let some_winner = kept (wins eligible best) (λ row. row.seat_idx) evals any_winner in
          let nonempty : is_empty (winning_seats eligible best evals) ≡ false =
            ground (arith, some_winner) in
          rw (e, found, nonempty)
            (split_pot-Pays pot (winning_seats eligible best evals) st some_winner
              (winners-Seated (players_of st) (wins eligible best) evals h))
    ]

RowsSeated-Pays :
    (n : ℕ) (a b : List (ℕ × PlayerState)) (rows : List EvalRow)
    → Pays n a b
    → RowsSeated a rows
    → RowsSeated b rows
RowsSeated-Pays n a b rows p =
    All-map (λ row. Seated a row.seat_idx) (λ row. Seated b row.seat_idx) rows
      (λ row h. p.seated row.seat_idx ∙ h)

pub settle_pots-Pays :
    (env : Env) (evals : List EvalRow) (side : Bool) (index : ℕ) (pots : List Pot)
    (st : Settlement × String)
    → RowsSeated (players_of st.0) evals
    → Pays
        (sum_of (payout evals) pots)
        (players_of st.0)
        (players_of (settle_pots env evals side index pots st).0)
unfolding settle_pots
settle_pots-Pays env evals side index [] st h = Pays-refl (players_of st.0)
settle_pots-Pays env evals side index (pot ∷ pots) st h =
    let first = settle_pot-Pays env evals side index pot st.0 st.1 h in
    let next = settle_pot env evals side index pot st in
    Pays-trans (payout evals pot) (sum_of (payout evals) pots) _ _ _ first (
      settle_pots-Pays env evals side (index + 1) pots next
        (RowsSeated-Pays (payout evals pot) (players_of st.0) (players_of next.0) evals first h))
