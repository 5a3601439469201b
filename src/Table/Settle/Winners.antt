-- ===== src/Table/Settle/Winners.antt =====
-- Who wins a pot: the rows that `best_row` and `winning_seats` pick.
use dezhou.Prelude.{
  ℕ, ◌<◌, ◌≡◌, ap, Bool, true, false, ◌&&◌, inl, inr, Bool-cases, List, [], ◌∷◌, none, some, length,
  All, All-map, arith, subst,
}
use dezhou.Prelude.Sets.{member}
use dezhou.Engine.Evaluator.{compare_hands, is_zero}
use dezhou.Engine.Evaluator.Order.{beats, IsShaped, beats_trans, beats_asymm, compare_hands_refl}
use dezhou.Table.Settle.{EvalRow, best_row, winning_seats}

abbrev pub takes_part : List ℕ → EvalRow → Bool
takes_part eligible row = member row.seat_idx eligible

abbrev pub AllShaped : List EvalRow → Type 0
AllShaped = All (λ row. IsShaped 5 row.hand)

-- A row that takes part does not beat the row `best`.
abbrev pub IsUnbeatenBy : List ℕ → EvalRow → EvalRow → Type 0
IsUnbeatenBy eligible best row = takes_part eligible row ≡ true → beats row.hand best.hand ≡ false

-- What the loop ends in, from a best row on.
record Kept (eligible : List ℕ) (P : EvalRow → Type 0) (best : EvalRow) (rows : List EvalRow)
    (r : EvalRow) : Type 0 where
  not_worse : beats best.hand r.hand ≡ false
  unbeaten : All (IsUnbeatenBy eligible r) rows
  shaped : IsShaped 5 r.hand
  picked : P r

not_self : (row : EvalRow) → beats row.hand row.hand ≡ false
not_self row = elim (Bool-cases (beats row.hand row.hand)) [
  | inl e ↦ beats_asymm row.hand row.hand e
  | inr e ↦ e
]

some_row : (a b : EvalRow) → some a ≡ some b → a ≡ b
some_row a b h = ap (λ o. elim o [ none ↦ a | some c ↦ c ]) h

best_row-Kept :
    (eligible : List ℕ) (P : EvalRow → Type 0) (best : EvalRow) (rows : List EvalRow) (r : EvalRow)
    → IsShaped 5 best.hand
    → AllShaped rows
    → P best
    → All (λ row. takes_part eligible row ≡ true → P row) rows
    → best_row eligible (some best) rows ≡ some r
    → Kept eligible P best rows r
unfolding best_row
best_row-Kept eligible P best [] r s all p ps h =
    let same = some_row best r h in
    record {
      not_worse = subst (λ q. beats best.hand q.hand ≡ false) same (not_self best);
      unbeaten = tt;
      shaped = subst (λ q. IsShaped 5 q.hand) same s;
      picked = subst P same p;
    }
best_row-Kept eligible P best (row ∷ rows) r s all p ps h =
    elim (Bool-cases (takes_part eligible row)) [
      | inr out ↦
          let k = best_row-Kept eligible P best rows r s all.1 p ps.1 (rw out at h) in
          record {
            not_worse = k.not_worse;
            unbeaten = (λ e. absurd (ground (arith, e, out)), k.unbeaten);
            shaped = k.shaped;
            picked = k.picked;
          }
      | inl here ↦ elim (Bool-cases (beats row.hand best.hand)) [
        | inl better ↦
            let k =
              best_row-Kept eligible P row rows r all.0 all.1 (ps.0 here) ps.1
                (rw (here, better) at h) in
            record {
              not_worse =
                  beats_trans 5 best.hand row.hand r.hand s all.0 k.shaped
                    (beats_asymm row.hand best.hand better) k.not_worse;
              unbeaten = (λ e. k.not_worse, k.unbeaten);
              shaped = k.shaped;
              picked = k.picked;
            }
        | inr worse ↦
            let k = best_row-Kept eligible P best rows r s all.1 p ps.1 (rw (here, worse) at h) in
            record {
              not_worse = k.not_worse;
              unbeaten = (
                λ e. beats_trans 5 row.hand best.hand r.hand all.0 s k.shaped worse k.not_worse,
                k.unbeaten,
              );
              shaped = k.shaped;
              picked = k.picked;
            }
      ]
    ]

best_row-picks :
    (eligible : List ℕ) (P : EvalRow → Type 0) (rows : List EvalRow) (r : EvalRow)
    → AllShaped rows
    → All (λ row. takes_part eligible row ≡ true → P row) rows
    → best_row eligible none rows ≡ some r
    → All (IsUnbeatenBy eligible r) rows × P r
unfolding best_row
best_row-picks eligible P [] r all ps h = absurd (ground arith)
best_row-picks eligible P (row ∷ rows) r all ps h = elim (Bool-cases (takes_part eligible row)) [
  | inr out ↦
      let (rest, p) = best_row-picks eligible P rows r all.1 ps.1 (rw out at h) in
      ((λ e. absurd (ground (arith, e, out)), rest), p)
  | inl here ↦
      let k = best_row-Kept eligible P row rows r all.0 all.1 (ps.0 here) ps.1 (rw here at h) in
      ((λ e. k.not_worse, k.unbeaten), k.picked)
]

-- A row that takes part wins against itself.
some_winner :
    (eligible : List ℕ) (rows : List EvalRow)
    → All
        (λ row. takes_part eligible row ≡ true → 0 < length (winning_seats eligible row rows))
        rows
some_winner eligible [] = tt
some_winner eligible (row ∷ rows) = (
  λ e. let equal = compare_hands_refl row.hand in rw (e, equal) (omega arith),
  All-map (λ r. takes_part eligible r ≡ true → 0 < length (winning_seats eligible r rows))
      (λ r. takes_part eligible r ≡ true → 0 < length (winning_seats eligible r (row ∷ rows))) rows
      (λ r more e.
        elim (Bool-cases (takes_part eligible row && is_zero (compare_hands row.hand r.hand))) [
          | inl too ↦ rw too (omega arith)
          | inr only ↦ rw only (more e)
        ])
      (some_winner eligible rows),
)

-- The row that a pot is decided by takes part in the pot, no row that takes part beats it, and at
-- least one seat wins the pot; all hands being of five cards.
pub best_row-IsUnbeatenBy :
    (eligible : List ℕ) (evals : List EvalRow) (best : EvalRow)
    → AllShaped evals
    → best_row eligible none evals ≡ some best
    → All (IsUnbeatenBy eligible best) evals
      × (takes_part eligible best ≡ true)
      × (0 < length (winning_seats eligible best evals))
best_row-IsUnbeatenBy eligible evals best all h =
    let (unbeaten, winner) =
      best_row-picks eligible
        (λ row. (takes_part eligible row ≡ true) × (0 < length (winning_seats eligible row evals)))
        evals best all
        (All-map
          (λ row. takes_part eligible row ≡ true → 0 < length (winning_seats eligible row evals)) _
          evals (λ row w e. (e, w e)) (some_winner eligible evals))
        h in
    (unbeaten, winner.0, winner.1)
