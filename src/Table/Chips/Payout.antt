-- ===== src/Table/Chips/Payout.antt =====
-- Paying one pot out: how much is paid.
use native.Mathlib.Nat.{div-add-mod', mod-lt}
use dezhou.Prelude.{
  ℕ, zero, suc, ◌+◌, ◌*◌, ◌/◌, ◌%◌, ◌≤◌, ◌<◌, ◌≡◌, refl, ◌∙◌, true, List, [], ◌∷◌, arith, All,
  All-map, length, inl, inr, Option-cases,
}
use dezhou.Prelude.Maps.{has_key, has_key-adjust, sum-adjust, sum-adjust_same, find, adjust}
use dezhou.Prelude.Sorting.{length-sort_by, All-sort_by}
use dezhou.Engine.Pots.{Pot}
use dezhou.Table.State.{PlayerState}
use dezhou.Table.Settle.{
  Settlement, award, award_shares, award_odd_chips, split_pot, winners_by_odd_chip_priority,
  add_chips, odd_chip_before,
}
use dezhou.Table.Chips.{stacks, bets}

abbrev pub players_of : Settlement → List (ℕ × PlayerState)
players_of st = st.room.players

-- The seat has a player.
abbrev pub Seated : List (ℕ × PlayerState) → ℕ → Type 0
Seated m i = has_key i m ≡ true

-- A settlement pays `n` chips, keeps the bets and keeps who is seated.
pub record Pays (n : ℕ) (before after : List (ℕ × PlayerState)) : Type 0 where
  pub paid : stacks after ≡ stacks before + n
  pub kept : bets after ≡ bets before
  pub seated : (i : ℕ) → has_key i after ≡ has_key i before

pub Pays-trans :
    (m n : ℕ) (a b c : List (ℕ × PlayerState)) → Pays m a b → Pays n b c → Pays (m + n) a c
Pays-trans m n a b c p q = record {
  paid = omega (arith, p.paid, q.paid);
  kept = q.kept ∙ p.kept;
  seated = λ i. q.seated i ∙ p.seated i;
}

pub Pays-refl : (a : List (ℕ × PlayerState)) → Pays 0 a a
Pays-refl a = record { paid = omega arith; kept = refl; seated = λ i. refl }

pub Pays-eq : (m n : ℕ) (a b : List (ℕ × PlayerState)) → m ≡ n → Pays m a b → Pays n a b
Pays-eq m n a b e p = record { paid = omega (arith, p.paid, e); kept = p.kept; seated = p.seated }

stacks-add :
    (i n : ℕ) (m : List (ℕ × PlayerState))
    → Seated m i
    → stacks (adjust i (add_chips n) m) ≡ stacks m + n
stacks-add i n m h = elim (Option-cases (find i m)) [
  | inl e ↦ absurd (ground (arith, e))
  | inr (p, e) ↦ omega (arith, sum-adjust (λ q. q.chips) i (add_chips n) m p e)
]

pub award-Pays :
    (i n : ℕ) (st : Settlement)
    → Seated (players_of st) i
    → Pays n (players_of st) (players_of (award i n st))
unfolding award
award-Pays i n st h = record {
  paid = stacks-add i n (players_of st) h;
  kept = sum-adjust_same (λ p. p.hand_contribution) i (add_chips n) (players_of st) (λ p. refl);
  seated = λ j. has_key-adjust j i (add_chips n) (players_of st);
}

pub Seated-Pays :
    (n : ℕ) (a b : List (ℕ × PlayerState)) (is : List ℕ)
    → Pays n a b
    → All (Seated a) is
    → All (Seated b) is
Seated-Pays n a b is p = All-map (Seated a) (Seated b) is (λ i h. p.seated i ∙ h)

pub award_shares-Pays :
    (share : ℕ) (is : List ℕ) (st : Settlement)
    → All (Seated (players_of st)) is
    → Pays (share * length is) (players_of st) (players_of (award_shares share is st))
unfolding award_shares
award_shares-Pays share [] st h =
    Pays-eq 0 (share * 0) (players_of st) (players_of st) (omega arith) (Pays-refl (players_of st))
award_shares-Pays share (i ∷ is) st h =
    let first = award-Pays i share st h.0 in
    let rest =
      award_shares-Pays share is (award i share st)
        (Seated-Pays share (players_of st) (players_of (award i share st)) is first h.1) in
    Pays-eq (share + share * length is) (share * length (i ∷ is)) _ _ (omega arith)
      (Pays-trans share (share * length is) _ _ _ first rest)

award_odd_chips-Pays :
    (n : ℕ) (is : List ℕ) (st : Settlement)
    → n ≤ length is
    → All (Seated (players_of st)) is
    → Pays n (players_of st) (players_of (award_odd_chips n is st))
unfolding award_odd_chips
award_odd_chips-Pays zero is st h s = Pays-refl (players_of st)
award_odd_chips-Pays (suc n) [] st h s = absurd (omega arith)
award_odd_chips-Pays (suc n) (i ∷ is) st h s =
    let first = award-Pays i 1 st s.0 in
    let rest =
      award_odd_chips-Pays n is (award i 1 st) (omega arith)
        (Seated-Pays 1 (players_of st) (players_of (award i 1 st)) is first s.1) in
    Pays-eq (1 + n) (suc n) _ _ (omega arith) (Pays-trans 1 n _ _ _ first rest)

-- Splitting a pot among seated winners pays out all of it.
pub split_pot-Pays :
    (pot : Pot) (winners : List ℕ) (st : Settlement)
    → 0 < length winners
    → All (Seated (players_of st)) winners
    → Pays pot.amount (players_of st) (players_of (split_pot pot winners st))
unfolding split_pot winners_by_odd_chip_priority
split_pot-Pays pot winners st some_winner h =
    let n = length winners in
    let before = odd_chip_before st.room.dealer_seat_idx in
    let shares = award_shares-Pays (pot.amount / n) winners st h in
    let shared = award_shares (pot.amount / n) winners st in
    let seated =
      Seated-Pays (pot.amount / n * n) (players_of st) (players_of shared) winners shares h in
    let odd =
      award_odd_chips-Pays (pot.amount % n) (winners_by_odd_chip_priority st.room winners) shared
        (omega (arith, length-sort_by before winners, mod-lt pot.amount some_winner))
        (All-sort_by before (Seated (players_of shared)) winners seated) in
    Pays-eq (pot.amount / n * n + pot.amount % n) pot.amount _ _ (div-add-mod' pot.amount n)
      (Pays-trans (pot.amount / n * n) (pot.amount % n) _ _ _ shares odd)
