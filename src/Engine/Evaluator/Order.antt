-- ===== src/Engine/Evaluator/Order.antt =====
-- `compare_hands` as an order.
use dezhou.Prelude.{
  ℕ, zero, suc, ◌-◌, ◌≡◌, refl, ◌∙◌, ap, subst, Bool, true, false, ◌||◌, List, [], ◌∷◌, map, arith,
  ltb, leb, ◌==◌, if◌then◌else◌, Bool-cases, inl, inr, length, Option, some, none,
}
use dezhou.Prelude.Int.{pos, sub_ℕ}
use dezhou.Prelude.Sorting.{sort_by, length-sort_by}
use dezhou.Engine.Cards.{Card, HandEval}
use dezhou.Engine.Evaluator.{
  Freq, compare_values, compare_hands, is_positive, is_zero, classify, evaluate5, higher,
}

compare_values_refl : (xs : List ℕ) → is_zero (compare_values xs xs) ≡ true
unfolding compare_values
compare_values_refl [] = refl
compare_values_refl (x ∷ xs) = ground (arith, compare_values_refl xs)

pub compare_hands_refl : (h : HandEval) → is_zero (compare_hands h h) ≡ true
unfolding compare_hands
compare_hands_refl h = ground (arith, compare_values_refl h.value)

positive_pos : (n : ℕ) → is_positive (pos n) ≡ ltb 0 n
positive_pos zero = refl
positive_pos (suc n) = ground arith

positive_sub : (x y : ℕ) → is_positive (sub_ℕ x y) ≡ ltb y x
positive_sub x y = elim (Bool-cases (leb y x)) [
  | inl e ↦ rw e (positive_pos (x - y) ∙ ground (arith, e))
  | inr e ↦ rw e (ground (arith, e))
]

-- Whether the first list of values is the better one.
better_values : List ℕ → List ℕ → Bool
better_values xs ys = is_positive (compare_values xs ys)

better_cons :
    (x y : ℕ) (xs ys : List ℕ)
    → better_values (x ∷ xs) (y ∷ ys) ≡ (if x == y then better_values xs ys else ltb y x)
unfolding better_values compare_values
better_cons x y xs ys = ground (arith, positive_sub x y)

better_values_trans :
    (xs ys zs : List ℕ)
    → length xs ≡ length ys
    → length ys ≡ length zs
    → better_values xs ys ≡ false
    → better_values ys zs ≡ false
    → better_values xs zs ≡ false
better_values_trans [] [] [] a b h k = h
better_values_trans (x ∷ xs) (y ∷ ys) (z ∷ zs) a b h k = ground (
  arith,
  better_cons x y xs ys,
  better_cons y z ys zs,
  better_cons x z xs zs,
  better_values_trans xs ys zs (omega arith) (omega arith),
)
better_values_trans [] (y ∷ ys) zs a b h k = absurd (omega arith)
better_values_trans (x ∷ xs) [] zs a b h k = absurd (omega arith)
better_values_trans [] [] (z ∷ zs) a b h k = absurd (omega arith)
better_values_trans (x ∷ xs) (y ∷ ys) [] a b h k = absurd (omega arith)

better_nil : (xs : List ℕ) → better_values xs [] ≡ false
unfolding better_values compare_values
better_nil [] = refl
better_nil (x ∷ xs) = refl

better_values_asymm : (xs ys : List ℕ) → better_values xs ys ≡ true → better_values ys xs ≡ false
unfolding better_values compare_values
better_values_asymm [] ys h = better_nil ys
better_values_asymm (x ∷ xs) [] h = refl
better_values_asymm (x ∷ xs) (y ∷ ys) h =
    ground (arith, positive_sub x y, positive_sub y x, better_values_asymm xs ys)

-- Whether the first hand beats the second.
abbrev pub beats : HandEval → HandEval → Bool
beats a b = is_positive (compare_hands a b)

beats_lem :
    (a b : HandEval)
    → beats a b ≡ (if a.rank == b.rank then better_values a.value b.value else ltb b.rank a.rank)
unfolding compare_hands better_values
beats_lem a b = ground (arith, positive_sub a.rank b.rank)

-- How many values a hand of each rank carries, if it was made of `n` cards.
abbrev pub shape : ℕ → ℕ → ℕ
shape n rank =
    if rank == 10 || rank == 9 || rank == 5
    then 1
    else if rank == 8 || rank == 7
    then 2
    else if rank == 4 || rank == 3
    then 3
    else if rank == 2
    then 4
    else n

abbrev pub IsShaped : ℕ → HandEval → Type 0
IsShaped n h = length h.value ≡ shape n h.rank

classify-IsShaped :
    (ranks : List ℕ) (flush : Bool) (straight : Option ℕ) (freq : List Freq)
    → IsShaped (length ranks) (classify ranks flush straight freq)
unfolding classify
classify-IsShaped ranks flush (some top) freq = ground arith
classify-IsShaped ranks flush none freq = ground arith

length-map : (cards : List Card) → length (map (λ c. c.v) cards) ≡ length cards
length-map [] = refl
length-map (c ∷ cards) = ap suc (length-map cards)

pub evaluate5-IsShaped : (cards : List Card) → IsShaped (length cards) (evaluate5 cards)
unfolding evaluate5
evaluate5-IsShaped cards =
    subst (λ n. IsShaped n (evaluate5 cards))
      (length-map (sort_by higher cards) ∙ length-sort_by higher cards)
      (classify-IsShaped (map (λ c. c.v) (sort_by higher cards)) _ _ _)

-- Among hands of one shape, "does not beat" is transitive.
pub beats_trans :
    (n : ℕ) (a b c : HandEval)
    → IsShaped n a
    → IsShaped n b
    → IsShaped n c
    → beats a b ≡ false
    → beats b c ≡ false
    → beats a c ≡ false
beats_trans n a b c sa sb sc h k = ground (
  arith,
  beats_lem a b,
  beats_lem b c,
  beats_lem a c,
  better_values_trans a.value b.value c.value,
)

pub beats_asymm : (a b : HandEval) → beats a b ≡ true → beats b a ≡ false
beats_asymm a b h =
    ground (arith, beats_lem a b, beats_lem b a, better_values_asymm a.value b.value)
