-- ===== src/Engine/Evaluator/Best.antt =====
-- `best_hand` finds the best five cards.
use mathlib.Core.List.{append_assoc}
use dezhou.Prelude.{
  ℕ, zero, suc, ◌+◌, ◌≤◌, ◌<◌, ◌≡◌, refl, sym, subst, ◌∙◌, ap, true, false, List, [], ◌∷◌, ◌++◌,
  arith, ◌==◌, if◌then◌else◌, Bool-cases, inl, inr, ◌⊎◌, length, ==_iff, some, none, All,
  All-append, All-append_left, All-append_right, All-map, length-append,
}
use dezhou.Prelude.Int.{ℤ, pos, negsuc}
use dezhou.Engine.Cards.{Card, HandEval, empty_eval}
use dezhou.Engine.Evaluator.{
  choose, combinations, evaluate5, best_of, best_hand, is_positive, is_zero, compare_hands,
}
use dezhou.Engine.Evaluator.Order.{
  compare_hands_refl, beats, beats_trans, beats_asymm, IsShaped, evaluate5-IsShaped,
}

-- `Picks c xs`: the cards `c` are some of `xs`, in the same order.
pub data Picks {ℓ} {A : Type ℓ} : List A → List A → Type ℓ where
  nothing : Picks [] []
  skip : {x : A} {c xs : List A} → Picks c xs → Picks c (x ∷ xs)
  take : {x : A} {c xs : List A} → Picks c xs → Picks (x ∷ c) (x ∷ xs)

nil_of_length {ℓ} : {A : Type ℓ} (xs : List A) → length xs ≡ 0 → xs ≡ []
nil_of_length [] h = refl
nil_of_length (x ∷ xs) h = absurd (omega arith)

-- What holds of every choice of the loop holds of every way to complete `current`.
choose-All {ℓ κ} :
    {A : Type ℓ} (P : List A → Type κ) (k : ℕ) (current : List A) {c xs : List A}
    → Picks c xs
    → All P (choose k current xs)
    → 0 < length c
    → length current + length c ≡ k
    → P (current ++ c)
unfolding choose
choose-All P k current nothing h e n = absurd (omega arith)
choose-All P k current (skip {x = x} {c = c} {xs = xs} s) h e n =
    choose-All P k current s (All-append_right P _ (choose k current xs) h) e n
choose-All {A = A} P k current (take {x = x} {c = c} {xs = xs} s) h e n =
    let taken : List A = current ++ x ∷ [] in
    let size : length taken ≡ length current + 1 = length-append current (x ∷ []) in
    let left =
      All-append_left P (if length taken == k then taken ∷ [] else choose k taken xs) _ h in
    elim (Bool-cases (length taken == k)) [
      | inl full ↦
          let whole : P taken = (rw full at left).0 in
          let k_eq = (==_iff (length taken) k).0 full in
          let last : c ≡ [] = nil_of_length c (omega (arith, k_eq, size)) in
          subst (λ r. P (current ++ x ∷ r)) (sym last) whole
      | inr more ↦
          let deeper : All P (choose k taken xs) = rw more at left in
          let rest : 0 < length c = ground (arith, more, size, n) in
          subst P (append_assoc current (x ∷ []) c)
            (choose-All P k taken s deeper rest (omega (arith, size, n)))
    ]

-- A choice has `k` cards.
choose-length {ℓ} :
    {A : Type ℓ} (k : ℕ) (current xs : List A) → All (λ c. length c ≡ k) (choose k current xs)
unfolding choose
choose-length k current [] = tt
choose-length {A = A} k current (x ∷ xs) =
    let taken : List A = current ++ x ∷ [] in
    All-append (λ c. length c ≡ k) (if length taken == k then taken ∷ [] else choose k taken xs) _
      (elim (Bool-cases (length taken == k)) [
        | inl full ↦ rw full ((==_iff (length taken) k).0 full, tt)
        | inr more ↦ rw more (choose-length k taken xs)
      ])
      (choose-length k current xs)

-- A choice completes `current` by some of `xs`.
Completes {ℓ} : {A : Type ℓ} (current xs c : List A) → Type ℓ
Completes current xs c = (d : _) × Picks d xs × (c ≡ current ++ d)

none_picked {ℓ} : {A : Type ℓ} (xs : List A) → Picks [] xs
none_picked [] = nothing
none_picked (x ∷ xs) = skip (none_picked xs)

choose-Completes {ℓ} :
    {A : Type ℓ} (k : ℕ) (current xs : List A) → All (Completes current xs) (choose k current xs)
unfolding choose Completes
choose-Completes k current [] = tt
choose-Completes {A = A} k current (x ∷ xs) =
    let taken : List A = current ++ x ∷ [] in
    let here : All (Completes current (x ∷ xs))
        (if length taken == k then taken ∷ [] else choose k taken xs) =
      elim (Bool-cases (length taken == k)) [
        | inl full ↦ rw full ((x ∷ [], take (none_picked xs), refl), tt)
        | inr more ↦ rw more (
            All-map (Completes taken xs) (Completes current (x ∷ xs)) _
              (λ c t. (x ∷ t.0, take t.1, t.2 ∙ append_assoc current (x ∷ []) t.0))
              (choose-Completes k taken xs))
      ] in
    All-append (Completes current (x ∷ xs))
      (if length taken == k then taken ∷ [] else choose k taken xs) _ here
      (All-map (Completes current xs) (Completes current (x ∷ xs)) _ (λ c t. (t.0, skip t.1, t.2))
        (choose-Completes k current xs))

positive_length {ℓ} : {A : Type ℓ} (n : ℕ) (xs : List A) → length xs ≤ n → All (λ x. 0 < n) xs
positive_length n [] h = tt
positive_length n (x ∷ xs) h = (omega (arith, h), positive_length n xs (omega (arith, h)))

some_eq : (a b : HandEval) → some a ≡ some b → a ≡ b
some_eq a b h = ground arith

zero_not_positive : (z : ℤ) → is_zero z ≡ true → is_positive z ≡ false
zero_not_positive (pos zero) h = refl
zero_not_positive (pos (suc n)) h = absurd (ground arith)
zero_not_positive (negsuc n) h = refl

not_positive : (h : HandEval) → beats h h ≡ false
not_positive h = zero_not_positive (compare_hands h h) (compare_hands_refl h)

abbrev Unbeaten : HandEval → List Card → Type 0
Unbeaten r c = beats (evaluate5 c) r ≡ false

-- The loop never replaces its best by a worse one, and ends in a hand that no combination beats.
best_of-Unbeaten :
    (best : HandEval) (combos : List (List Card)) (r : HandEval)
    → IsShaped 5 best
    → All (λ c. length c ≡ 5) combos
    → best_of (some best) combos ≡ some r
    → (beats best r ≡ false) × All (Unbeaten r) combos × IsShaped 5 r
unfolding best_of
best_of-Unbeaten best [] r s five h =
    let same = some_eq best r h in
    (subst (λ q. beats best q ≡ false) same (not_positive best), tt, subst (IsShaped 5) same s)
best_of-Unbeaten best (combo ∷ combos) r s five h =
    let current = evaluate5 combo in
    let shaped : IsShaped 5 current =
      subst (λ n. IsShaped n current) five.0 (evaluate5-IsShaped combo) in
    elim (Bool-cases (beats current best)) [
      | inl better ↦
          let (b, rest, t) = best_of-Unbeaten current combos r shaped five.1 (rw better at h) in
          (
            beats_trans 5 best current r s shaped t (beats_asymm current best better) b,
            (b, rest),
            t,
          )
      | inr worse ↦
          let (b, rest, t) = best_of-Unbeaten best combos r s five.1 (rw worse at h) in
          (b, (beats_trans 5 current best r shaped s t worse b, rest), t)
    ]

best_of-some :
    (best : HandEval) (combos : List (List Card))
    → (r : HandEval) × (best_of (some best) combos ≡ some r)
unfolding best_of
best_of-some best [] = (best, refl)
best_of-some best (combo ∷ combos) =
    best_of-some (if beats (evaluate5 combo) best then evaluate5 combo else best) combos

-- What the loop ends in is the value of one of the combinations, or what it began with.
best_of-found :
    (P : HandEval → Type 0) (best : HandEval) (combos : List (List Card)) (r : HandEval)
    → P best
    → All (λ c. P (evaluate5 c)) combos
    → best_of (some best) combos ≡ some r
    → P r
unfolding best_of
best_of-found P best [] r p all h = subst P (some_eq best r h) p
best_of-found P best (combo ∷ combos) r p all h = elim (Bool-cases (beats (evaluate5 combo) best)) [
  | inl better ↦ best_of-found P (evaluate5 combo) combos r all.0 all.1 (rw better at h)
  | inr worse ↦ best_of-found P best combos r p all.1 (rw worse at h)
]

-- What `best_hand` returns: it is of one of the combinations, and none of them beats it.
combinations-Unbeaten :
    (P : HandEval → Type 0) (combos : List (List Card)) (r : HandEval)
    → elim (best_of none combos) [ none ↦ empty_eval | some best ↦ best ] ≡ r
    → P empty_eval ⊎ (0 < length combos)
    → All (λ c. length c ≡ 5) combos
    → All (λ c. P (evaluate5 c)) combos
    → All (Unbeaten r) combos × P r
unfolding best_of
combinations-Unbeaten P [] r h (inl p) five all = (tt, subst P h p)
combinations-Unbeaten P [] r h (inr p) five all = absurd (omega arith)
combinations-Unbeaten P (combo ∷ combos) r h o five all =
    let first = evaluate5 combo in
    let shaped : IsShaped 5 first =
      subst (λ n. IsShaped n first) five.0 (evaluate5-IsShaped combo) in
    let (r', e) = best_of-some first combos in
    let same : r' ≡ r = sym (ap (λ o. elim o [ none ↦ empty_eval | some best ↦ best ]) e) ∙ h in
    let (b, rest, t) = best_of-Unbeaten first combos r' shaped five.1 e in
    subst (λ r. All (Unbeaten r) (combo ∷ combos) × P r) same
      ((b, rest), best_of-found P first combos r' all.0 all.1 e)

All-both {ℓ} :
    {A : Type ℓ} {P Q R : A → Type 0}
    → ((x : A) → P x → Q x → R x)
    → (xs : List A) → All P xs
    → All Q xs
    → All R xs
All-both f [] p q = tt
All-both f (x ∷ xs) p q = (f x p.0 q.0, All-both f xs p.1 q.1)

abbrev pub IsChoice : ℕ → List Card → HandEval → Type 0
IsChoice k cards r = (c : List Card) × Picks c cards × (length c ≡ k) × (r ≡ evaluate5 c)

combinations-IsChoice :
    (cards : List Card) → All (λ c. IsChoice 5 cards (evaluate5 c)) (choose 5 [] cards)
unfolding Completes
combinations-IsChoice cards =
    All-both (λ c t n. (c, subst (λ d. Picks d cards) (sym t.2) t.1, n, refl)) (choose 5 [] cards)
      (choose-Completes 5 [] cards) (choose-length 5 [] cards)

-- When the cards hold five, no five of them beat the hand that `best_hand` gives, and that hand is
-- the value of five of them.
pub best_hand_unbeaten :
    (c cards : List Card)
    → Picks c cards
    → length c ≡ 5
    → (beats (evaluate5 c) (best_hand cards) ≡ false) × IsChoice 5 cards (best_hand cards)
unfolding best_hand combinations
best_hand_unbeaten c cards s n =
    let combos = choose 5 [] cards in
    let sizes = choose-length 5 [] cards in
    let some_combo =
      choose-All (λ c. 0 < length combos) 5 [] s
        (positive_length (length combos) combos (omega arith)) (omega (arith, n))
        (omega (arith, n)) in
    let found =
      combinations-Unbeaten (IsChoice 5 cards) combos (best_hand cards) refl (inr some_combo) sizes
        (combinations-IsChoice cards) in
    (
      choose-All (Unbeaten (best_hand cards)) 5 [] s found.0 (omega (arith, n)) (omega (arith, n)),
      found.1,
    )
