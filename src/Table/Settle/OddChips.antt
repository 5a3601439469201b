-- ===== src/Table/Settle/OddChips.antt =====
-- The order in which winners get the odd chips.
use dezhou.Prelude.{
  ℕ, zero, suc, ◌+◌, ◌%◌, ◌<◌, ◌≡◌, refl, ap, sym, ◌∙◌, Bool, true, false, ◌||◌, List, [], ◌∷◌, map,
  keep, ◌==◌, not, subst, arith, All, All-map, ◌&&◌, inl, inr, Bool-cases,
}
use dezhou.Prelude.Sets.{member}
use dezhou.Prelude.Sorting.{insert_by, sort_by}
use dezhou.Table.State.{Room, seat_indices, k_seats}
use dezhou.Table.Settle.{winners_by_odd_chip_priority, odd_chip_before}

-- No seat twice.
abbrev pub IsDistinct : List ℕ → Type 0
IsDistinct [] = Unit {0}
IsDistinct (i ∷ is) = (member i is ≡ false) × IsDistinct is

-- All seats of the table clockwise, from the first seat left of the dealer to the dealer.
abbrev pub clockwise : ℕ → List ℕ
clockwise dealer = map (λ k. (dealer + 1 + k) % k_seats) seat_indices

-- A comparator that puts every entry of a list before the later ones, and none of them before it.
module _ (before : ℕ → ℕ → Bool) where
  Follows : ℕ → ℕ → Type 0
  Follows a b = (before a b ≡ true) × ((before b a ≡ false) × ((a == b) ≡ false))

  InOrder : List ℕ → Type 0
  InOrder [] = Unit {0}
  InOrder (o ∷ os) = All (Follows o) os × InOrder os

  insert_front :
      (w : ℕ) (chosen : ℕ → Bool) (os : List ℕ)
      → All (Follows w) os
      → insert_by before w (keep chosen os) ≡ w ∷ keep chosen os
  unfolding insert_by Follows
  insert_front w chosen [] h = refl
  insert_front w chosen (o ∷ os) h = ground (arith, h.0, insert_front w chosen os h.1)

  keep_without :
      (w : ℕ) (chosen : ℕ → Bool) (os : List ℕ)
      → All (Follows w) os
      → keep (λ i. (i == w) || chosen i) os ≡ keep chosen os
  unfolding Follows
  keep_without w chosen [] h = refl
  keep_without w chosen (o ∷ os) h = ground (arith, h.0, keep_without w chosen os h.1)

  Follows-member : (o w : ℕ) (os : List ℕ) → All (Follows o) os → member w os ≡ true → Follows o w
  Follows-member o w [] s h = absurd (ground arith)
  Follows-member o w (x ∷ os) s h = elim (Bool-cases (w == x)) [
    | inl e ↦ let same : x ≡ w = ground (arith, e) in subst (Follows o) same s.0
    | inr e ↦ Follows-member o w os s.1 (ground (arith, h, e))
  ]

  insert_here :
      (o : ℕ) (chosen : ℕ → Bool) (os : List ℕ)
      → All (Follows o) os
      → chosen o ≡ false
      → insert_by before o (keep chosen (o ∷ os)) ≡ keep (λ i. (i == o) || chosen i) (o ∷ os)
  insert_here o chosen os s free =
      ground (arith, free, insert_front o chosen os s, keep_without o chosen os s)

  -- A sorted insertion into a part of the list is the part with one entry more.
  insert_by-keep :
      (w : ℕ) (chosen : ℕ → Bool) (os : List ℕ)
      → InOrder os
      → member w os ≡ true
      → chosen w ≡ false
      → insert_by before w (keep chosen os) ≡ keep (λ i. (i == w) || chosen i) os
  unfolding insert_by InOrder Follows
  insert_by-keep w chosen [] s h free = absurd (ground arith)
  insert_by-keep w chosen (o ∷ os) s h free = elim (Bool-cases (o == w)) [
    | inl e ↦
        let same : o ≡ w = ground (arith, e) in
        subst
          (λ v.
            chosen v ≡ false
            → insert_by before v (keep chosen (o ∷ os)) ≡ keep (λ i. (i == v) || chosen i) (o ∷ os))
          same (insert_here o chosen os s.0) free
    | inr e ↦
        let later : member w os ≡ true = ground (arith, h, e) in
        let after = Follows-member o w os s.0 later in
        ground (arith, e, after, insert_by-keep w chosen os s.1 later free)
  ]

  keep_none : (os : List ℕ) → keep (λ i. false) os ≡ []
  keep_none [] = refl
  keep_none (o ∷ os) = keep_none os

  -- Sorting entries of the list, each once, picks them from the list.
  sort_by-keep :
      (os ws : List ℕ)
      → InOrder os
      → IsDistinct ws
      → All (λ w. member w os ≡ true) ws
      → sort_by before ws ≡ keep (λ i. member i ws) os
  unfolding sort_by
  sort_by-keep os [] s d h = sym (keep_none os)
  sort_by-keep os (w ∷ ws) s d h =
      ap (insert_by before w) (sort_by-keep os ws s d.1 h.1)
      ∙ insert_by-keep w (λ i. member i ws) os s h.0 d.0

-- A test that holds below a bound, tried at every number.
holds_below : (ℕ → Bool) → ℕ → Bool
holds_below test zero = true
holds_below test (suc n) = test n && holds_below test n

holds_below_lem : (test : ℕ → Bool) (n i : ℕ) → holds_below test n ≡ true → i < n → test i ≡ true
unfolding holds_below
holds_below_lem test zero i h lt = absurd (omega arith)
holds_below_lem test (suc n) i h lt = elim (Bool-cases (i == n)) [
  | inl e ↦
      let same : n ≡ i = ground (arith, e) in
      let first : test n ≡ true = ground (arith, h) in subst (λ j. test j ≡ true) same first
  | inr e ↦ holds_below_lem test n i (ground (arith, h)) (ground (arith, e, lt))
]

follows : (ℕ → ℕ → Bool) → ℕ → List ℕ → Bool
follows before a [] = true
follows before a (b ∷ bs) =
    (before a b && (not (before b a) && not (a == b))) && follows before a bs

in_order : (ℕ → ℕ → Bool) → List ℕ → Bool
in_order before [] = true
in_order before (o ∷ os) = follows before o os && in_order before os

follows-Follows :
    (before : ℕ → ℕ → Bool) (a : ℕ) (bs : List ℕ)
    → follows before a bs ≡ true
    → All (Follows before a) bs
unfolding follows Follows
follows-Follows before a [] h = tt
follows-Follows before a (b ∷ bs) h = (
  (ground (arith, h), (ground (arith, h), ground (arith, h))),
  follows-Follows before a bs (ground (arith, h)),
)

in_order-InOrder :
    (before : ℕ → ℕ → Bool) (os : List ℕ) → in_order before os ≡ true → InOrder before os
unfolding in_order InOrder
in_order-InOrder before [] h = tt
in_order-InOrder before (o ∷ os) h = (
  follows-Follows before o os (ground (arith, h)),
  in_order-InOrder before os (ground (arith, h)),
)

clockwise-InOrder :
    (dealer : ℕ) → dealer < k_seats → InOrder (odd_chip_before dealer) (clockwise dealer)
unfolding holds_below in_order follows
clockwise-InOrder dealer h =
    in_order-InOrder (odd_chip_before dealer) (clockwise dealer)
      (holds_below_lem (λ d. in_order (odd_chip_before d) (clockwise d)) k_seats dealer refl h)

member-clockwise :
    (dealer i : ℕ) → dealer < k_seats → i < k_seats → member i (clockwise dealer) ≡ true
unfolding holds_below
member-clockwise dealer i h k =
    let all =
      holds_below_lem (λ d. holds_below (λ j. member j (clockwise d)) k_seats) k_seats dealer refl
        h in
    holds_below_lem (λ j. member j (clockwise dealer)) k_seats i all k

member-keep :
    (p : ℕ → Bool) (i : ℕ) (is : List ℕ) → member i is ≡ false → member i (keep p is) ≡ false
member-keep p i [] h = refl
member-keep p i (j ∷ is) h = ground (arith, h, member-keep p i is)

not_among :
    (before : ℕ → ℕ → Bool) (o : ℕ) (os : List ℕ) → All (Follows before o) os → member o os ≡ false
unfolding Follows
not_among before o [] h = refl
not_among before o (x ∷ os) h = ground (arith, h.0, not_among before o os h.1)

pub keep-IsDistinct : (p : ℕ → Bool) (is : List ℕ) → IsDistinct is → IsDistinct (keep p is)
keep-IsDistinct p [] d = tt
keep-IsDistinct p (i ∷ is) d = ground (arith, d.0, member-keep p i is, keep-IsDistinct p is d.1)

Follows-IsDistinct : (before : ℕ → ℕ → Bool) (os : List ℕ) → InOrder before os → IsDistinct os
unfolding InOrder
Follows-IsDistinct before [] s = tt
Follows-IsDistinct before (o ∷ os) s = (not_among before o os s.0, Follows-IsDistinct before os s.1)

pub clockwise-IsDistinct : (dealer : ℕ) → dealer < k_seats → IsDistinct (clockwise dealer)
clockwise-IsDistinct dealer h =
    Follows-IsDistinct (odd_chip_before dealer) (clockwise dealer) (clockwise-InOrder dealer h)

-- The order of the odd chips is the order of the seats clockwise from the dealer's left: the list
-- of the winners is what that round of the table's ten seats meets of them. The winners and the
-- dealer are to sit on the ten seats, no two winners on the same.
pub winners_by_odd_chip_priority-clockwise :
    (room : Room) (winners : List ℕ)
    → room.dealer_seat_idx < k_seats
    → IsDistinct winners
    → All (λ w. w < k_seats) winners
    → winners_by_odd_chip_priority room winners
      ≡ keep (λ i. member i winners) (clockwise room.dealer_seat_idx)
unfolding winners_by_odd_chip_priority
winners_by_odd_chip_priority-clockwise room winners h d seats =
    let dealer = room.dealer_seat_idx in
    sort_by-keep (odd_chip_before dealer) (clockwise dealer) winners (clockwise-InOrder dealer h) d
      (All-map (λ w. w < k_seats) (λ w. member w (clockwise dealer) ≡ true) winners
        (λ w. member-clockwise dealer w h) seats)
