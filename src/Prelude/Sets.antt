-- ===== src/Prelude/Sets.antt =====
-- `std::set<int>` as its ascending list of members.
use Prim.Native.Nat.{ℕ, ◌<◌, ◌≤◌}
use mathlib.Core.Path.{◌≡◌, refl}
use mathlib.Core.Bool.{Bool, false, ◌||◌}
use mathlib.Core.List.{List, [], ◌∷◌}
use native.Mathlib.Omega.{arith}
use dezhou.Prelude.Tests.{ltb, ◌==◌, if◌then◌else◌}

-- `count(a) > 0`.
abbrev pub member : ℕ → List ℕ → Bool
member a [] = false
member a (x ∷ xs) = (a == x) || member a xs

unfoldable pub insert : ℕ → List ℕ → List ℕ
insert a [] = a ∷ []
insert a (x ∷ xs) =
    let rest = insert a xs in if ltb a x then a ∷ x ∷ xs else if a == x then x ∷ xs else x ∷ rest

unfoldable pub erase : ℕ → List ℕ → List ℕ
erase a [] = []
erase a (x ∷ xs) = let rest = erase a xs in if a == x then xs else x ∷ rest

-- Every member lies above the bound.
abbrev pub Above : ℕ → List ℕ → Type 0
Above n [] = Unit {0}
Above n (x ∷ xs) = (n < x) × Above n xs

-- Strictly ascending: no member twice, and iteration in order.
abbrev pub IsAscending : List ℕ → Type 0
IsAscending [] = Unit {0}
IsAscending (x ∷ xs) = Above x xs × IsAscending xs

pub Above-mono : (m n : ℕ) (xs : List ℕ) → m ≤ n → Above n xs → Above m xs
Above-mono m n [] h a = tt
Above-mono m n (x ∷ xs) h a = (omega arith, Above-mono m n xs h a.1)

pub Above-insert : (n a : ℕ) (xs : List ℕ) → n < a → Above n xs → Above n (insert a xs)
unfolding insert
Above-insert n a [] h b = (h, tt)
Above-insert n a (x ∷ xs) h b = ground (arith, Above-insert n a xs h b.1)

pub insert-IsAscending : (a : ℕ) (xs : List ℕ) → IsAscending xs → IsAscending (insert a xs)
unfolding insert
insert-IsAscending a [] s = (tt, tt)
insert-IsAscending a (x ∷ xs) s =
    ground (arith, insert-IsAscending a xs s.1, Above-insert x a xs, Above-mono a x xs)

pub member-insert : (b a : ℕ) (xs : List ℕ) → member b (insert a xs) ≡ ((b == a) || member b xs)
unfolding insert
member-insert b a [] = refl
member-insert b a (x ∷ xs) = ground (arith, member-insert b a xs)

pub Above-member : (n : ℕ) (xs : List ℕ) → Above n xs → member n xs ≡ false
Above-member n [] h = refl
Above-member n (x ∷ xs) h = ground (arith, Above-member n xs h.1)

pub member-erase_ne :
    (b a : ℕ) (xs : List ℕ) → (b == a) ≡ false → member b (erase a xs) ≡ member b xs
unfolding erase
member-erase_ne b a [] h = refl
member-erase_ne b a (x ∷ xs) h = ground (arith, member-erase_ne b a xs h)

pub member-erase_self : (a : ℕ) (xs : List ℕ) → IsAscending xs → member a (erase a xs) ≡ false
unfolding erase
member-erase_self a [] s = refl
member-erase_self a (x ∷ xs) s = ground (arith, member-erase_self a xs s.1, Above-member x xs s.0)

pub Above-erase : (n a : ℕ) (xs : List ℕ) → Above n xs → Above n (erase a xs)
unfolding erase
Above-erase n a [] b = tt
Above-erase n a (x ∷ xs) b = ground (arith, Above-erase n a xs b.1)

pub erase-IsAscending : (a : ℕ) (xs : List ℕ) → IsAscending xs → IsAscending (erase a xs)
unfolding erase
erase-IsAscending a [] s = tt
erase-IsAscending a (x ∷ xs) s = ground (arith, erase-IsAscending a xs s.1, Above-erase x a xs s.0)
