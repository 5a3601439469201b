-- ===== src/Prelude/Maps.antt =====
-- `std::map<int, V>` as its entries in ascending order of the keys.
use Prim.Native.Nat.{ℕ, ◌+◌}
use mathlib.Core.Path.{◌≡◌, refl}
use mathlib.Core.Bool.{Bool, true, false}
use mathlib.Core.Option.{Option, none, some}
use mathlib.Core.List.{List, [], ◌∷◌}
use native.Mathlib.Omega.{arith}
use dezhou.Prelude.Tests.{ltb, ◌==◌, if◌then◌else◌}
use dezhou.Prelude.Lists.{sum_of}

module _ {ℓ} {V : Type ℓ} where
  unfoldable pub find : ℕ → List (ℕ × V) → Option V
  find k [] = none
  find k ((j, v) ∷ m) = let rest = find k m in if k == j then some v else rest

  -- A write through the pointer that `find` gave; without one nothing happens.
  unfoldable pub adjust : ℕ → (V → V) → List (ℕ × V) → List (ℕ × V)
  adjust k f [] = []
  adjust k f ((j, v) ∷ m) =
      let rest = adjust k f m in if k == j then (j, f v) ∷ m else (j, v) ∷ rest

  -- `emplace`: a key that is present keeps its value.
  unfoldable pub emplace : ℕ → V → List (ℕ × V) → List (ℕ × V)
  emplace k v [] = (k, v) ∷ []
  emplace k v ((j, w) ∷ m) =
      let rest = emplace k v m in
      if ltb k j then (k, v) ∷ (j, w) ∷ m else if k == j then (j, w) ∷ m else (j, w) ∷ rest

  unfoldable pub erase : ℕ → List (ℕ × V) → List (ℕ × V)
  erase k [] = []
  erase k ((j, v) ∷ m) = let rest = erase k m in if k == j then m else (j, v) ∷ rest

  -- The loop `for (auto& [k, v] : m)`.
  unfoldable pub map_values : (ℕ → V → V) → List (ℕ × V) → List (ℕ × V)
  map_values f [] = []
  map_values f ((j, v) ∷ m) = (j, f j v) ∷ map_values f m

  pub find-adjust_self :
      (k : ℕ) (f : V → V) (m : List (ℕ × V)) (v : V)
      → find k m ≡ some v
      → find k (adjust k f m) ≡ some (f v)
  unfolding find adjust
  find-adjust_self k f [] v h = ground arith
  find-adjust_self k f ((j, w) ∷ m) v h = ground (arith, find-adjust_self k f m v)

  pub find-adjust_ne :
      (k j : ℕ) (f : V → V) (m : List (ℕ × V)) → (k == j) ≡ false → find k (adjust j f m) ≡ find k m
  unfolding find adjust
  find-adjust_ne k j f [] h = refl
  find-adjust_ne k j f ((i, w) ∷ m) h = ground (arith, find-adjust_ne k j f m h)

  pub adjust_absent : (k : ℕ) (f : V → V) (m : List (ℕ × V)) → find k m ≡ none → adjust k f m ≡ m
  unfolding find adjust
  adjust_absent k f [] h = refl
  adjust_absent k f ((j, w) ∷ m) h = ground (arith, adjust_absent k f m)

  abbrev pub sum_values : (V → ℕ) → List (ℕ × V) → ℕ
  sum_values g = sum_of (λ e. g e.1)

  pub sum-adjust :
      (g : V → ℕ) (k : ℕ) (f : V → V) (m : List (ℕ × V)) (v : V)
      → find k m ≡ some v
      → sum_values g (adjust k f m) + g v ≡ sum_values g m + g (f v)
  unfolding find adjust
  sum-adjust g k f [] v h = ground arith
  sum-adjust g k f ((j, w) ∷ m) v h = ground (arith, sum-adjust g k f m v)

  pub sum-map_values :
      (g : V → ℕ) (f : ℕ → V → V) (m : List (ℕ × V))
      → ((k : ℕ) (v : V) → g (f k v) ≡ g v)
      → sum_values g (map_values f m) ≡ sum_values g m
  unfolding map_values
  sum-map_values g f [] h = refl
  sum-map_values g f ((j, w) ∷ m) h = omega (arith, h j w, sum-map_values g f m h)

  -- Whether a key is present.
  abbrev pub has_key : ℕ → List (ℕ × V) → Bool
  has_key k m = elim (find k m) [ none ↦ false | some v ↦ true ]

  pub has_key-adjust :
      (j k : ℕ) (f : V → V) (m : List (ℕ × V)) → has_key j (adjust k f m) ≡ has_key j m
  unfolding find adjust
  has_key-adjust j k f [] = refl
  has_key-adjust j k f ((i, w) ∷ m) = ground (arith, has_key-adjust j k f m)

  pub has_key-map_values :
      (j : ℕ) (f : ℕ → V → V) (m : List (ℕ × V)) → has_key j (map_values f m) ≡ has_key j m
  unfolding find map_values
  has_key-map_values j f [] = refl
  has_key-map_values j f ((i, w) ∷ m) = ground (arith, has_key-map_values j f m)

  -- A write that keeps a measure of every value keeps the sum.
  pub sum-adjust_same :
      (g : V → ℕ) (k : ℕ) (f : V → V) (m : List (ℕ × V))
      → ((v : V) → g (f v) ≡ g v)
      → sum_values g (adjust k f m) ≡ sum_values g m
  unfolding adjust
  sum-adjust_same g k f [] h = refl
  sum-adjust_same g k f ((j, w) ∷ m) h = ground (arith, h w, sum-adjust_same g k f m h)
