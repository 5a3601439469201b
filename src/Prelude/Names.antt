-- ===== src/Prelude/Names.antt =====
-- `std::unordered_map<std::string, V>` as an association list without repeated keys.
use Prim.Native.String.{String}
use mathlib.Core.Path.{◌≡◌, refl, sym, subst}
use mathlib.Core.Logic.{inl, inr}
use mathlib.Core.Bool.{true, false}
use mathlib.Core.Option.{Option, none, some}
use mathlib.Core.List.{List, [], ◌∷◌}
use native.Mathlib.Omega.{arith}
use text.Mathlib.Text.{◌==◌ as str_eq}
use text.Mathlib.TextEquality.{eq_iff}
use dezhou.Prelude.Tests.{if◌then◌else◌, Bool-cases}
use dezhou.Prelude.Lists.{All}

pub str_eq_refl : (s : String) → str_eq s s ≡ true
str_eq_refl s = (eq_iff s s).1 refl

module _ {ℓ} {V : Type ℓ} where
  unfoldable pub find_name : String → List (String × V) → Option V
  find_name k [] = none
  find_name k ((j, v) ∷ m) = let rest = find_name k m in if str_eq k j then some v else rest

  -- `m[k] = v`.
  unfoldable pub put_name : String → V → List (String × V) → List (String × V)
  put_name k v [] = (k, v) ∷ []
  put_name k v ((j, w) ∷ m) =
      let rest = put_name k v m in if str_eq k j then (j, v) ∷ m else (j, w) ∷ rest

  -- A write through the reference that `find` gave; without one nothing happens.
  unfoldable pub adjust_name : String → (V → V) → List (String × V) → List (String × V)
  adjust_name k f m = elim (find_name k m) [ none ↦ m | some v ↦ put_name k (f v) m ]

  unfoldable pub erase_name : String → List (String × V) → List (String × V)
  erase_name k [] = []
  erase_name k ((j, v) ∷ m) =
      let rest = erase_name k m in if str_eq k j then rest else (j, v) ∷ rest

  pub find_name-put_name_self :
      (k : String) (v : V) (m : List (String × V)) → find_name k (put_name k v m) ≡ some v
  unfolding find_name put_name
  find_name-put_name_self k v [] = rw (str_eq_refl k) refl
  find_name-put_name_self k v ((j, w) ∷ m) = elim (Bool-cases (str_eq k j)) [
    | inl e ↦ rw (e, e) refl
    | inr e ↦ rw (e, e) (find_name-put_name_self k v m)
  ]

  pub find_name-put_name_ne :
      (k j : String) (v : V) (m : List (String × V))
      → str_eq k j ≡ false
      → find_name k (put_name j v m) ≡ find_name k m
  unfolding find_name put_name
  find_name-put_name_ne k j v [] h = rw h refl
  find_name-put_name_ne k j v ((i, w) ∷ m) h = elim (Bool-cases (str_eq j i)) [
    | inl e ↦
        let same = (eq_iff j i).0 e in
        let other : str_eq k i ≡ false = subst (λ x. str_eq k x ≡ false) same h in
        rw (e, other) refl
    | inr e ↦ elim (Bool-cases (str_eq k i)) [
      | inl f ↦ rw (e, f) refl
      | inr f ↦ rw (e, f) (find_name-put_name_ne k j v m h)
    ]
  ]

  pub All-put_name {κ} :
      (P : String × V → Type κ) (k : String) (v : V) (m : List (String × V))
      → ((j : String) → P (j, v))
      → All P m
      → All P (put_name k v m)
  unfolding put_name
  All-put_name P k v [] p all = (p k, tt)
  All-put_name P k v ((j, w) ∷ m) p all = elim (Bool-cases (str_eq k j)) [
    | inl e ↦ rw e (p j, all.1)
    | inr e ↦ rw e (all.0, All-put_name P k v m p all.1)
  ]

  pub All-find_name {κ} :
      (P : V → Type κ) (k : String) (m : List (String × V)) (v : V)
      → All (λ e. P e.1) m
      → find_name k m ≡ some v
      → P v
  unfolding find_name
  All-find_name P k [] v all h = absurd (ground arith)
  All-find_name P k ((j, w) ∷ m) v all h = elim (Bool-cases (str_eq k j)) [
    | inl e ↦ let same : some w ≡ some v = rw e at h in subst P (ground (arith, same)) all.0
    | inr e ↦ All-find_name P k m v all.1 (rw e at h)
  ]

  pub All-put_name_at {κ} :
      (P : String × V → Type κ) (k : String) (v : V) (m : List (String × V))
      → P (k, v)
      → All P m
      → All P (put_name k v m)
  unfolding put_name
  All-put_name_at P k v [] p all = (p, tt)
  All-put_name_at P k v ((j, w) ∷ m) p all = elim (Bool-cases (str_eq k j)) [
    | inl e ↦ rw e (subst (λ i. P (i, v)) ((eq_iff k j).0 e) p, all.1)
    | inr e ↦ rw e (all.0, All-put_name_at P k v m p all.1)
  ]

  pub All-erase_name {κ} :
      (P : String × V → Type κ) (k : String) (m : List (String × V))
      → All P m
      → All P (erase_name k m)
  unfolding erase_name
  All-erase_name P k [] all = tt
  All-erase_name P k ((j, w) ∷ m) all = elim (Bool-cases (str_eq k j)) [
    | inl e ↦ rw e (All-erase_name P k m all.1)
    | inr e ↦ rw e (all.0, All-erase_name P k m all.1)
  ]

  pub find_name-erase_name_self :
      (k : String) (m : List (String × V)) → find_name k (erase_name k m) ≡ none
  unfolding find_name erase_name
  find_name-erase_name_self k [] = refl
  find_name-erase_name_self k ((j, w) ∷ m) = elim (Bool-cases (str_eq k j)) [
    | inl e ↦ rw e (find_name-erase_name_self k m)
    | inr e ↦ rw (e, e) (find_name-erase_name_self k m)
  ]

  pub find_name-erase_name_ne :
      (k j : String) (m : List (String × V))
      → str_eq k j ≡ false
      → find_name k (erase_name j m) ≡ find_name k m
  unfolding find_name erase_name
  find_name-erase_name_ne k j [] h = refl
  find_name-erase_name_ne k j ((i, w) ∷ m) h = elim (Bool-cases (str_eq j i)) [
    | inl e ↦
        let same = (eq_iff j i).0 e in
        let other : str_eq k i ≡ false = subst (λ x. str_eq k x ≡ false) same h in
        rw (e, other) (find_name-erase_name_ne k j m h)
    | inr e ↦ elim (Bool-cases (str_eq k i)) [
      | inl f ↦ rw (e, f) refl
      | inr f ↦ rw (e, f) (find_name-erase_name_ne k j m h)
    ]
  ]

  pub All-find_name_at {κ} :
      (P : String × V → Type κ) (k : String) (m : List (String × V)) (v : V)
      → All P m
      → find_name k m ≡ some v
      → P (k, v)
  unfolding find_name
  All-find_name_at P k [] v all h = absurd (ground arith)
  All-find_name_at P k ((j, w) ∷ m) v all h = elim (Bool-cases (str_eq k j)) [
    | inl e ↦
        let same : some w ≡ some v = rw e at h in
        let named : P (k, w) = subst (λ i. P (i, w)) (sym ((eq_iff k j).0 e)) all.0 in
        subst (λ x. P (k, x)) (ground (arith, same)) named
    | inr e ↦ All-find_name_at P k m v all.1 (rw e at h)
  ]
