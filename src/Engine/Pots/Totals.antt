-- ===== src/Engine/Pots/Totals.antt =====
-- How much the pots hold: what the side pots are for.
use dezhou.Prelude.{
  ℕ, ◌+◌, ◌-◌, ◌*◌, ◌≤◌, ◌<◌, ◌≡◌, refl, ap, inl, inr, true, List, [], ◌∷◌, arith, ltb, leb,
  Bool-cases, if◌then◌else◌, min, All, All-map, sum_of,
}
use dezhou.Prelude.Sets.{member, Above, IsAscending}
use dezhou.Engine.Pots.{PotContributor, Pot, collect_caps, build_pots}
use dezhou.Engine.Pots.Layers.{
  layer, layers, count_at, Covered, slice_pots-layers, collect_caps-IsAscending, collect_caps-Above,
  collect_caps-Covered,
}

abbrev pub total_committed : List PotContributor → ℕ
total_committed = sum_of (λ c. c.committed)

abbrev pub total_amount : List Pot → ℕ
total_amount = sum_of (λ p. p.amount)

-- What the seats put in up to the height `m`.
abbrev pub up_to : ℕ → List PotContributor → ℕ
up_to m = sum_of (λ c. min c.committed m)

-- What the pots of a height of at most `m` hold.
abbrev pub amount_up_to : ℕ → List Pot → ℕ
amount_up_to m = sum_of (λ p. if leb p.cap m then p.amount else 0)

member-gt : (n m : ℕ) (caps : List ℕ) → Above n caps → member m caps ≡ true → n < m
member-gt n m [] a h = absurd (ground arith)
member-gt n m (top ∷ caps) a h = ground (arith, member-gt n m caps a.1)

mul_suc_one : (a n : ℕ) → a * (n + 1) ≡ a * n + a
mul_suc_one a n = omega arith

-- A layer holds the difference of two heights.
layer_amount :
    (cs : List PotContributor) (prev top : ℕ) (caps : List ℕ)
    → prev < top
    → Above top caps
    → All (Covered prev (top ∷ caps)) cs
    → (layer cs prev top).amount + up_to prev cs ≡ up_to top cs
layer_amount [] prev top caps h a v = omega arith
layer_amount (c ∷ cs) prev top caps h a v =
    let rest = layer_amount cs prev top caps h a v.1 in
    elim (Bool-cases (ltb c.committed top)) [
      | inl below ↦ rw below (ground (arith, v.0, rest, member-gt top c.committed caps a))
      | inr reached ↦ rw reached (ground (arith, rest, mul_suc_one (top - prev) (count_at top cs)))
    ]

Covered-next :
    (cs : List PotContributor) (prev top : ℕ) (caps : List ℕ)
    → prev < top
    → All (Covered prev (top ∷ caps)) cs
    → All (Covered top caps) cs
Covered-next cs prev top caps h =
    All-map (Covered prev (top ∷ caps)) (Covered top caps) cs (λ c v. ground arith)

layers_total :
    (cs : List PotContributor) (prev : ℕ) (caps : List ℕ)
    → Above prev caps
    → IsAscending caps
    → All (Covered prev caps) cs
    → total_amount (layers cs prev caps) + up_to prev cs ≡ total_committed cs
unfolding layers
layers_total [] prev [] a s v = omega arith
layers_total (c ∷ cs) prev [] a s v = ground (arith, layers_total cs prev [] a s v.1)
layers_total cs prev (top ∷ caps) a s v = ground (
  arith,
  layer_amount cs prev top caps a.0 s.0 v,
  layers_total cs top caps s.0 s.1 (Covered-next cs prev top caps a.0 v),
)

pub amount-Above :
    (cs : List PotContributor) (prev m : ℕ) (caps : List ℕ)
    → m ≤ prev
    → Above prev caps
    → IsAscending caps
    → amount_up_to m (layers cs prev caps) ≡ 0
unfolding layers
amount-Above cs prev m [] h a s = refl
amount-Above cs prev m (top ∷ caps) h a s =
    let next : m ≤ top = omega (arith, a.0) in
    ground (arith, a.0, amount-Above cs top m caps next s.0 s.1)

pub layers-up_to :
    (cs : List PotContributor) (prev m : ℕ) (caps : List ℕ)
    → Above prev caps
    → IsAscending caps
    → All (Covered prev caps) cs
    → member m caps ≡ true
    → amount_up_to m (layers cs prev caps) + up_to prev cs ≡ up_to m cs
unfolding layers
layers-up_to cs prev m [] a s v h = absurd (ground arith)
layers-up_to cs prev m (top ∷ caps) a s v h =
    let covered = Covered-next cs prev top caps a.0 v in
    ground (
      arith,
      a.0,
      layer_amount cs prev top caps a.0 s.0 v,
      amount-Above cs top top caps (omega arith) s.0 s.1,
      layers-up_to cs top m caps s.0 s.1 covered,
      member-gt top m caps s.0,
    )

pub up_to_zero : (cs : List PotContributor) → up_to 0 cs ≡ 0
up_to_zero [] = refl
up_to_zero (c ∷ cs) = omega (arith, up_to_zero cs)

pub build_pots-layers :
    (cs : List PotContributor) → build_pots cs ≡ layers cs 0 (collect_caps [] cs)
unfolding build_pots
build_pots-layers cs = slice_pots-layers cs [] 0 (collect_caps [] cs)

-- The pots together hold exactly what the seats put in: building them loses and makes no chip.
pub build_pots_total :
    (cs : List PotContributor) → total_amount (build_pots cs) ≡ total_committed cs
build_pots_total cs = omega (
  arith,
  ap total_amount (build_pots-layers cs),
  up_to_zero cs,
  layers_total cs 0 (collect_caps [] cs) (collect_caps-Above [] cs tt)
      (collect_caps-IsAscending [] cs tt) (collect_caps-Covered [] cs),
)
