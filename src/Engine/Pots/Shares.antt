-- ===== src/Engine/Pots/Shares.antt =====
-- Who may win which part of the pots.
use dezhou.Prelude.{
  ℕ, zero, suc, ◌<◌, ◌≡◌, refl, sym, ◌∙◌, true, ◌&&◌, List, [], ◌∷◌, ◌++◌, map, arith, ltb, leb,
  if◌then◌else◌, All, keep, ap, Bool, false, ◌==◌, sum_of,
}
use dezhou.Prelude.Sets.{member, Above, IsAscending, member-insert, insert}
use dezhou.Engine.Pots.{PotContributor, Pot, collect_caps, build_pots}
use dezhou.Engine.Pots.Layers.{
  layers, eligible_at, collect_caps-IsAscending, collect_caps-Above, collect_caps-Covered,
  member-collect_caps,
}
use dezhou.Engine.Pots.Totals.{
  up_to, amount_up_to, layers-up_to, build_pots-layers, up_to_zero, amount-Above,
}

-- The seats that may win a pot of height `top`: those that reached it and take part in the
-- showdown.
abbrev pub contenders : ℕ → List PotContributor → List ℕ
contenders top cs =
    map (λ c. c.seat_idx) (keep (λ c. c.showdown_eligible && leb top c.committed) cs)

eligible_at-contenders :
    (top : ℕ) (cs : List PotContributor) → eligible_at top cs ≡ contenders top cs
eligible_at-contenders top [] = refl
eligible_at-contenders top (c ∷ cs) = ground (arith, eligible_at-contenders top cs)

-- What a pot is to be over the contributions `cs`.
abbrev pub IsFairPot : List PotContributor → Pot → Type 0
IsFairPot cs p = (0 < p.amount) × (p.eligible_seat_indices ≡ contenders p.cap cs)

layers-IsFairPot :
    (cs : List PotContributor) (prev : ℕ) (caps : List ℕ) → All (IsFairPot cs) (layers cs prev caps)
unfolding layers
layers-IsFairPot cs prev [] = tt
layers-IsFairPot cs prev (top ∷ caps) = ground (
  arith,
  layers-IsFairPot cs prev caps,
  layers-IsFairPot cs top caps,
  eligible_at-contenders top cs,
)

abbrev pub heights : List Pot → List ℕ
heights = map (λ p. p.cap)

layers-Above :
    (cs : List PotContributor) (low prev : ℕ) (caps : List ℕ)
    → Above low caps
    → Above low (heights (layers cs prev caps))
unfolding layers
layers-Above cs low prev [] a = tt
layers-Above cs low prev (top ∷ caps) a =
    ground (arith, a.0, layers-Above cs low prev caps a.1, layers-Above cs low top caps a.1)

layers-IsAscending :
    (cs : List PotContributor) (prev : ℕ) (caps : List ℕ)
    → IsAscending caps
    → IsAscending (heights (layers cs prev caps))
unfolding layers
layers-IsAscending cs prev [] s = tt
layers-IsAscending cs prev (top ∷ caps) s = ground (
  arith,
  layers-IsAscending cs prev caps s.1,
  layers-IsAscending cs top caps s.1,
  layers-Above cs top top caps s.0,
)

-- Every pot holds chips, and may be won by exactly the seats that take part in the showdown and
-- put in at least the pot's height, in the order of the contributions. The heights ascend strictly.
pub build_pots-IsFairPot :
    (cs : List PotContributor)
    → All (IsFairPot cs) (build_pots cs) × IsAscending (heights (build_pots cs))
build_pots-IsFairPot cs = rw (build_pots-layers cs) (
  layers-IsFairPot cs 0 (collect_caps [] cs),
  layers-IsAscending cs 0 (collect_caps [] cs) (collect_caps-IsAscending [] cs tt),
)

member-caps :
    (caps : List ℕ) (xs ys : List PotContributor) (c : PotContributor)
    → 0 < c.committed
    → member c.committed (collect_caps caps (xs ++ c ∷ ys)) ≡ true
unfolding collect_caps
member-caps caps [] ys c h = ground (
  arith,
  member-collect_caps c.committed (insert c.committed caps) ys,
  member-insert c.committed c.committed caps,
)
member-caps caps (x ∷ xs) ys c h =
    member-caps (if ltb 0 x.committed then insert x.committed caps else caps) xs ys c h

share :
    (cs : List PotContributor) (m : ℕ)
    → (0 < m → member m (collect_caps [] cs) ≡ true)
    → amount_up_to m (layers cs 0 (collect_caps [] cs)) ≡ up_to m cs
share cs zero h =
    amount-Above cs 0 0 (collect_caps [] cs) (omega arith) (collect_caps-Above [] cs tt)
      (collect_caps-IsAscending [] cs tt)
    ∙ sym (up_to_zero cs)
share cs (suc m) h = omega (
  arith,
  up_to_zero cs,
  layers-up_to cs 0 (suc m) (collect_caps [] cs) (collect_caps-Above [] cs tt)
      (collect_caps-IsAscending [] cs tt) (collect_caps-Covered [] cs) (h (omega arith)),
)

-- The pots of a height up to a contribution hold what every seat put in up to it.
build_pots-up_to :
    (xs ys : List PotContributor) (c : PotContributor)
    → let cs = xs ++ c ∷ ys in amount_up_to c.committed (build_pots cs) ≡ up_to c.committed cs
build_pots-up_to xs ys c =
    let cs = xs ++ c ∷ ys in
    rw (build_pots-layers cs) (share cs c.committed (member-caps [] xs ys c))

-- What the pots that name the seat among those that may win them hold together.
abbrev pub winnable : ℕ → List Pot → ℕ
winnable i = sum_of (λ p. if member i p.eligible_seat_indices then p.amount else 0)

-- A contribution of another seat.
abbrev pub IsOther : ℕ → PotContributor → Type 0
IsOther i d = (i == d.seat_idx) ≡ false

member-contenders_other :
    (i top : ℕ) (cs : List PotContributor)
    → All (IsOther i) cs
    → member i (contenders top cs) ≡ false
member-contenders_other i top [] h = refl
member-contenders_other i top (d ∷ cs) h = ground (arith, h.0, member-contenders_other i top cs h.1)

-- A seat contends for the pots up to its contribution, unless it has folded.
member-contenders :
    (top : ℕ) (xs ys : List PotContributor) (c : PotContributor)
    → All (IsOther c.seat_idx) xs
    → All (IsOther c.seat_idx) ys
    → member c.seat_idx (contenders top (xs ++ c ∷ ys))
      ≡ (c.showdown_eligible && leb top c.committed)
member-contenders top [] ys c hx hy = ground (arith, member-contenders_other c.seat_idx top ys hy)
member-contenders top (d ∷ xs) ys c hx hy =
    ground (arith, hx.0, member-contenders top xs ys c hx.1 hy)

winnable-amount_up_to :
    (cs : List PotContributor) (i m : ℕ) (contends : Bool) (pots : List Pot)
    → ((top : ℕ) → member i (contenders top cs) ≡ (contends && leb top m))
    → All (IsFairPot cs) pots
    → winnable i pots ≡ (if contends then amount_up_to m pots else 0)
winnable-amount_up_to cs i m contends [] h fair = ground arith
winnable-amount_up_to cs i m contends (p ∷ pots) h fair =
    let reached : member i p.eligible_seat_indices ≡ (contends && leb p.cap m) =
      ap (member i) fair.0.1 ∙ h p.cap in
    ground (arith, reached, winnable-amount_up_to cs i m contends pots h fair.1)

-- What a seat can win, which stands once among the contributions: if it takes part in the showdown,
-- the pots that name it hold the sum of what every seat put in, each counted up to what this seat
-- put in; if it has folded, the pots that name it hold nothing.
pub winnable-build_pots :
    (xs ys : List PotContributor) (c : PotContributor)
    → All (IsOther c.seat_idx) xs
    → All (IsOther c.seat_idx) ys
    → let cs = xs ++ c ∷ ys in
      winnable c.seat_idx (build_pots cs)
      ≡ (if c.showdown_eligible then up_to c.committed cs else 0)
winnable-build_pots xs ys c hx hy =
    let cs = xs ++ c ∷ ys in
    winnable-amount_up_to cs c.seat_idx c.committed c.showdown_eligible (build_pots cs)
      (λ top. member-contenders top xs ys c hx hy) (build_pots-IsFairPot cs).0
    ∙ ap (λ n. if c.showdown_eligible then n else 0) (build_pots-up_to xs ys c)
