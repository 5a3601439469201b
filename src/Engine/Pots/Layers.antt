-- ===== src/Engine/Pots/Layers.antt =====
-- The loops of `build_pots` without their accumulators, and what the set of caps holds.
use dezhou.Prelude.{
  ℕ, ◌+◌, ◌-◌, ◌*◌, ◌≤◌, ◌≡◌, ◌⊎◌, true, List, [], ◌∷◌, ◌++◌, arith, ltb, leb, if◌then◌else◌, All,
}
use mathlib.Core.List.{append-nil, append_assoc}
use dezhou.Prelude.Sets.{
  insert, member, Above, IsAscending, Above-insert, insert-IsAscending, member-insert,
}
use dezhou.Engine.Pots.{PotContributor, Pot, Tally, collect_caps, tally, no_tally, slice_pots}

-- The seats that reached `cap`, counted, and those of them that may win.
abbrev pub count_at : ℕ → List PotContributor → ℕ
count_at cap [] = 0
count_at cap (c ∷ cs) = if ltb c.committed cap then count_at cap cs else count_at cap cs + 1

abbrev pub eligible_at : ℕ → List PotContributor → List ℕ
eligible_at cap [] = []
eligible_at cap (c ∷ cs) =
    let rest = eligible_at cap cs in
    if ltb c.committed cap then rest else if c.showdown_eligible then c.seat_idx ∷ rest else rest

pub tally_count :
    (cap : ℕ) (t : Tally) (cs : List PotContributor)
    → (tally cap t cs).contributor_count ≡ t.contributor_count + count_at cap cs
unfolding tally
tally_count cap t [] = omega arith
tally_count cap t (c ∷ cs) = ground (
  arith,
  tally_count cap t cs,
  tally_count cap
      (record {
        contributor_count = t.contributor_count + 1;
        eligible = if c.showdown_eligible then t.eligible ++ c.seat_idx ∷ [] else t.eligible;
      })
      cs,
)

pub tally_eligible :
    (cap : ℕ) (t : Tally) (cs : List PotContributor)
    → (tally cap t cs).eligible ≡ t.eligible ++ eligible_at cap cs
unfolding tally
tally_eligible cap t [] = rw append-nil
tally_eligible cap t (c ∷ cs) = ground (
  arith,
  tally_eligible cap t cs,
  tally_eligible cap
      (record {
        contributor_count = t.contributor_count + 1;
        eligible = if c.showdown_eligible then t.eligible ++ c.seat_idx ∷ [] else t.eligible;
      })
      cs,
  append_assoc t.eligible (c.seat_idx ∷ []) (eligible_at cap cs),
)

-- The pot of one layer: what each seat that reached `cap` put between `prev` and `cap`.
abbrev pub layer : List PotContributor → ℕ → ℕ → Pot
layer cs prev cap = record {
  cap = cap;
  amount = (cap - prev) * count_at cap cs;
  eligible_seat_indices = eligible_at cap cs;
}

unfoldable pub layers : List PotContributor → ℕ → List ℕ → List Pot
layers cs prev [] = []
layers cs prev (cap ∷ caps) =
    let same = layers cs prev caps in
    let rest = layers cs cap caps in
    if leb cap prev
    then same
    else if ltb 0 (layer cs prev cap).amount
    then layer cs prev cap ∷ rest
    else rest

pub slice_pots-layers :
    (cs : List PotContributor) (pots : List Pot) (prev : ℕ) (caps : List ℕ)
    → slice_pots cs pots prev caps ≡ pots ++ layers cs prev caps
unfolding slice_pots layers
slice_pots-layers cs pots prev [] = rw append-nil
slice_pots-layers cs pots prev (cap ∷ caps) = ground (
  arith,
  tally_count cap no_tally cs,
  tally_eligible cap no_tally cs,
  slice_pots-layers cs pots prev caps,
  slice_pots-layers cs pots cap caps,
  slice_pots-layers cs (pots ++ layer cs prev cap ∷ []) cap caps,
  append_assoc pots (layer cs prev cap ∷ []) (layers cs cap caps),
)

-- The caps are ascending and positive, and every positive contribution is one of them.
pub collect_caps-IsAscending :
    (caps : List ℕ) (cs : List PotContributor)
    → IsAscending caps
    → IsAscending (collect_caps caps cs)
unfolding collect_caps
collect_caps-IsAscending caps [] s = s
collect_caps-IsAscending caps (c ∷ cs) s =
    collect_caps-IsAscending (if ltb 0 c.committed then insert c.committed caps else caps) cs
      (ground (arith, insert-IsAscending c.committed caps s))

pub collect_caps-Above :
    (caps : List ℕ) (cs : List PotContributor) → Above 0 caps → Above 0 (collect_caps caps cs)
unfolding collect_caps
collect_caps-Above caps [] s = s
collect_caps-Above caps (c ∷ cs) s =
    collect_caps-Above (if ltb 0 c.committed then insert c.committed caps else caps) cs
      (ground (arith, Above-insert 0 c.committed caps))

pub member-collect_caps :
    (n : ℕ) (caps : List ℕ) (cs : List PotContributor)
    → member n caps ≡ true
    → member n (collect_caps caps cs) ≡ true
unfolding collect_caps
member-collect_caps n caps [] h = h
member-collect_caps n caps (c ∷ cs) h =
    member-collect_caps n (if ltb 0 c.committed then insert c.committed caps else caps) cs
      (ground (arith, member-insert n c.committed caps))

-- A contribution is at most `prev`, or is a cap that is still to come.
abbrev pub Covered : ℕ → List ℕ → PotContributor → Type 0
Covered prev caps c = (c.committed ≤ prev) ⊎ (member c.committed caps ≡ true)

pub collect_caps-Covered :
    (caps : List ℕ) (cs : List PotContributor) → All (Covered 0 (collect_caps caps cs)) cs
unfolding collect_caps
collect_caps-Covered caps [] = tt
collect_caps-Covered caps (c ∷ cs) =
    let next : List ℕ = if ltb 0 c.committed then insert c.committed caps else caps in
    (
      ground (
        arith,
        member-collect_caps c.committed next cs,
        member-insert c.committed c.committed caps,
      ),
      collect_caps-Covered next cs,
    )
