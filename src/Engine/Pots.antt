-- ===== src/Engine/Pots.antt =====
-- backend-cpp/src/engine/pot_manager.cpp: the main pot and the side pots of a hand. The amounts are
-- numbers without an upper bound here; the code's `int` has one, and nothing bounds the chips that
-- a table plays with, so what is shown holds of the code while the amounts and sums fit an `int`.
pub mod Layers
pub mod Totals
pub mod Shares
use dezhou.Prelude.{ℕ, ◌+◌, ◌-◌, ◌*◌, Bool, List, [], ◌∷◌, ◌++◌, ltb, leb, if◌then◌else◌}
use dezhou.Prelude.Sets.{insert}

pub record PotContributor : Type 0 where
  pub seat_idx : ℕ
  pub committed : ℕ
  pub showdown_eligible : Bool

pub record Pot : Type 0 where
  pub cap : ℕ
  pub amount : ℕ
  pub eligible_seat_indices : List ℕ

-- The first loop: the distinct positive contributions.
pub collect_caps : List ℕ → List PotContributor → List ℕ
unfolding insert
collect_caps caps [] = caps
collect_caps caps (c ∷ cs) =
    collect_caps (if ltb 0 c.committed then insert c.committed caps else caps) cs

pub record Tally : Type 0 where
  pub contributor_count : ℕ
  pub eligible : List ℕ

-- The inner loop: who reached `cap`, and which of those may win.
pub tally : ℕ → Tally → List PotContributor → Tally
tally cap t [] = t
tally cap t (c ∷ cs) =
    tally cap
      (if ltb c.committed cap then t else record {
        contributor_count = t.contributor_count + 1;
        eligible = if c.showdown_eligible then t.eligible ++ c.seat_idx ∷ [] else t.eligible;
      })
      cs

abbrev no_tally : Tally
no_tally = record { contributor_count = 0; eligible = [] }

-- The loop over the caps.
pub slice_pots : List PotContributor → List Pot → ℕ → List ℕ → List Pot
slice_pots cs pots previous_cap [] = pots
slice_pots cs pots previous_cap (cap ∷ caps) =
    let slice = cap - previous_cap in
    let t = tally cap no_tally cs in
    let amount = slice * t.contributor_count in
    let pot : Pot = record { cap = cap; amount = amount; eligible_seat_indices = t.eligible } in
    let skip = leb cap previous_cap in
    slice_pots cs (if skip then pots else if ltb 0 amount then pots ++ pot ∷ [] else pots)
      (if skip then previous_cap else cap) caps

unfoldable pub build_pots : List PotContributor → List Pot
unfolding collect_caps tally slice_pots
build_pots contributors = slice_pots contributors [] 0 (collect_caps [] contributors)
