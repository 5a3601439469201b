-- ===== src/Prelude/Ranges.antt =====
-- A test of all numbers below a bound, for facts that are checked by evaluation.
use Prim.Native.Nat.{ℕ, zero, suc, ◌<◌}
use mathlib.Core.Path.{◌≡◌}
use mathlib.Core.Bool.{Bool, true, false}
use native.Mathlib.Omega.{arith}
use dezhou.Prelude.Tests.{if◌then◌else◌}

-- Whether a test holds at every index of a table with `count` rows.
unfoldable pub holds_at_rows : (ℕ → Bool) → ℕ → Bool
holds_at_rows test zero = true
holds_at_rows test (suc row) =
    let earlier = holds_at_rows test row in if test row then earlier else false

-- Every row passes.
pub row_holds :
    (test : ℕ → Bool) (count row : ℕ)
    → row < count
    → holds_at_rows test count ≡ true
    → test row ≡ true
unfolding holds_at_rows
row_holds test zero row below checked = absurd (omega arith)
row_holds test (suc last) row below checked = ground (arith, row_holds test last row)
