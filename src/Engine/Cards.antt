-- ===== src/Engine/Cards.antt =====
-- backend-cpp/src/engine/holdem_types.hpp. Card values and ranks are `int`s that are never
-- negative.
use Prim.Native.String.{String}
use dezhou.Prelude.{ℕ, List, []}

pub record Card : Type 0 where
  pub s : String
  pub r : String
  pub v : ℕ

pub record HandEval : Type 0 where
  pub rank : ℕ
  pub value : List ℕ
  pub desc : String

-- `HandEval{}`.
abbrev pub empty_eval : HandEval
empty_eval = record { rank = 0; value = []; desc = "" }
