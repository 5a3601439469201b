-- ===== src/Engine/RoundPhase.antt =====
-- backend-cpp/src/engine/round_phase.cpp: the streets of a hand and their names.
use Prim.Native.String.{String}
use text.Mathlib.Text.{◌==◌}
use dezhou.Prelude.{◌≡◌, refl, Bool, true, false, Option, none, some, if◌then◌else◌}

pub data RoundPhase : Type 0 where
  waiting pre_flop flop turn river showdown hand_over : RoundPhase

pub round_phase_from_string : String → RoundPhase
round_phase_from_string value =
    if value == "PRE-FLOP"
    then pre_flop
    else if value == "FLOP"
    then flop
    else if value == "TURN"
    then turn
    else if value == "RIVER"
    then river
    else if value == "SHOWDOWN"
    then showdown
    else if value == "HAND_OVER"
    then hand_over
    else waiting

pub to_string : RoundPhase → String
to_string waiting = "WAITING"
to_string pre_flop = "PRE-FLOP"
to_string flop = "FLOP"
to_string turn = "TURN"
to_string river = "RIVER"
to_string showdown = "SHOWDOWN"
to_string hand_over = "HAND_OVER"

unfoldable pub is_betting_round : RoundPhase → Bool
is_betting_round pre_flop = true
is_betting_round flop = true
is_betting_round turn = true
is_betting_round river = true
is_betting_round _ = false

unfoldable pub next_round_phase : RoundPhase → Option RoundPhase
next_round_phase pre_flop = some flop
next_round_phase flop = some turn
next_round_phase turn = some river
next_round_phase river = some showdown
next_round_phase _ = none

-- Reading back the name of a phase gives that phase, for all seven phases.
pub round_phase_from_string-to_string : (p : RoundPhase) → round_phase_from_string (to_string p) ≡ p
unfolding round_phase_from_string to_string
round_phase_from_string-to_string waiting = refl
round_phase_from_string-to_string pre_flop = refl
round_phase_from_string-to_string flop = refl
round_phase_from_string-to_string turn = refl
round_phase_from_string-to_string river = refl
round_phase_from_string-to_string showdown = refl
round_phase_from_string-to_string hand_over = refl
