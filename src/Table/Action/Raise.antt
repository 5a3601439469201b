-- ===== src/Table/Action/Raise.antt =====
-- Raises and all-ins: what they do to the betting.
use dezhou.Prelude.{
  ℕ, ◌+◌, ◌-◌, ◌^◌, ◌≤◌, ◌<◌, ◌≡◌, refl, subst, ◌∙◌, true, false, ◌||◌, arith, some, ap, ltb, leb,
}
use dezhou.Prelude.Int.{ℤ, pos, negsuc, ltb_ℤ, add_int32}
use dezhou.Prelude.Sets.{erase}
use dezhou.Prelude.Maps.{adjust, find-adjust_self}
use dezhou.Table.State.{PlayerState, Room, Env, Notice, ActionText}
use dezhou.Table.Events.{
  broadcast_activity, broadcast_player_action, emit_room_event, append_room_event,
}
use dezhou.Table.Seats.{get_player}
use dezhou.Table.Betting.{place_bet, pay_in, real_bet}
use dezhou.Table.Action.{
  done, announce, do_raise, do_all_in, reopen_betting, bet_of, call_amount, leave_pending, name_at,
}

-- The room and the player after a bet of `real` chips.
abbrev pub bet_room : Room → ℕ → ℕ → Room
bet_room room i real = record room {
  players = adjust i (pay_in real) room.players;
  pot = room.pot + real;
}

pub place_bet-eq :
    (room : Room) (i : ℕ) (p : PlayerState) (amount : ℤ)
    → get_player room i ≡ some p
    → (p.is_folded || p.is_bankrupt) ≡ false
    → (place_bet room i amount).0 ≡ bet_room room i (real_bet amount p.chips)
unfolding place_bet
place_bet-eq room i p amount e b = rw (e, place_bet, b) refl

pub bet_of-bet_room :
    (room : Room) (i real : ℕ) (p : PlayerState)
    → get_player room i ≡ some p
    → bet_of (bet_room room i real) i ≡ p.current_bet + real
unfolding get_player
bet_of-bet_room room i real p e =
    rw (find-adjust_self i (pay_in real) room.players p e, bet_of) refl

pub announce-bets :
    (env : Env) (room : Room) (i : ℕ) (n : Notice) (t : ActionText)
    → ((announce env room i n t).current_max_bet ≡ room.current_max_bet)
      × ((announce env room i n t).min_raise ≡ room.min_raise)
      × ((announce env room i n t).pot ≡ room.pot)
      × ((announce env room i n t).players ≡ room.players)
      × ((announce env room i n t).pending_action_seats ≡ room.pending_action_seats)
unfolding announce broadcast_activity broadcast_player_action emit_room_event append_room_event
announce-bets env room i n t = (refl, refl, refl, refl, refl)

-- What a raise has done that put in `real` chips: the state after it, by the state before it.
pub record Raised (env : Env) (room : Room) (i : ℕ) (p : PlayerState) (by real : ℕ) (after : Room)
    : Type 0 where
  pub new_max : after.current_max_bet ≡ p.current_bet + real
  pub new_min : after.min_raise ≡ by
  pub paid : get_player after i ≡ some (pay_in real p)
  pub pot_grows : after.pot ≡ room.pot + real

abbrev raised_room : Env → Room → ℕ → ℕ → Room → Room
raised_room env room i by bet =
    announce env
      (reopen_betting env (record bet { current_max_bet = bet_of bet i; min_raise = by }) i) i
      (Notice.raises_to (name_at room i) (bet_of bet i)) (ActionText.did_raise (bet_of bet i))

raised_room-Raised :
    (env : Env) (room : Room) (i : ℕ) (p : PlayerState) (by real : ℕ)
    → get_player room i ≡ some p
    → Raised env room i p by real (raised_room env room i by (bet_room room i real))
unfolding announce broadcast_activity broadcast_player_action emit_room_event append_room_event
    reopen_betting get_player
raised_room-Raised env room i p by real e = record {
  new_max = bet_of-bet_room room i real p e;
  new_min = refl;
  paid = find-adjust_self i (pay_in real) room.players p e;
  pot_grows = refl;
}

do_raise_effect :
    (env : Env) (room : Room) (i : ℕ) (p : PlayerState) (by : ℕ)
    → get_player room i ≡ some p
    → (p.is_folded || p.is_bankrupt) ≡ false
    → room.min_raise ≤ by
    → ltb_ℤ (pos p.chips) (add_int32 (call_amount room p) by) ≡ false
    → (after : Room) × (do_raise env room i p (pos by) ≡ done after)
      × Raised env room i p by (real_bet (add_int32 (call_amount room p) by) p.chips) after
unfolding do_raise
do_raise_effect env room i p by e b low enough =
    let total = add_int32 (call_amount room p) by in
    let high : ltb_ℤ (pos by) (pos room.min_raise) ≡ false = ground (arith, low) in
    (
      raised_room env room i by (bet_room room i (real_bet total p.chips)),
      rw (high, enough, place_bet-eq room i p total e b) refl,
      raised_room-Raised env room i p by (real_bet total p.chips) e,
    )

-- A raise of at least the minimum, by no more chips than the player has, is carried out: the
-- player pays the call and the raise into the pot, the highest bet becomes his bet, and the raise
-- becomes the new minimum. Chips are an `int`.
pub do_raise-Raised :
    (env : Env) (room : Room) (i : ℕ) (p : PlayerState) (by : ℕ)
    → get_player room i ≡ some p
    → (p.is_folded || p.is_bankrupt) ≡ false
    → room.min_raise ≤ by
    → call_amount room p + by ≤ p.chips
    → p.chips < 2 ^ 31
    → (after : Room) × (do_raise env room i p (pos by) ≡ done after)
      × Raised env room i p by (call_amount room p + by) after
do_raise-Raised env room i p by e b low enough small =
    let call_amt = call_amount room p in
    let sum : add_int32 call_amt by ≡ pos (call_amt + by) = ground (arith, enough, small) in
    let real : real_bet (add_int32 call_amt by) p.chips ≡ call_amt + by =
      rw sum (omega (arith, enough)) in
    let covered : ltb_ℤ (pos p.chips) (add_int32 call_amt by) ≡ false =
      rw sum (ground (arith, enough)) in
    subst
      (λ n.
        (after : Room) × (do_raise env room i p (pos by) ≡ done after)
        × Raised env room i p by n after)
      real (do_raise_effect env room i p by e b low covered)

-- A raise so large that the sum of the call and the raise leaves the `int` range wraps around to a
-- negative number and is carried out all the same: the player pays nothing, the highest bet falls
-- to what he had already bet, and the minimum raise becomes the requested number, whatever his
-- stack is.
pub do_raise_overflow :
    (env : Env) (room : Room) (i : ℕ) (p : PlayerState) (by : ℕ)
    → get_player room i ≡ some p
    → (p.is_folded || p.is_bankrupt) ≡ false
    → room.min_raise ≤ by
    → 2 ^ 31 ≤ call_amount room p + by
    → call_amount room p + by < 2 ^ 32
    → (after : Room) × (do_raise env room i p (pos by) ≡ done after)
      × Raised env room i p by 0 after
do_raise_overflow env room i p by e b low large top =
    let call_amt = call_amount room p in
    let sum : add_int32 call_amt by ≡ negsuc (2 ^ 32 - (call_amt + by) - 1) =
      ground (arith, large, top) in
    let real : real_bet (add_int32 call_amt by) p.chips ≡ 0 = rw sum refl in
    let covered : ltb_ℤ (pos p.chips) (add_int32 call_amt by) ≡ false = rw sum (ground arith) in
    subst
      (λ n.
        (after : Room) × (do_raise env room i p (pos by) ≡ done after)
        × Raised env room i p by n after)
      real (do_raise_effect env room i p by e b low covered)

abbrev short_room : Env → Room → ℕ → PlayerState → Room
short_room env room i p =
    let bet = bet_room room i p.chips in
    announce env (leave_pending (record bet { current_max_bet = p.current_bet + p.chips }) i) i
      (Notice.short_all_in (name_at room i) (p.current_bet + p.chips))
      (ActionText.did_all_in_to (p.current_bet + p.chips))

-- An all-in above the highest bet, but by less than the minimum raise, does not reopen the
-- betting: the seats that were still to act stay as they are but for the player's own, the minimum
-- raise stays, the highest bet becomes his whole stack on top of his bet, and he has no chips left.
pub do_all_in_short :
    (env : Env) (room : Room) (i : ℕ) (p : PlayerState)
    → get_player room i ≡ some p
    → (p.is_folded || p.is_bankrupt) ≡ false
    → 0 < p.chips
    → room.current_max_bet < p.current_bet + p.chips
    → p.current_bet + p.chips < room.current_max_bet + room.min_raise
    → (after : Room) × (do_all_in env room i p ≡ done after)
      × (after.pending_action_seats ≡ erase i room.pending_action_seats)
      × (after.min_raise ≡ room.min_raise)
      × (after.current_max_bet ≡ p.current_bet + p.chips)
      × (get_player after i ≡ some (pay_in p.chips p))
unfolding do_all_in announce broadcast_activity broadcast_player_action emit_room_event
    append_room_event get_player
do_all_in_short env room i p e b some_chips over short =
    let all : real_bet (pos p.chips) p.chips ≡ p.chips = omega arith in
    let bet = bet_room room i p.chips in
    let placed : (place_bet room i (pos p.chips)).0 ≡ bet =
      place_bet-eq room i p (pos p.chips) e b ∙ ap (bet_room room i) all in
    let now : bet_of bet i ≡ p.current_bet + p.chips = bet_of-bet_room room i p.chips p e in
    let has_chips : leb p.chips 0 ≡ false = ground arith in
    let above : ltb room.current_max_bet (p.current_bet + p.chips) ≡ true = ground arith in
    let below : leb room.min_raise (p.current_bet + p.chips - room.current_max_bet) ≡ false =
      ground arith in
    (
      short_room env room i p,
      rw (has_chips, placed, now, above, below) refl,
      refl,
      refl,
      refl,
      find-adjust_self i (pay_in p.chips) room.players p e,
    )
