-- ===== src/Table/Action/Cases.antt =====
-- The branches of `handle_action` as one rule.
use Prim.Native.String.{String}
use text.Mathlib.Text.{◌==◌ as str_eq}
use dezhou.Prelude.{
  ℕ, ◌≡◌, refl, true, false, not, ◌&&◌, ◌||◌, arith, inl, inr, ◌⊎◌, Option-cases, Bool-cases,
  Option, some, none,
}
use dezhou.Prelude.Sets.{member}
use dezhou.Text.{normalize_action_name}
use dezhou.Table.State.{PlayerState, Room, Env, ActionRequest, seat_at}
use dezhou.Table.Seats.{get_player}
use dezhou.Table.Action.{
  Outcome, done, refused, Reason, ActionType, apply_action, after_action, handle_action,
  is_active_seat, is_player, action_type,
}

pub Outcome-cases :
    (o : Outcome) → ((r : Reason) × (o ≡ refused r)) ⊎ ((after : Room) × (o ≡ done after))
Outcome-cases (done after) = inr (after, refl)
Outcome-cases (refused r) = inl (r, refl)

-- What `handle_action` has checked when it comes to the action: the seat has a player `p` who is
-- in the hand and has the turn, and the request names the action `type`.
pub record Admitted (room : Room) (i : ℕ) (action : ActionRequest) (p : PlayerState)
    (type : ActionType) : Type 0 where
  pub present : get_player room i ≡ some p
  pub playing : (p.is_folded || p.is_bankrupt) ≡ false
  pub active : is_active_seat room i ≡ true
  pub pending : member i room.pending_action_seats ≡ true
  pub named : action_type (normalize_action_name action.type) ≡ some type

module _ {ℓ} (P : Room × Option Reason → Type ℓ) (env : Env) (room : Room) (i : ℕ)
    (action : ActionRequest) (socket : String) where
  pub handle_action_cases :
      ((o : Option Reason) → P (room, o))
      → ((o : Option Reason) → P (record room { last_actor_seat_idx = some i }, o))
      → ((p : PlayerState) (type : ActionType) (after : Room)
          → Admitted room i action p type
          → apply_action env (record room { last_actor_seat_idx = some i }) i p type action.raise_by
            ≡ done after
          → P (after_action env after i, none))
      → P (handle_action env room i action socket)
  unfolding handle_action
  handle_action_cases stay marked acts =
      let acted = record room { last_actor_seat_idx = some i } in
      elim (Option-cases (get_player room i)) [
        | inl e ↦ rw (e, handle_action) (stay _)
        | inr (p, e) ↦
            elim (Bool-cases (not (is_player (seat_at room i).type) && not (str_eq socket ""))) [
              | inl a ↦ rw (e, handle_action, a) (stay _)
              | inr a ↦ elim (Bool-cases (p.is_folded || p.is_bankrupt)) [
                | inl b ↦ rw (e, handle_action, a, b) (stay _)
                | inr b ↦
                    elim (Bool-cases
                      (not (is_active_seat room i) || not (member i room.pending_action_seats))) [
                        | inl c ↦ rw (e, handle_action, a, b, c) (stay _)
                        | inr c ↦
                            elim (Option-cases (action_type (normalize_action_name action.type))) [
                              | inl d ↦ rw (e, handle_action, a, b, c, d) (marked _)
                              | inr (type, d) ↦
                                  elim (Outcome-cases
                                    (apply_action env acted i p type action.raise_by)) [
                                      | inl (r, f) ↦ rw (e, handle_action, a, b, c, d, f) (marked _)
                                      | inr (after, f) ↦
                                          rw (e, handle_action, a, b, c, d, f)
                                            (acts p type after
                                              (record {
                                                present = e;
                                                playing = b;
                                                active = ground (arith, c);
                                                pending = ground (arith, c);
                                                named = d;
                                              })
                                              f)
                                    ]
                            ]
                      ]
              ]
            ]
      ]
