-- ===== src/Table/Rebuys/Balance.antt =====
-- The rebuys that the next hand pays out.
use dezhou.Prelude.{
  ℕ, ◌+◌, ◌<◌, ◌^◌, ◌≡◌, refl, inl, inr, Bool-cases, List, [], ◌∷◌, leb, All, arith,
}
use dezhou.Prelude.Int.{pos_part}
use dezhou.Prelude.Maps.{map_values, sum_values, sum-map_values}
use dezhou.Table.State.{Room, Env, PlayerState}
use dezhou.Table.Events.{broadcast_activity, emit_room_event, append_room_event}
use dezhou.Table.Deal.{apply_pending_rebuys, announce_rebuys, rebuy_player}

-- A stack with the chips that its player has pledged; a pledge that has wrapped around to a
-- negative sum counts as none.
abbrev pub funds : PlayerState → ℕ
funds p = p.chips + pos_part p.pending_rebuy

abbrev pub pledged : List (ℕ × PlayerState) → ℕ
pledged = sum_values funds

announce_rebuys-players :
    (env : Env) (m : List (ℕ × PlayerState)) (room : Room)
    → (announce_rebuys env m room).players ≡ room.players
unfolding announce_rebuys broadcast_activity emit_room_event append_room_event
announce_rebuys-players env [] room = refl
announce_rebuys-players env ((i, p) ∷ m) room =
    elim (Bool-cases (leb (pos_part p.pending_rebuy) 0)) [
      | inl no_chips ↦ rw (announce_rebuys, no_chips) (announce_rebuys-players env m room)
      | inr some_chips ↦ rw (announce_rebuys, some_chips) (announce_rebuys-players env m _)
    ]

-- The stack with the pledge is an `int`.
abbrev pub HasFunds : ℕ × PlayerState → Type 0
HasFunds e = funds e.1 < 2 ^ 31

-- The stack is an `int`, and no pledge is left to be paid.
abbrev pub IsPaid : ℕ × PlayerState → Type 0
IsPaid e = (e.1.chips < 2 ^ 31) × (pos_part e.1.pending_rebuy ≡ 0)

rebuys-IsPaid :
    (m : List (ℕ × PlayerState)) → All HasFunds m → All IsPaid (map_values (λ i. rebuy_player) m)
unfolding map_values
rebuys-IsPaid [] h = tt
rebuys-IsPaid ((i, p) ∷ m) h = (ground (arith, h.0), rebuys-IsPaid m h.1)

rebuy_player-funds : (p : PlayerState) → funds (rebuy_player p) ≡ funds p
rebuy_player-funds p = ground arith

-- Where every stack and its pledge fit an `int` together, the rebuys of the next hand turn every
-- positive pledge into chips: no positive pledge is left, every stack is an `int`, and the stacks
-- and the positive pledges of the table together are what they were.
pub apply_pending_rebuys-pledged :
    (env : Env) (room : Room)
    → All HasFunds room.players
    → (pledged (apply_pending_rebuys env room).players ≡ pledged room.players)
      × All IsPaid (apply_pending_rebuys env room).players
unfolding apply_pending_rebuys
apply_pending_rebuys-pledged env room h =
    let paid = map_values (λ i. rebuy_player) room.players in
    rw (announce_rebuys-players env room.players (record room { players = paid })) (
      sum-map_values funds (λ i. rebuy_player) room.players (λ k. rebuy_player-funds),
      rebuys-IsPaid room.players h,
    )
