-- ===== src/Table/Action/Laws.antt =====
-- What a request does to the table as a whole.
use Prim.Native.String.{String}
use dezhou.Prelude.{ℕ, ◌≡◌, refl, inl, inr, ◌⊎◌, Bool-cases, some, none, leb, length, is_empty}
use dezhou.Table.State.{Room, Env, ActionRequest}
use dezhou.Table.Seats.{get_in_hand_seats}
use dezhou.Table.Betting.{remove_ineligible_from_pending, choose_next_actor, can_advance_street}
use dezhou.Table.Turn.Settled.{
  Settled, finish_hand-round, request_turn-Settled, proceed_to_next_street-Settled,
}
use dezhou.Table.Action.{after_action, handle_action}
use dezhou.Table.Action.Cases.{handle_action_cases}

-- The table after an action has settled: the hand is over or waits for a pending seat.
pub after_action-Settled : (env : Env) (room : Room) (i : ℕ) → Settled env (after_action env room i)
unfolding after_action can_advance_street choose_next_actor
after_action-Settled env room i =
    let pruned = remove_ineligible_from_pending (remove_ineligible_from_pending room) in
    elim (Bool-cases (leb (length (get_in_hand_seats env room)) 1)) [
      | inl e ↦ rw e (inl (finish_hand-round env room))
      | inr e ↦ elim (Bool-cases (is_empty pruned.pending_action_seats)) [
        | inl a ↦ rw (e, a) (proceed_to_next_street-Settled env pruned)
        | inr a ↦ rw (e, a) (request_turn-Settled env _)
      ]
    ]

abbrev pub marked : Room → ℕ → Room
marked room i = record room { last_actor_seat_idx = some i }

-- A request either leaves the room as it is, or only marks the last actor, or is carried out: then
-- it gets no reason, and leaves the hand over, or waiting for one pending seat that has the turn
-- and whose timer runs exactly if a machine plays it.
pub handle_action_outcomes :
    (env : Env) (room : Room) (i : ℕ) (action : ActionRequest) (socket : String)
    → let r = handle_action env room i action socket in
      (r.0 ≡ room) ⊎ ((r.0 ≡ marked room i) ⊎ ((r.1 ≡ none) × Settled env r.0))
handle_action_outcomes env room i action socket =
    handle_action_cases
      (λ r. (r.0 ≡ room) ⊎ ((r.0 ≡ marked room i) ⊎ ((r.1 ≡ none) × Settled env r.0))) env room i
      action socket (λ o. inl refl) (λ o. inr (inl refl))
      (λ p type after g e. inr (inr (refl, after_action-Settled env after i)))
