-- ===== src/Table/Frame/Actions.antt =====
-- A player's action keeps the frame, and so does what happens to a hand without a request.
use Prim.Native.String.{String}
use dezhou.Prelude.{
  ℕ, false, refl, subst, none, some, ◌&&◌, ◌||◌, not, ltb, leb, ◌==◌, ◌-◌, length, if◌then◌else◌,
  if-cases, elim-cases,
}
use dezhou.Prelude.Int.{ℤ, pos, pos_part, ltb_ℤ, add_int32}
use dezhou.Prelude.Maps.{adjust}
use dezhou.Table.State.{Room, Env, PlayerState, Notice, ActionText, ActionRequest, seat_at}
use dezhou.Table.Seats.{get_player, get_in_hand_seats}
use dezhou.Table.Betting.{
  place_bet, remove_ineligible_from_pending, choose_next_actor, can_advance_street,
}
use dezhou.Table.Action.{
  Outcome, done, refused, ActionType, fold, check, call, raise, all_in, announce, do_fold, do_check,
  do_call, do_raise, do_all_in, reopen_betting, leave_pending, fold_player, call_amount, bet_of,
  name_at, apply_action, after_action, handle_action,
}
use dezhou.Table.Action.Cases.{handle_action_cases}
use dezhou.Table.Hand.{ai_act, ai_timer_fired, Draw, resolve_disconnect_for_current_hand, sit_out}
use dezhou.Table.Turn.{is_machine}
use dezhou.Table.Frame.{
  Frames, quiet, and_then, broadcast_activity-Frames, broadcast_player_action-Frames,
}
use dezhou.Table.Frame.Money.{finish_hand-Frames}
use dezhou.Table.Frame.Turns.{request_turn-Frames, proceed_to_next_street-Frames, place_bet-Frames}

announce-Frames :
    (env : Env) (room : Room) (i : ℕ) (notice : Notice) (text : ActionText)
    → Frames room (announce env room i notice text)
unfolding announce
announce-Frames env room i notice text =
    and_then (broadcast_activity-Frames env room notice)
      (broadcast_player_action-Frames env _ i text)

-- An outcome keeps the frame where it is done.
abbrev OutcomeFrames : Room → Outcome → Type 0
OutcomeFrames room (done after) = Frames room after
OutcomeFrames room (refused r) = Unit {0}

do_fold-Frames : (env : Env) (room : Room) (i : ℕ) → Frames room (do_fold env room i)
unfolding do_fold
do_fold-Frames env room i =
    and_then (quiet (record room { players = _; pending_action_seats = _ }) refl refl)
      (announce-Frames env _ i _ _)

do_check-Frames :
    (env : Env) (room : Room) (i : ℕ) (p : PlayerState) → OutcomeFrames room (do_check env room i p)
unfolding do_check
do_check-Frames env room i p =
    if-cases (OutcomeFrames room) (not (call_amount room p == 0)) _ _ (λ h. tt)
      (λ h. and_then (quiet (leave_pending room i) refl refl) (announce-Frames env _ i _ _))

do_call-Frames :
    (env : Env) (room : Room) (i : ℕ) (p : PlayerState) → Frames room (do_call env room i p)
unfolding do_call
do_call-Frames env room i p =
    let amount = call_amount room p in
    and_then
      (if-cases (Frames room) (ltb 0 amount) _ _
        (λ h.
          if-cases (Frames room) (ltb p.chips amount) _ _
            (λ h. and_then (place_bet-Frames room i (pos p.chips)) (announce-Frames env _ i _ _))
            (λ h. and_then (place_bet-Frames room i (pos amount)) (announce-Frames env _ i _ _)))
        (λ h. announce-Frames env room i _ _))
      (quiet _ refl refl)

do_raise-Frames :
    (env : Env) (room : Room) (i : ℕ) (p : PlayerState) (by : ℤ)
    → OutcomeFrames room (do_raise env room i p by)
unfolding do_raise reopen_betting
do_raise-Frames env room i p by =
    let total = add_int32 (call_amount room p) (pos_part by) in
    let bet = (place_bet room i total).0 in
    if-cases (OutcomeFrames room) (ltb_ℤ by (pos room.min_raise)) _ _ (λ h. tt)
      λ h.
        if-cases (OutcomeFrames room) (ltb_ℤ (pos p.chips) total) _ _ (λ h. tt)
          λ h. and_then (place_bet-Frames room i total) (
            and_then
              (quiet
                (reopen_betting env
                  (record bet { current_max_bet = bet_of bet i; min_raise = pos_part by }) i)
                refl refl)
              (announce-Frames env _ i _ _))

do_all_in-Frames :
    (env : Env) (room : Room) (i : ℕ) (p : PlayerState)
    → OutcomeFrames room (do_all_in env room i p)
unfolding do_all_in reopen_betting
do_all_in-Frames env room i p =
    let bet = (place_bet room i (pos p.chips)).0 in
    let now = bet_of bet i in
    let raise_by = now - room.current_max_bet in
    let higher = record bet { current_max_bet = now } in
    let told : (r : Room)
        → Frames bet r
        → (n : Notice) → (t : ActionText) → Frames room (announce env r i n t) =
      λ r f n t.
        and_then (and_then (place_bet-Frames room i (pos p.chips)) f)
          (announce-Frames env r i n t) in
    if-cases (OutcomeFrames room) (leb p.chips 0) _ _ (λ h. tt)
      λ h.
        if-cases (Frames room) (ltb room.current_max_bet now) _ _
          (λ h.
            if-cases (Frames room) (leb room.min_raise raise_by) _ _
              (λ h.
                told (reopen_betting env (record higher { min_raise = raise_by }) i)
                  (quiet _ refl refl) _ _)
              (λ h. told (leave_pending higher i) (quiet _ refl refl) _ _))
          (λ h. told (leave_pending bet i) (quiet _ refl refl) _ _)

apply_action-Frames :
    (env : Env) (room : Room) (i : ℕ) (p : PlayerState) (type : ActionType) (by : ℤ)
    → OutcomeFrames room (apply_action env room i p type by)
unfolding apply_action
apply_action-Frames env room i p fold by = do_fold-Frames env room i
apply_action-Frames env room i p check by = do_check-Frames env room i p
apply_action-Frames env room i p call by = do_call-Frames env room i p
apply_action-Frames env room i p raise by = do_raise-Frames env room i p by
apply_action-Frames env room i p all_in by = do_all_in-Frames env room i p

after_action-Frames : (env : Env) (room : Room) (i : ℕ) → Frames room (after_action env room i)
unfolding after_action can_advance_street choose_next_actor remove_ineligible_from_pending
after_action-Frames env room i =
    let (pruned, advance) = can_advance_street (remove_ineligible_from_pending room) in
    let (chosen, actor) = choose_next_actor pruned i in
    if-cases (Frames room) (leb (length (get_in_hand_seats env room)) 1) _ _
      (λ h. finish_hand-Frames env room)
      (λ h.
        if-cases (Frames room) advance _ _
          (λ h. and_then (quiet pruned refl refl) (proceed_to_next_street-Frames env pruned))
          (λ h.
            and_then (quiet (record chosen { active_seat_idx = actor }) refl refl)
              (request_turn-Frames env _)))

pub handle_action-Frames :
    (env : Env) (room : Room) (i : ℕ) (action : ActionRequest) (socket : String)
    → Frames room (handle_action env room i action socket).0
handle_action-Frames env room i action socket =
    handle_action_cases (λ r. Frames room r.0) env room i action socket (λ o. quiet room refl refl)
      (λ o. quiet (record room { last_actor_seat_idx = some i }) refl refl)
      (λ p type after h e.
        let acted = record room { last_actor_seat_idx = some i } in
        and_then (quiet acted refl refl) (
          and_then
            (subst (OutcomeFrames acted) e (apply_action-Frames env acted i p type action.raise_by))
            (after_action-Frames env after i)))

ai_act-Frames : (env : Env) (room : Room) (i : ℕ) (r : Draw) → Frames room (ai_act env room i r)
unfolding ai_act choose_next_actor remove_ineligible_from_pending
ai_act-Frames env room i r =
    let (chosen, actor) = choose_next_actor (leave_pending room i) i in
    let pass =
      and_then (quiet (record chosen { active_seat_idx = actor }) refl refl)
        (request_turn-Frames env _) in
    elim-cases (Frames room) (get_player room i) _ _ (λ e. pass)
      λ p e.
        if-cases (Frames room) (p.is_folded || p.is_bankrupt) _ _ (λ h. pass)
          (λ h. handle_action-Frames env room i _ "")

pub ai_timer_fired-Frames :
    (env : Env) (room : Room) (r : Draw) → Frames room (ai_timer_fired env room r)
unfolding ai_timer_fired
ai_timer_fired-Frames env room r =
    elim-cases (Frames room) room.ai_timer _ _ (λ e. quiet room refl refl)
      λ i e.
        let spent = record room { ai_timer = none } in
        elim-cases (Frames room) room.active_seat_idx _ _ (λ e. quiet spent refl refl)
          λ a e.
            if-cases (Frames room) (a == i && is_machine env (seat_at room i)) _ _
              (λ h. and_then (quiet spent refl refl) (ai_act-Frames env spent i r))
              (λ h. quiet spent refl refl)

pub resolve_disconnect-Frames :
    (env : Env) (room : Room) (i : ℕ) → Frames room (resolve_disconnect_for_current_hand env room i)
unfolding resolve_disconnect_for_current_hand can_advance_street choose_next_actor
    remove_ineligible_from_pending
resolve_disconnect-Frames env room i =
    elim-cases (Frames room) (get_player room i) _ _ (λ e. quiet room refl refl)
      λ p e.
        let out =
          leave_pending (record room { players = adjust i (sit_out room.hand_num) room.players })
            i in
        let folded = record out { players = adjust i fold_player out.players } in
        let told =
          if ltb 0 (call_amount room p)
          then announce env folded i (Notice.auto_folded (name_at room i)) ActionText.did_fold
          else announce env out i (Notice.auto_checked (name_at room i)) ActionText.did_check in
        let to_told : Frames room told =
          if-cases (Frames room) (ltb 0 (call_amount room p)) _ _
            (λ h. and_then (quiet folded refl refl) (announce-Frames env folded i _ _))
            (λ h. and_then (quiet out refl refl) (announce-Frames env out i _ _)) in
        let (pruned, advance) = can_advance_street told in
        let (chosen, actor) = choose_next_actor pruned i in
        if-cases (Frames room) (not (elim room.active_seat_idx [ none ↦ false | some a ↦ a == i ]))
          _ _
          (λ h.
            if-cases (Frames room) (ltb p.current_bet room.current_max_bet) _ _
              (λ h. quiet folded refl refl) (λ h. quiet out refl refl))
          (λ h.
            if-cases (Frames room) (leb (length (get_in_hand_seats env told)) 1) _ _
              (λ h. and_then to_told (finish_hand-Frames env told))
              (λ h.
                if-cases (Frames room) advance _ _
                  (λ h.
                    and_then to_told (
                      and_then (quiet pruned refl refl) (proceed_to_next_street-Frames env pruned)))
                  (λ h. and_then to_told (
                    and_then (quiet (record chosen { active_seat_idx = actor }) refl refl)
                      (request_turn-Frames env _)))))
