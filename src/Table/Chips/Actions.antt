-- ===== src/Table/Chips/Actions.antt =====
-- No action of a player makes a chip.
use Prim.Native.String.{String}
use dezhou.Prelude.{
  ℕ, ◌+◌, ◌-◌, ◌≤◌, ◌≡◌, refl, subst, ◌||◌, arith, length, inl, inr, Option-cases, Bool-cases, some,
  is_empty, ltb, leb, ◌==◌,
}
use dezhou.Prelude.Int.{ℤ, pos, negsuc, pos_part, ltb_ℤ, add_int32}
use dezhou.Prelude.Maps.{adjust, find, sum-adjust, sum-adjust_same}
use dezhou.Table.State.{PlayerState, Room, Env, Notice, ActionText, ActionRequest}
use dezhou.Table.Events.{
  broadcast_activity, broadcast_player_action, emit_room_event, append_room_event,
}
use dezhou.Table.Seats.{get_player, get_in_hand_seats}
use dezhou.Table.Betting.{
  place_bet, pay_in, real_bet, remove_ineligible_from_pending, choose_next_actor,
  can_advance_street,
}
use dezhou.Table.Action.{
  Outcome, done, refused, ActionType, fold, check, call, raise, all_in, announce, do_fold, do_check,
  do_call, do_raise, do_all_in, apply_action, after_action, handle_action, leave_pending,
  fold_player, reopen_betting, bet_of, call_amount,
}
use dezhou.Table.Action.Cases.{handle_action_cases}
use dezhou.Table.Chips.Streets.{
  Keeps, Keeps-refl, Keeps-trans, Keeps-same, Ends, Keeps-Ends, finish_hand-Ends, request_turn-Ends,
  proceed_to_next_street-Ends,
}

real_bet-le : (amount : ℤ) (chips : ℕ) → real_bet amount chips ≤ chips
real_bet-le (pos n) chips = omega arith
real_bet-le (negsuc n) chips = omega arith

paid-Keeps :
    (room : Room) (i real : ℕ) (p : PlayerState)
    → find i room.players ≡ some p
    → real ≤ p.chips
    → Keeps room
        (record room { players = adjust i (pay_in real) room.players; pot = room.pot + real })
paid-Keeps room i real p e h = record {
  total = omega (
    arith,
    sum-adjust (λ q. q.chips) i (pay_in real) room.players p e,
    sum-adjust (λ q. q.hand_contribution) i (pay_in real) room.players p e,
  );
  tracked = omega (arith, sum-adjust (λ q. q.hand_contribution) i (pay_in real) room.players p e);
}

pub place_bet-Keeps : (room : Room) (i : ℕ) (amount : ℤ) → Keeps room (place_bet room i amount).0
unfolding place_bet get_player
place_bet-Keeps room i amount = elim (Option-cases (find i room.players)) [
  | inl e ↦ rw (e, place_bet) (Keeps-refl room)
  | inr (p, e) ↦ elim (Bool-cases (p.is_folded || p.is_bankrupt)) [
    | inl out ↦ rw (e, place_bet, out) (Keeps-refl room)
    | inr ready ↦
        rw (e, place_bet, ready)
          (paid-Keeps room i (real_bet amount p.chips) p e (real_bet-le amount p.chips))
  ]
]

announce-Keeps :
    (env : Env) (room : Room) (i : ℕ) (n : Notice) (t : ActionText)
    → Keeps room (announce env room i n t)
unfolding announce broadcast_activity broadcast_player_action emit_room_event append_room_event
announce-Keeps env room i n t = Keeps-same _ _ refl refl

folded-Keeps :
    (room : Room) (i : ℕ) → Keeps room (record room { players = adjust i fold_player room.players })
folded-Keeps room i = record {
  total = omega (
    arith,
    sum-adjust_same (λ q. q.chips) i fold_player room.players (λ q. refl),
    sum-adjust_same (λ q. q.hand_contribution) i fold_player room.players (λ q. refl),
  );
  tracked =
      omega
        (arith, sum-adjust_same (λ q. q.hand_contribution) i fold_player room.players (λ q. refl));
}

-- What an action comes to keeps the chips: either it is refused, or the new room keeps them.
abbrev pub OutcomeKeeps : Room → Outcome → Type 0
OutcomeKeeps room (done after) = Keeps room after
OutcomeKeeps room (refused r) = Unit {0}

told :
    (env : Env) (a b : Room) (i : ℕ) (n : Notice) (t : ActionText)
    → Keeps a b
    → Keeps a (announce env b i n t)
told env a b i n t k = Keeps-trans a b (announce env b i n t) k (announce-Keeps env b i n t)

-- `b` is `c` but for fields that hold no chips.
then_same : (a b c : Room) → Keeps a b → c.players ≡ b.players → c.pot ≡ b.pot → Keeps a c
then_same a b c k p q = Keeps-trans a b c k (Keeps-same b c p q)

do_fold-Keeps : (env : Env) (room : Room) (i : ℕ) → Keeps room (do_fold env room i)
unfolding do_fold
do_fold-Keeps env room i = told env room _ i _ _ (
    then_same room (record room { players = adjust i fold_player room.players }) _
      (folded-Keeps room i) refl refl)

do_check-Keeps :
    (env : Env) (room : Room) (i : ℕ) (p : PlayerState) → OutcomeKeeps room (do_check env room i p)
unfolding do_check
do_check-Keeps env room i p = elim (Bool-cases (call_amount room p == 0)) [
  | inl e ↦ rw e (told env room _ i _ _ (Keeps-same room (leave_pending room i) refl refl))
  | inr e ↦ rw e tt
]

do_call-Keeps :
    (env : Env) (room : Room) (i : ℕ) (p : PlayerState) → Keeps room (do_call env room i p)
unfolding do_call
do_call-Keeps env room i p = elim (Bool-cases (ltb 0 (call_amount room p))) [
  | inl e ↦ elim (Bool-cases (ltb p.chips (call_amount room p))) [
    | inl s ↦
        rw (e, s)
          (then_same room (announce env (place_bet room i (pos p.chips)).0 i _ _) _
            (told env room _ i _ _ (place_bet-Keeps room i (pos p.chips))) refl refl)
    | inr s ↦
        rw (e, s)
          (then_same room (announce env (place_bet room i (pos (call_amount room p))).0 i _ _) _
            (told env room _ i _ _ (place_bet-Keeps room i (pos (call_amount room p)))) refl refl)
  ]
  | inr e ↦ rw e (
      then_same room (announce env room i _ _) _ (told env room room i _ _ (Keeps-refl room)) refl
        refl)
]

do_raise-Keeps :
    (env : Env) (room : Room) (i : ℕ) (p : PlayerState) (by : ℤ)
    → OutcomeKeeps room (do_raise env room i p by)
unfolding do_raise reopen_betting
do_raise-Keeps env room i p by =
    let total = add_int32 (call_amount room p) (pos_part by) in
    elim (Bool-cases (ltb_ℤ by (pos room.min_raise))) [
      | inl e ↦ rw e tt
      | inr e ↦ elim (Bool-cases (ltb_ℤ (pos p.chips) total)) [
        | inl s ↦ rw (e, s) tt
        | inr s ↦
            rw (e, s)
              (told env room _ i _ _ (
                then_same room (place_bet room i total).0 _ (place_bet-Keeps room i total) refl
                  refl))
      ]
    ]

do_all_in-Keeps :
    (env : Env) (room : Room) (i : ℕ) (p : PlayerState) → OutcomeKeeps room (do_all_in env room i p)
unfolding do_all_in reopen_betting
do_all_in-Keeps env room i p =
    let bet = (place_bet room i (pos p.chips)).0 in
    let paid = place_bet-Keeps room i (pos p.chips) in
    let now = bet_of bet i in
    elim (Bool-cases (leb p.chips 0)) [
      | inl e ↦ rw e tt
      | inr e ↦ elim (Bool-cases (ltb room.current_max_bet now)) [
        | inl s ↦ elim (Bool-cases (leb room.min_raise (now - room.current_max_bet))) [
          | inl t ↦ rw (e, s, t) (told env room _ i _ _ (then_same room bet _ paid refl refl))
          | inr t ↦ rw (e, s, t) (told env room _ i _ _ (then_same room bet _ paid refl refl))
        ]
        | inr s ↦ rw (e, s) (told env room _ i _ _ (then_same room bet _ paid refl refl))
      ]
    ]

pub apply_action-Keeps :
    (env : Env) (room : Room) (i : ℕ) (p : PlayerState) (type : ActionType) (by : ℤ)
    → OutcomeKeeps room (apply_action env room i p type by)
unfolding apply_action
apply_action-Keeps env room i p fold by = do_fold-Keeps env room i
apply_action-Keeps env room i p check by = do_check-Keeps env room i p
apply_action-Keeps env room i p call by = do_call-Keeps env room i p
apply_action-Keeps env room i p raise by = do_raise-Keeps env room i p by
apply_action-Keeps env room i p all_in by = do_all_in-Keeps env room i p

pub after_action-Ends : (env : Env) (room : Room) (i : ℕ) → Ends room (after_action env room i)
unfolding after_action can_advance_street choose_next_actor remove_ineligible_from_pending
after_action-Ends env room i =
    let pruned = remove_ineligible_from_pending (remove_ineligible_from_pending room) in
    elim (Bool-cases (leb (length (get_in_hand_seats env room)) 1)) [
      | inl e ↦ rw e (finish_hand-Ends env room)
      | inr e ↦ elim (Bool-cases (is_empty pruned.pending_action_seats)) [
        | inl a ↦
            rw (e, a)
              (Keeps-Ends room pruned _ (Keeps-same room pruned refl refl)
                (proceed_to_next_street-Ends env pruned))
        | inr a ↦
            rw (e, a) (Keeps-Ends room _ _ (Keeps-same room _ refl refl) (request_turn-Ends env _))
      ]
    ]

-- Whatever a request says, `handle_action` makes no chip: either the hand goes on with the same
-- chips on the table and a pot that grew as the bets did, or the hand is over, the pot is empty
-- and the stacks hold no more than there was on the table.
pub handle_action-Ends :
    (env : Env) (room : Room) (i : ℕ) (action : ActionRequest) (socket : String)
    → Ends room (handle_action env room i action socket).0
handle_action-Ends env room i action socket =
    let acted = record room { last_actor_seat_idx = some i } in
    handle_action_cases (λ r. Ends room r.0) env room i action socket (λ o. inl (Keeps-refl room))
      (λ o. inl (Keeps-same room acted refl refl))
      (λ p type after g e.
        Keeps-Ends room after _
          (Keeps-trans room acted after (Keeps-same room acted refl refl)
            (subst (OutcomeKeeps acted) e (apply_action-Keeps env acted i p type action.raise_by)))
          (after_action-Ends env after i))
