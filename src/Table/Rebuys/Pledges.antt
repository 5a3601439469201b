-- ===== src/Table/Rebuys/Pledges.antt =====
-- Which rebuys are granted: `handle_rebuy` and `handle_rebuy_approve`.
use dezhou.Prelude.{
  ℕ, ◌%◌, ◌<◌, ◌≤◌, ◌≡◌, ◌⊎◌, refl, true, false, ◌||◌, not, if-cases, elim-cases, inl, inr,
  Bool-cases, Option, none, some, ltb, ◌==◌, arith,
}
use dezhou.Prelude.Int.{ℤ, pos, negsuc, pos_part, plus_int32}
use dezhou.Prelude.Maps.{find-adjust_self, find-adjust_ne}
use dezhou.Table.State.{Room, Env, PlayerState, Notice}
use dezhou.Table.Events.{broadcast_activity, broadcast_game, emit_room_event, append_room_event}
use dezhou.Table.Seats.{get_player}
use dezhou.Table.Action.{name_at}
use dezhou.Table.Serving.{Session, Served, Refusal, refuse, unchanged, is_host}
use dezhou.Table.Rebuys.{rebuy_amount, pledge, pledge_at, handle_rebuy, handle_rebuy_approve}

-- An amount below 1000, or no multiple of 50.
abbrev pub IsBadAmount : ℤ → Type 0
IsBadAmount amount = (pos_part amount < 1000) ⊎ (0 < pos_part amount % 50)

Amount : ℤ → Option ℕ → Type 0
Amount amount none = IsBadAmount amount
Amount amount (some n) = (amount ≡ pos n) × (1000 ≤ n) × (n % 50 ≡ 0)

rebuy_amount-Amount : (amount : ℤ) → Amount amount (rebuy_amount amount)
unfolding rebuy_amount Amount
rebuy_amount-Amount (negsuc n) = inl (omega arith)
rebuy_amount-Amount (pos n) =
    if-cases (Amount (pos n)) (ltb n 1000 || not (n % 50 == 0)) _ _ (λ bad. ground (arith, bad))
      (λ good. (refl, ground (arith, good), ground (arith, good)))

-- The player of the seat `i`, and no other, has pledged `n` more chips, which count as his buy-in,
-- in sums of 32 bits; his stack is the same.
pub record IsPledged (before after : Room) (i n : ℕ) (p : PlayerState) : Type 0 where
  pub in_match : (before.started ≡ true) × (before.closing ≡ false)
  pub at_least : 1000 ≤ n
  pub multiple : n % 50 ≡ 0
  pub held : get_player before i ≡ some p
  pub own :
      (q : PlayerState) × (get_player after i ≡ some q)
      × (q.pending_rebuy ≡ plus_int32 p.pending_rebuy n)
      × (q.total_buy_in ≡ plus_int32 p.total_buy_in n)
      × (q.chips ≡ p.chips)
  pub others : (j : ℕ) → (j == i) ≡ false → get_player after j ≡ get_player before j

pledge_at-IsPledged :
    (env : Env) (room : Room) (i n : ℕ) (notice : Notice) (p : PlayerState)
    → (not room.started || room.closing) ≡ false
    → (1000 ≤ n) × (n % 50 ≡ 0)
    → get_player room i ≡ some p
    → (after : Room) × ((pledge_at env room i n notice).room ≡ some after)
      × IsPledged room after i n p
unfolding pledge_at broadcast_game broadcast_activity emit_room_event append_room_event get_player
pledge_at-IsPledged env room i n notice p on good e = (
  _,
  refl,
  record {
    in_match = (ground (arith, on), ground (arith, on));
    at_least = good.0;
    multiple = good.1;
    held = e;
    own = (pledge n p, find-adjust_self i (pledge n) room.players p e, refl, refl, refl);
    others = λ j ne. find-adjust_ne j i (pledge n) room.players ne;
  },
)

-- Why a player's own rebuy is refused.
pub data IsRefused (session : Session) (room : Room) (amount : ℤ) : Type 0 where
  no_match : (not room.started || room.closing) ≡ true → IsRefused session room amount
  no_seat : session.seat_idx ≡ none → IsRefused session room amount
  no_player :
      (i : ℕ) → session.seat_idx ≡ some i → get_player room i ≡ none → IsRefused session room amount
  has_chips :
      (i : ℕ) (p : PlayerState)
      → session.seat_idx ≡ some i
      → get_player room i ≡ some p
      → 0 < p.chips
      → IsRefused session room amount
  bad_amount : IsBadAmount amount → IsRefused session room amount

abbrev pub RebuyResult : Session → Room → ℤ → Served → Type 0
RebuyResult session room amount r =
    (IsRefused session room amount × (r.room ≡ some room))
    ⊎ ((i : ℕ) × (n : ℕ) × (p : PlayerState) × (after : Room) × (session.seat_idx ≡ some i)
        × (amount ≡ pos n)
        × (p.chips ≡ 0)
        × (r.room ≡ some after)
        × IsPledged room after i n p)

-- A player's own rebuy is either refused for a reason, and the room stays as it is, or the request
-- is that of a seated player without chips in an open match, over at least 1000 chips in steps of
-- 50, and his pledge and his buy-in grow by them in sums of 32 bits, and no other player's.
pub handle_rebuy-RebuyResult :
    (env : Env) (session : Session) (room : Room) (amount : ℤ)
    → RebuyResult session room amount (handle_rebuy env session (some room) amount)
unfolding handle_rebuy Amount
handle_rebuy-RebuyResult env session room amount =
    let Goal = RebuyResult session room amount in
    if-cases Goal (not room.started || room.closing) _ _ (λ off. inl (IsRefused.no_match off, refl))
      λ on.
        elim-cases Goal session.seat_idx _ _ (λ e. inl (IsRefused.no_seat e, refl))
          λ i e.
            elim-cases Goal (get_player room i) _ _ (λ f. inl (IsRefused.no_player i e f, refl))
              λ p f.
                if-cases Goal (ltb 0 p.chips) _ _
                  (λ rich. inl (IsRefused.has_chips i p e f (ground (arith, rich)), refl))
                  λ broke.
                    by_amount i p on e f (ground (arith, broke)) (rebuy_amount amount)
                      (rebuy_amount-Amount amount)
  where
    by_amount :
        (i : ℕ) (p : PlayerState)
        → (not room.started || room.closing) ≡ false
        → session.seat_idx ≡ some i
        → get_player room i ≡ some p
        → p.chips ≡ 0
        → (o : Option ℕ) → Amount amount o
        → RebuyResult session room amount (elim o [
          | none ↦ refuse session room Refusal.bad_amount
          | some n ↦ pledge_at env room i n (Notice.rebuys_next_hand (name_at room i) n)
        ])
    by_amount i p on e f broke none bad = inl (IsRefused.bad_amount bad, refl)
    by_amount i p on e f broke (some n) (same, low, steps) =
        let (after, r, done) =
          pledge_at-IsPledged env room i n (Notice.rebuys_next_hand (name_at room i) n) p on
            (low, steps) f in
        inr (i, n, p, after, e, same, broke, r, done)

-- Why the approval of a rebuy is not carried out.
pub data IsIgnored (session : Session) (room : Room) (i : ℕ) (amount : ℤ) : Type 0 where
  no_match : (not room.started || room.closing) ≡ true → IsIgnored session room i amount
  not_host : is_host session room ≡ false → IsIgnored session room i amount
  no_player : get_player room i ≡ none → IsIgnored session room i amount
  bad_amount : IsBadAmount amount → IsIgnored session room i amount

abbrev pub ApprovalResult : Session → Room → ℕ → ℤ → Served → Type 0
ApprovalResult session room i amount r =
    (IsIgnored session room i amount × (r.room ≡ some room))
    ⊎ ((n : ℕ) × (p : PlayerState) × (after : Room) × (is_host session room ≡ true)
        × (amount ≡ pos n)
        × (r.room ≡ some after)
        × IsPledged room after i n p)

-- The approval of a rebuy is either ignored for a reason, and the room stays as it is, or it is the
-- host's in an open match, for a player, over at least 1000 chips in steps of 50, and this player's
-- pledge and buy-in grow by them in sums of 32 bits, and no other player's.
pub handle_rebuy_approve-ApprovalResult :
    (env : Env) (session : Session) (room : Room) (i : ℕ) (amount : ℤ)
    → ApprovalResult session room i amount (handle_rebuy_approve env session (some room) i amount)
unfolding handle_rebuy_approve Amount
handle_rebuy_approve-ApprovalResult env session room i amount =
    let Goal = ApprovalResult session room i amount in
    if-cases Goal (not room.started || room.closing || not (is_host session room)) _ _
      (λ off. elim (Bool-cases (is_host session room)) [
        | inl h ↦ inl (IsIgnored.no_match (ground (arith, off, h)), refl)
        | inr h ↦ inl (IsIgnored.not_host h, refl)
      ])
      λ on.
        elim-cases Goal (get_player room i) _ _ (λ f. inl (IsIgnored.no_player f, refl))
          λ p f.
            by_amount p (ground (arith, on)) (ground (arith, on)) f (rebuy_amount amount)
              (rebuy_amount-Amount amount)
  where
    by_amount :
        (p : PlayerState)
        → (not room.started || room.closing) ≡ false
        → is_host session room ≡ true
        → get_player room i ≡ some p
        → (o : Option ℕ) → Amount amount o
        → ApprovalResult session room i amount (elim o [
          | none ↦ unchanged room
          | some n ↦ pledge_at env room i n (Notice.rebuy_approved (name_at room i) n)
        ])
    by_amount p on host f none bad = inl (IsIgnored.bad_amount bad, refl)
    by_amount p on host f (some n) (same, low, steps) =
        let (after, r, done) =
          pledge_at-IsPledged env room i n (Notice.rebuy_approved (name_at room i) n) p on
            (low, steps) f in
        inr (n, p, after, host, same, r, done)
