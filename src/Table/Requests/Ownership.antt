-- ===== src/Table/Requests/Ownership.antt =====
-- Who may act, and who gets to see what.
use mathlib.Core.List.{append_assoc, append-nil}
use dezhou.Prelude.{
  ℕ, ◌≤◌, ◌≡◌, refl, sym, ◌∙◌, ◌⊎◌, inl, inr, ◌||◌, not, Bool, true, false, Bool-cases, List, [],
  ◌∷◌, ◌++◌, Option, none, some, max, ltb, leb, if-cases, elim-cases, of_not, keep, arith,
}
use dezhou.Table.State.{Room, Env, ActionRequest, RoomEventEntry, seat_at, k_seats}
use dezhou.Table.Action.{is_player}
use dezhou.Table.Serving.{Session, Served}
use dezhou.Table.Requests.{
  act, is_foreign, is_other_socket, handle_player_action, replay, replay_missed_events,
  is_private_to_other,
}

-- The session sits on the seat `i`, a player's seat that is not another account's, nor held by
-- another socket unless the machine plays it.
pub record Owns (session : Session) (room : Room) (i : ℕ) : Type 0 where
  pub seated : session.seat_idx ≡ some i
  pub in_range : ltb i k_seats ≡ true
  pub played : is_player (seat_at room i).type ≡ true
  pub own_account : is_foreign session (seat_at room i) ≡ false
  pub own_socket : is_other_socket session (seat_at room i) ≡ false

-- A request that is not carried out, or that is carried out for a seat that the session owns.
abbrev pub IsPermitted : Env → Session → Room → ActionRequest → Served → Type 0
IsPermitted env session room req r =
    (r.room ≡ some room)
    ⊎ ((i : ℕ) × Owns session room i × (room.started ≡ true) × (r ≡ act env session room i req))

-- A request to act either leaves the room as it is, or the match is on, the session owns its seat
-- and the request is carried out for that very seat.
pub handle_player_action-IsPermitted :
    (env : Env) (session : Session) (room : Room) (req : ActionRequest)
    → IsPermitted env session room req (handle_player_action env session (some room) req)
unfolding handle_player_action
handle_player_action-IsPermitted env session room req =
    let Goal = IsPermitted env session room req in
    if-cases Goal (not room.started) _ _ (λ h. inl refl)
      (λ on.
        elim-cases Goal session.seat_idx _ _ (λ h. inl refl)
          (λ i e.
            if-cases Goal (not (ltb i k_seats)) _ _ (λ h. inl refl)
              (λ near.
                if-cases Goal (not (is_player (seat_at room i).type)) _ _ (λ h. inl refl)
                  (λ played.
                    if-cases Goal (is_foreign session (seat_at room i)) _ _ (λ h. inl refl)
                      (λ own.
                        if-cases Goal (is_other_socket session (seat_at room i)) _ _ (λ h. inl refl)
                          (λ mine. inr (
                            i,
                            record {
                              seated = e;
                              in_range = ground (arith, near);
                              played = of_not played;
                              own_account = own;
                              own_socket = mine;
                            },
                            of_not on,
                            refl,
                          )))))))

-- What a session has missed: later than what it saw, and not another seat's own.
abbrev pub is_missed : ℕ → Option ℕ → RoomEventEntry → Bool
is_missed last_seen seat_idx entry =
    not (leb entry.seq last_seen || is_private_to_other seat_idx entry)

abbrev SeenBy : ℕ → RoomEventEntry → Type 0
SeenBy seen entry = entry.seq ≤ seen

replay-missed :
    (last_seen : ℕ) (seat_idx : Option ℕ) (entries sent : List RoomEventEntry) (seen : ℕ)
    → (replay last_seen seat_idx entries (sent, seen)).0
      ≡ sent ++ keep (is_missed last_seen seat_idx) entries
unfolding replay
replay-missed last_seen seat_idx [] sent seen = sym (append-nil sent)
replay-missed last_seen seat_idx (entry ∷ entries) sent seen =
    elim (Bool-cases (leb entry.seq last_seen || is_private_to_other seat_idx entry)) [
      | inl skipped ↦ rw (replay, skipped) (replay-missed last_seen seat_idx entries sent seen)
      | inr missed ↦
          rw (replay, missed)
            (replay-missed last_seen seat_idx entries (sent ++ entry ∷ []) (max seen entry.seq)
              ∙ append_assoc sent (entry ∷ []) (keep (is_missed last_seen seat_idx) entries))
    ]

replay-seen :
    (last_seen : ℕ) (seat_idx : Option ℕ) (entries sent : List RoomEventEntry) (seen : ℕ)
    → seen ≤ (replay last_seen seat_idx entries (sent, seen)).1
unfolding replay
replay-seen last_seen seat_idx [] sent seen = omega arith
replay-seen last_seen seat_idx (entry ∷ entries) sent seen =
    elim (Bool-cases (leb entry.seq last_seen || is_private_to_other seat_idx entry)) [
      | inl skipped ↦ rw (replay, skipped) (replay-seen last_seen seat_idx entries sent seen)
      | inr missed ↦
          rw (replay, missed)
            (omega (
              arith,
              replay-seen last_seen seat_idx entries (sent ++ entry ∷ []) (max seen entry.seq),
            ))
    ]

-- The last event that a session has seen, by itself or by its gameplay session.
abbrev pub last_seen_of : Session → Option ℕ → ℕ
last_seen_of session none = session.last_seen_seq
last_seen_of session (some n) = max session.last_seen_seq n

-- A replay sends exactly the events that the session has missed, in their order, and never an
-- event that is private to another seat; what the session has seen does not go back.
pub replay_missed_events-missed :
    (session : Session) (gameplay_seen : Option ℕ) (room : Room)
    → ((replay_missed_events session gameplay_seen room).0
        ≡ keep (is_missed (last_seen_of session gameplay_seen) session.seat_idx) room.event_log)
      × (session.last_seen_seq ≤ (replay_missed_events session gameplay_seen room).1)
unfolding replay_missed_events
replay_missed_events-missed session none room = (
  replay-missed session.last_seen_seq session.seat_idx room.event_log [] session.last_seen_seq,
  replay-seen session.last_seen_seq session.seat_idx room.event_log [] session.last_seen_seq,
)
replay_missed_events-missed session (some n) room = (
  replay-missed (max session.last_seen_seq n) session.seat_idx room.event_log []
      session.last_seen_seq,
  replay-seen (max session.last_seen_seq n) session.seat_idx room.event_log []
      session.last_seen_seq,
)
