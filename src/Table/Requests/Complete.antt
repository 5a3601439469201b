-- ===== src/Table/Requests/Complete.antt =====
-- The bounded log serves a replay as well as the whole history, up to 600 missed events.
use dezhou.Prelude.{
  ℕ, zero, suc, ◌+◌, ◌≤◌, ◌≡◌, refl, sym, ap, ◌∙◌, ◌||◌, not, false, List, [], ◌∷◌, Option, le→leb,
  length, keep, arith, if◌then◌else◌,
}
use dezhou.Table.State.{Room, RoomEventEntry}
use dezhou.Table.Events.{drop_front, keep_last, k_room_event_log_limit}
use dezhou.Table.Events.Numbered.{IsNumbered}
use dezhou.Table.Events.History.{IsHistoryOf}
use dezhou.Table.Serving.{Session}
use dezhou.Table.Requests.{replay_missed_events, is_private_to_other}
use dezhou.Table.Requests.Ownership.{is_missed, last_seen_of, replay_missed_events-missed}

seen_not_missed :
    (last_seen : ℕ) (seat_idx : Option ℕ) (e : RoomEventEntry)
    → e.seq ≤ last_seen
    → is_missed last_seen seat_idx e ≡ false
seen_not_missed last_seen seat_idx e h =
    ap (λ b. not (b || is_private_to_other seat_idx e)) (le→leb e.seq last_seen h)

-- Events from the front that were seen do not matter.
keep-drop_front :
    (last_seen : ℕ) (seat_idx : Option ℕ) (last n : ℕ) (es : List RoomEventEntry)
    → IsNumbered last es
    → last + n ≤ last_seen + length es
    → keep (is_missed last_seen seat_idx) (drop_front n es) ≡ keep (is_missed last_seen seat_idx) es
unfolding drop_front
keep-drop_front last_seen seat_idx last zero es h le = refl
keep-drop_front last_seen seat_idx last (suc n) [] h le = refl
keep-drop_front last_seen seat_idx last (suc n) (e ∷ es) h le =
    let skipped = seen_not_missed last_seen seat_idx e (omega (arith, h.0)) in
    keep-drop_front last_seen seat_idx last n es h.1 (omega arith)
    ∙ sym (
        ap
          (λ b.
            if b
            then e ∷ keep (is_missed last_seen seat_idx) es
            else keep (is_missed last_seen seat_idx) es)
          skipped)

-- A session that has missed at most 600 events is replayed all of them that are not private to
-- another seat, as if the room kept its whole history and not the last 600 events.
pub replay_missed_events_complete :
    (session : Session) (gameplay_seen : Option ℕ) (room : Room) (history : List RoomEventEntry)
    → IsHistoryOf history room
    → room.event_seq ≤ last_seen_of session gameplay_seen + k_room_event_log_limit
    → (replay_missed_events session gameplay_seen room).0
      ≡ keep (is_missed (last_seen_of session gameplay_seen) session.seat_idx) history
unfolding keep_last
replay_missed_events_complete session gameplay_seen room history h le =
    let seen = last_seen_of session gameplay_seen in
    (replay_missed_events-missed session gameplay_seen room).0
    ∙ ap (keep (is_missed seen session.seat_idx)) h.kept
    ∙ keep-drop_front seen session.seat_idx room.event_seq _ history h.numbered
        (omega (arith, h.counted))
