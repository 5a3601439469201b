-- ===== src/Server/Joining/Replays.antt =====
-- What a session that comes back is replayed.
use Prim.Native.String.{String}
use text.Mathlib.Text.{◌==◌ as str_eq}
use dezhou.Prelude.{
  ℕ, ◌+◌, ◌-◌, ◌≤◌, ◌≡◌, refl, sym, ap, ◌∙◌, subst, true, false, ◌||◌, not, List, [], ◌∷◌, ◌++◌,
  map, keep, Option, none, some, length, length-append, if-cases, if◌then◌else◌, arith, le→leb,
}
use mathlib.Core.List.{append-nil}
use dezhou.Table.State.{Room, Env, RoomEventEntry, Message}
use dezhou.Table.Events.{
  drop_front, keep_last, append_room_event, emit_room_event, broadcast_game, build_game_state,
  k_room_event_log_limit,
}
use dezhou.Table.Events.Numbered.{IsNumbered, drop_front-IsNumbered}
use dezhou.Table.Events.History.{drop_front-append}
use dezhou.Table.Serving.{Session, Reply}
use dezhou.Table.Requests.{has_name, is_private_to_other}
use dezhou.Table.Requests.Ownership.{is_missed, last_seen_of, replay_missed_events-missed}
use dezhou.Server.State.{Server}
use dezhou.Server.Marks.{mark_events, catch_up}
use dezhou.Server.Marks.Seen.{HasSeen, mark_last-HasSeen}
use dezhou.Server.Sync.{look_up_seen, replay_to_session}
use dezhou.Server.Sound.{RoomIsSound}

-- The notes for `broadcast_game` reach every member of the room.
pub broadcast_game-HasSeen :
    (env : Env) (room : Room) (n : ℕ) (socket : String) (server : Server)
    → has_name room.socket_ids socket ≡ true
    → HasSeen socket n server
    → HasSeen socket
        (broadcast_game env room).event_seq
        (catch_up env room (broadcast_game env room) server)
unfolding catch_up broadcast_game emit_room_event append_room_event keep_last
broadcast_game-HasSeen env room n socket server member seen =
    let last : RoomEventEntry = record {
      seq = room.event_seq + 1;
      message = Message.game_state (build_game_state room);
      seat_idx = none;
      created_at = env.now_ms;
    } in
    let after = broadcast_game env room in
    let longer = room.event_log ++ last ∷ [] in
    let over = length longer - k_room_event_log_limit in
    let split =
      drop_front-append over room.event_log (last ∷ [])
        (omega (arith, length-append room.event_log (last ∷ []))) in
    subst (λ log. HasSeen socket last.seq (mark_events env room.event_seq after log server))
      (sym split)
      (mark_last-HasSeen env room.event_seq after (drop_front over room.event_log) last n socket
        server (ground arith) refl member seen)

-- Of numbered events, a session that has seen the last has missed none.
nothing_missed :
    (seen : ℕ) (seat_idx : Option ℕ) (last : ℕ) (es : List RoomEventEntry)
    → IsNumbered last es
    → last ≤ seen
    → keep (is_missed seen seat_idx) es ≡ []
nothing_missed seen seat_idx last [] h le = refl
nothing_missed seen seat_idx last (e ∷ es) h le =
    let skipped : is_missed seen seat_idx e ≡ false =
      ap (λ b. not (b || is_private_to_other seat_idx e))
        (le→leb e.seq seen (omega (arith, h.0))) in
    ap (λ b. if b then e ∷ keep (is_missed seen seat_idx) es else keep (is_missed seen seat_idx) es)
      skipped
    ∙ nothing_missed seen seat_idx last es h.1 le

log-IsNumbered :
    {id : String} (room : Room) → RoomIsSound id room → IsNumbered room.event_seq room.event_log
unfolding keep_last
log-IsNumbered room r =
    subst (IsNumbered room.event_seq) (sym r.logged.kept)
      (drop_front-IsNumbered room.event_seq _ r.history r.logged.numbered)

seen_of_le : (session : Session) (o : Option ℕ) → session.last_seen_seq ≤ last_seen_of session o
seen_of_le session none = omega arith
seen_of_le session (some n) = omega arith

-- A replay to a session that has seen everything sends nothing.
pub replay_to_session-sent :
    {id : String} (env : Env) (session : Session) (room : Room) (server : Server)
    → RoomIsSound id room
    → room.event_seq ≤ session.last_seen_seq
    → (replay_to_session env session room server).sent ≡ server.sent
unfolding replay_to_session look_up_seen
replay_to_session-sent env session room server r le =
    let (looked, gameplay_seen) = look_up_seen env session server in
    let nothing =
      (replay_missed_events-missed session gameplay_seen room).0
      ∙ nothing_missed (last_seen_of session gameplay_seen) session.seat_idx room.event_seq
          room.event_log (log-IsNumbered room r)
          (omega (arith, le, seen_of_le session gameplay_seen)) in
    let looked_sent : looked.sent ≡ server.sent =
      if-cases (λ (l : Server × Option ℕ). l.0.sent ≡ server.sent)
        (str_eq session.gameplay_session_id "") (server, none) _ (λ e. refl) (λ e. refl) in
    if-cases (λ (s : Server). s.sent ≡ server.sent) (str_eq session.gameplay_session_id "") _ _
      (λ e.
        ap (λ es. looked.sent ++ map (λ entry. (session.socket_id, Reply.missed entry)) es) nothing
        ∙ append-nil looked.sent
        ∙ looked_sent)
      (λ e.
        ap (λ es. looked.sent ++ map (λ entry. (session.socket_id, Reply.missed entry)) es) nothing
        ∙ append-nil looked.sent
        ∙ looked_sent)
