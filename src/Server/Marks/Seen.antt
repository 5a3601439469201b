-- ===== src/Server/Marks/Seen.antt =====
-- The notes for events only ever raise what a session has seen.
use Prim.Native.String.{String}
use text.Mathlib.Text.{◌==◌ as str_eq}
use text.Mathlib.TextEquality.{eq_iff}
use dezhou.Prelude.{
  ℕ, ◌≤◌, ◌≡◌, sym, ap, ◌∙◌, subst, true, false, ◌||◌, List, [], ◌∷◌, ◌++◌, none, some, max, leb,
  inl, inr, Bool-cases, if-cases, elim-cases, arith,
}
use dezhou.Prelude.Names.{find_name, put_name, find_name-put_name_self, find_name-put_name_ne}
use dezhou.Table.State.{Room, Env, RoomEventEntry, seat_at}
use dezhou.Table.Serving.{Session}
use dezhou.Table.Requests.{has_name}
use dezhou.Server.State.{Server}
use dezhou.Server.Marks.{
  mark_gameplay, mark_last_seen_for_socket, mark_sockets, mark_seat, mark_events,
}

-- The session of a socket has seen the events up to `seq`.
abbrev pub HasSeen : String → ℕ → Server → Type 0
HasSeen socket seq server =
    (session : Session) × (find_name socket server.sessions ≡ some session)
    × (seq ≤ session.last_seen_seq)

mark_gameplay-HasSeen :
    (env : Env) (session : Session) (n seq : ℕ) (socket : String) (server : Server)
    → HasSeen socket seq server
    → HasSeen socket seq (mark_gameplay env session n server)
mark_gameplay-HasSeen env session n seq socket server h =
    if-cases (HasSeen socket seq) (str_eq session.gameplay_session_id "") server _ (λ e. h) (λ e. h)

mark_last_seen-HasSeen :
    (env : Env) (other : String) (n seq : ℕ) (socket : String) (server : Server)
    → HasSeen socket seq server
    → HasSeen socket seq (mark_last_seen_for_socket env other n server)
unfolding mark_last_seen_for_socket
mark_last_seen-HasSeen env other n seq socket server (s, found, le) =
    let P = HasSeen socket seq in
    elim-cases P (find_name other server.sessions) server _ (λ e. (s, found, le))
      λ session e.
        mark_gameplay-HasSeen env session n seq socket _ (elim (Bool-cases (str_eq socket other)) [
          | inl same ↦
              let at : socket ≡ other = (eq_iff socket other).0 same in
              let own : some s ≡ some session =
                sym found ∙ ap (λ k. find_name k server.sessions) at ∙ e in
              let le' : seq ≤ session.last_seen_seq =
                subst (λ o. elim o [ none ↦ seq ≤ 0 | some x ↦ seq ≤ x.last_seen_seq ]) own le in
              (
                record session { last_seen_seq = max session.last_seen_seq n },
                ap
                      (λ k. find_name k (
                        put_name other
                          (record session { last_seen_seq = max session.last_seen_seq n })
                          server.sessions))
                      at
                    ∙ find_name-put_name_self other _ server.sessions,
                omega (arith, le'),
              )
          | inr differs ↦
              (s, find_name-put_name_ne socket other _ server.sessions differs ∙ found, le)
        ])

mark_own-HasSeen :
    (env : Env) (seq n : ℕ) (socket : String) (server : Server)
    → HasSeen socket n server
    → HasSeen socket seq (mark_last_seen_for_socket env socket seq server)
unfolding mark_last_seen_for_socket
mark_own-HasSeen env seq n socket server (s, found, le) =
    elim-cases (HasSeen socket seq) (find_name socket server.sessions) server _
      (λ e. absurd (ground (arith, sym found ∙ e)))
      λ session e. mark_gameplay-HasSeen env session seq seq socket _ (
        record session { last_seen_seq = max session.last_seen_seq seq },
        find_name-put_name_self socket _ server.sessions,
        omega arith,
      )

mark_sockets-HasSeen :
    (env : Env) (sockets : List String) (n seq : ℕ) (socket : String) (server : Server)
    → HasSeen socket seq server
    → HasSeen socket seq (mark_sockets env sockets n server)
unfolding mark_sockets
mark_sockets-HasSeen env [] n seq socket server h = h
mark_sockets-HasSeen env (other ∷ others) n seq socket server h =
    mark_sockets-HasSeen env others n seq socket _
      (mark_last_seen-HasSeen env other n seq socket server h)

-- A member's session has seen what the members are noted to have seen.
mark_members-HasSeen :
    (env : Env) (sockets : List String) (seq n : ℕ) (socket : String) (server : Server)
    → has_name sockets socket ≡ true
    → HasSeen socket n server
    → HasSeen socket seq (mark_sockets env sockets seq server)
unfolding mark_sockets
mark_members-HasSeen env [] seq n socket server h seen = absurd (ground (arith, h))
mark_members-HasSeen env (other ∷ others) seq n socket server h seen =
    elim (Bool-cases (str_eq socket other)) [
      | inl same ↦
          let at : socket ≡ other = (eq_iff socket other).0 same in
          mark_sockets-HasSeen env others seq seq socket _ (
            subst (λ k. HasSeen socket seq (mark_last_seen_for_socket env k seq server)) at
              (mark_own-HasSeen env seq n socket server seen))
      | inr differs ↦
          mark_members-HasSeen env others seq n socket _
            (sym (ap (λ b. b || has_name others socket) differs) ∙ h)
            (mark_last_seen-HasSeen env other seq n socket server seen)
    ]

mark_events-HasSeen :
    (env : Env) (before : ℕ) (room : Room) (entries : List RoomEventEntry) (seq : ℕ)
    (socket : String) (server : Server)
    → HasSeen socket seq server
    → HasSeen socket seq (mark_events env before room entries server)
unfolding mark_events mark_seat
mark_events-HasSeen env before room [] seq socket server h = h
mark_events-HasSeen env before room (entry ∷ entries) seq socket server h =
    let P = HasSeen socket seq in
    mark_events-HasSeen env before room entries seq socket _ (
      if-cases P (leb entry.seq before) server _ (λ e. h)
        (λ e.
          elim-cases P entry.seat_idx _ _
            (λ e. mark_sockets-HasSeen env room.socket_ids entry.seq seq socket server h)
            (λ i e.
              if-cases P (str_eq (seat_at room i).gameplay_session_id "") server _ (λ e. h)
                (λ e. h))))

-- After the notes for a log that ends with an event for the whole room, a member's session has
-- seen that event.
pub mark_last-HasSeen :
    (env : Env) (before : ℕ) (room : Room) (entries : List RoomEventEntry) (last : RoomEventEntry)
    (n : ℕ) (socket : String) (server : Server)
    → leb last.seq before ≡ false
    → last.seat_idx ≡ none
    → has_name room.socket_ids socket ≡ true
    → HasSeen socket n server
    → HasSeen socket last.seq (mark_events env before room (entries ++ last ∷ []) server)
unfolding mark_events
mark_last-HasSeen env before room [] last n socket server new public member seen =
    rw (new, public) (mark_members-HasSeen env room.socket_ids last.seq n socket server member seen)
mark_last-HasSeen env before room (entry ∷ entries) last n socket server new public member seen =
    let step_seen = mark_events-HasSeen env before room (entry ∷ []) n socket server seen in
    mark_last-HasSeen env before room entries last n socket _ new public member step_seen
