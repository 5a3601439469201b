-- ===== src/Server/Sound/Marks.antt =====
-- The notes for events keep the server sound.
use Prim.Native.String.{String}
use text.Mathlib.Text.{◌==◌ as str_eq}
use dezhou.Prelude.{ℕ, ◌≡◌, List, [], ◌∷◌, leb, max, if-cases, elim-cases}
use dezhou.Prelude.Names.{find_name, All-put_name_at, All-find_name_at}
use dezhou.Table.State.{Room, Env, RoomEventEntry, seat_at}
use dezhou.Table.Serving.{Session}
use dezhou.Table.Frame.{Grows}
use dezhou.Server.State.{Server}
use dezhou.Server.Marks.{
  mark_gameplay, mark_last_seen_for_socket, mark_sockets, mark_seat, mark_events, catch_up,
  update_room,
}
use dezhou.Server.Sound.{IsSound, RoomIsSound, put_room-IsSound, grown-IsSound}

pub mark_gameplay-IsSound :
    (env : Env) (session : Session) (seq : ℕ) (server : Server)
    → IsSound server
    → IsSound (mark_gameplay env session seq server)
mark_gameplay-IsSound env session seq server h =
    if-cases IsSound (str_eq session.gameplay_session_id "") server _ (λ e. h)
      (λ e. record { rooms = h.rooms; sessions = h.sessions })

mark_last_seen-IsSound :
    (env : Env) (socket : String) (seq : ℕ) (server : Server)
    → IsSound server
    → IsSound (mark_last_seen_for_socket env socket seq server)
unfolding mark_last_seen_for_socket
mark_last_seen-IsSound env socket seq server h =
    elim-cases IsSound (find_name socket server.sessions) server _ (λ e. h)
      λ session e. mark_gameplay-IsSound env session seq _ (record {
        rooms = h.rooms;
        sessions =
            All-put_name_at (λ (socket, session). session.socket_id ≡ socket) socket
              (record session { last_seen_seq = max session.last_seen_seq seq }) server.sessions
              (All-find_name_at (λ (socket, session). session.socket_id ≡ socket) socket
                server.sessions session h.sessions e)
              h.sessions;
      })

mark_sockets-IsSound :
    (env : Env) (sockets : List String) (seq : ℕ) (server : Server)
    → IsSound server
    → IsSound (mark_sockets env sockets seq server)
unfolding mark_sockets
mark_sockets-IsSound env [] seq server h = h
mark_sockets-IsSound env (socket ∷ sockets) seq server h =
    mark_sockets-IsSound env sockets seq _ (mark_last_seen-IsSound env socket seq server h)

mark_seat-IsSound :
    (env : Env) (room : Room) (i seq : ℕ) (server : Server)
    → IsSound server
    → IsSound (mark_seat env room i seq server)
unfolding mark_seat
mark_seat-IsSound env room i seq server h =
    if-cases IsSound (str_eq (seat_at room i).gameplay_session_id "") server _ (λ e. h)
      (λ e. record { rooms = h.rooms; sessions = h.sessions })

mark_events-IsSound :
    (env : Env) (before : ℕ) (room : Room) (entries : List RoomEventEntry) (server : Server)
    → IsSound server
    → IsSound (mark_events env before room entries server)
unfolding mark_events
mark_events-IsSound env before room [] server h = h
mark_events-IsSound env before room (entry ∷ entries) server h =
    mark_events-IsSound env before room entries _ (
      if-cases IsSound (leb entry.seq before) server _ (λ e. h)
        (λ e.
          elim-cases IsSound entry.seat_idx _ _
            (λ e. mark_sockets-IsSound env room.socket_ids entry.seq server h)
            (λ i e. mark_seat-IsSound env room i entry.seq server h)))

pub catch_up-IsSound :
    (env : Env) (before after : Room) (server : Server)
    → IsSound server
    → IsSound (catch_up env before after server)
unfolding catch_up
catch_up-IsSound env before after server h =
    mark_events-IsSound env before.event_seq after after.event_log server h

pub update_room-IsSound :
    (env : Env) (id : String) (before after : Room) (server : Server)
    → IsSound server
    → RoomIsSound id before
    → Grows before after
    → IsSound (update_room env id before after server)
update_room-IsSound env id before after server h r g =
    catch_up-IsSound env before after _ (put_room-IsSound h id after (grown-IsSound g r))
