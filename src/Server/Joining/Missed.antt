-- ===== src/Server/Joining/Missed.antt =====
-- The missed events among what is sent.
use Prim.Native.String.{String}
use mathlib.Core.List.{append-nil}
use dezhou.Prelude.{
  ℕ, ◌≡◌, refl, ap, ◌∙◌, Bool, true, false, not, List, [], ◌∷◌, ◌++◌, map, keep, ltb, length,
  if-cases, elim-cases, All, arith,
}
use dezhou.Table.State.{Room, k_seats}
use dezhou.Table.Events.{build_game_state}
use dezhou.Table.Seats.{get_player}
use dezhou.Table.Serving.{Session, Reply, build_room_state}
use dezhou.Server.State.{Server}
use dezhou.Server.Marks.Seen.{HasSeen}
use dezhou.Server.Sync.{you_state, seat_sync, own_hand, send_full_state_sync}

abbrev pub is_missed_reply : Reply → Bool
is_missed_reply (Reply.missed e) = true
is_missed_reply _ = false

-- The missed events among what was sent.
abbrev pub missed_of : List (String × Reply) → List (String × Reply)
missed_of = keep (λ e. is_missed_reply e.1)

abbrev IsPlain : List Reply → Type 0
IsPlain = All (λ reply. is_missed_reply reply ≡ false)

missed_of-append :
    (xs ys : List (String × Reply)) → missed_of (xs ++ ys) ≡ missed_of xs ++ missed_of ys
missed_of-append [] ys = refl
missed_of-append (x ∷ xs) ys = ground (arith, missed_of-append xs ys)

missed_of-map :
    (socket : String) (replies : List Reply)
    → IsPlain replies
    → missed_of (map (λ reply. (socket, reply)) replies) ≡ []
missed_of-map socket [] h = refl
missed_of-map socket (r ∷ rs) h = ground (arith, h.0, missed_of-map socket rs h.1)

pub missed_of-states :
    (f : String → Reply) (sockets : List String)
    → ((s : String) → is_missed_reply (f s) ≡ false)
    → missed_of (map (λ s. (s, f s)) sockets) ≡ []
missed_of-states f [] h = refl
missed_of-states f (s ∷ ss) h = ground (arith, h s, missed_of-states f ss h)

-- What is sent besides has no missed event.
pub missed_of-send :
    (xs ys : List (String × Reply)) → missed_of ys ≡ [] → missed_of (xs ++ ys) ≡ missed_of xs
missed_of-send xs ys h =
    missed_of-append xs ys ∙ ap (λ zs. missed_of xs ++ zs) h ∙ append-nil (missed_of xs)

own_hand-IsPlain : (room : Room) (b : Bool) (i : ℕ) → IsPlain (own_hand room b i)
unfolding own_hand
own_hand-IsPlain room b i =
    if-cases IsPlain (not b) [] _ (λ e. tt)
      λ e.
        elim-cases IsPlain (get_player room i) [] _ (λ e. tt)
          λ p e. if-cases IsPlain (ltb (length p.hand) 2) [] _ (λ e. tt) (λ e. (refl, tt))

seat_sync-IsPlain :
    (session : Session) (room : Room) (b : Bool) → IsPlain (seat_sync session room b)
unfolding seat_sync
seat_sync-IsPlain session room b =
    elim-cases IsPlain session.seat_idx [] _ (λ e. tt)
      λ i e.
        if-cases IsPlain (ltb i k_seats) _ [] (λ e. (refl, own_hand-IsPlain room b i)) (λ e. tt)

pub send_full_state_sync-missed :
    (session : Session) (room : Room) (b : Bool) (server : Server)
    → missed_of (send_full_state_sync session room b server).sent ≡ missed_of server.sent
unfolding send_full_state_sync
send_full_state_sync-missed session room b server =
    let replies =
      Reply.room_state (build_room_state room session.socket_id)
      ∷ you_state session room
      ∷ Reply.activity_sync room.activity_log
      ∷ Reply.game_state (build_game_state room)
      ∷ seat_sync session room b in
    let plain : IsPlain replies =
      (refl, (refl, (refl, (refl, seat_sync-IsPlain session room b)))) in
    missed_of-send server.sent _ (missed_of-map session.socket_id replies plain)

pub send_full_state_sync-HasSeen :
    (session : Session) (room : Room) (b : Bool) (n : ℕ) (socket : String) (server : Server)
    → HasSeen socket n server
    → HasSeen socket n (send_full_state_sync session room b server)
unfolding send_full_state_sync
send_full_state_sync-HasSeen session room b n socket server h = h
