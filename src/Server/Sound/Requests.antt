-- ===== src/Server/Sound/Requests.antt =====
-- Every request keeps the server sound.
use Prim.Native.String.{String}
use dezhou.Prelude.{Option, none, some, elim-cases, Option-cases, inl, inr}
use dezhou.Prelude.Names.{find_name}
use dezhou.Table.State.{Room, Env}
use dezhou.Table.Serving.{Session, Served}
use dezhou.Table.Lobby.{handle_toggle_ai, handle_kick_seat, handle_start_game, handle_next_hand}
use dezhou.Table.Rebuys.{
  handle_rebuy, handle_rebuy_request, handle_rebuy_approve, handle_rebuy_deny,
}
use dezhou.Table.Requests.{handle_player_action, handle_set_decor, handle_ack_match_over}
use dezhou.Table.Frame.Serves.{Serves}
use dezhou.Table.Frame.Lobby.{
  handle_toggle_ai-Serves, handle_kick_seat-Serves, handle_start_game-Serves,
  handle_next_hand-Serves,
}
use dezhou.Table.Frame.Requests.{
  handle_player_action-Serves, handle_rebuy-Serves, handle_rebuy_request-Serves,
  handle_rebuy_approve-Serves, handle_rebuy_deny-Serves, handle_set_decor-Serves,
  handle_ack_match_over-Serves,
}
use dezhou.Server.State.{Server, get_room}
use dezhou.Server.Dispatch.{
  Request, join_room, take_seat, toggle_ai, kick_seat, start_game, action, next_hand, rebuy,
  rebuy_request, rebuy_approve, rebuy_deny, set_decor, ack_match_over, voice_join, voice_leave,
  voice_signal, unknown_event, tell, store_served, serve, handle_request, on_ws_message,
}
use dezhou.Server.Sound.{IsSound, get_room-IsSound, erase_room-IsSound}
use dezhou.Server.Sound.Marks.{update_room-IsSound}
use dezhou.Server.Sound.Sessions.{handle_join_room-IsSound, handle_take_seat-IsSound}
use dezhou.Server.Sound.Leaving.{
  handle_voice_join-IsSound, handle_voice_leave-IsSound, handle_voice_signal-IsSound,
  remove_session-IsSound,
}

-- A handler that serves every room may be served.
serve-IsSound :
    (env : Env) (session : Session) (handler : Option Room → Served) (server : Server)
    → ((room : Room) → Serves room (handler (some room)))
    → IsSound server
    → IsSound (serve env session handler server)
unfolding store_served
serve-IsSound env session handler server serves h =
    let id = session.room_id in
    let told_IsSound : (served : Served) → IsSound (tell served server) =
      λ served. record { rooms = h.rooms; sessions = h.sessions } in
    elim (Option-cases (get_room server id)) [
      | inl e ↦ rw e (told_IsSound (handler none))
      | inr (room, e) ↦
          let told = told_IsSound (handler (some room)) in
          rw e (elim (Option-cases (handler (some room)).room) [
            | inl f ↦ rw f (erase_room-IsSound told id)
            | inr (after, f) ↦ rw f (
                update_room-IsSound env id room after _ told (get_room-IsSound h id room e)
                  (rw f at (serves room)))
          ])
    ]

pub handle_request-IsSound :
    (env : Env) (t1 t2 : String) (session : Session) (req : Request) (server : Server)
    → IsSound server
    → IsSound (handle_request env t1 t2 session req server)
unfolding handle_request
handle_request-IsSound env t1 t2 session (join_room req) server h =
    handle_join_room-IsSound env session req server h
handle_request-IsSound env t1 t2 session (take_seat i token) server h =
    handle_take_seat-IsSound env t1 t2 session i token server h
handle_request-IsSound env t1 t2 session (toggle_ai i) server h =
    serve-IsSound env session (λ r. handle_toggle_ai env session r i) server
      (λ room. handle_toggle_ai-Serves env session room i) h
handle_request-IsSound env t1 t2 session (kick_seat i) server h =
    serve-IsSound env session (λ r. handle_kick_seat env session r i) server
      (λ room. handle_kick_seat-Serves env session room i) h
handle_request-IsSound env t1 t2 session (start_game req) server h =
    serve-IsSound env session (λ r. handle_start_game env session r req) server
      (λ room. handle_start_game-Serves env session room req) h
handle_request-IsSound env t1 t2 session (action req) server h =
    serve-IsSound env session (λ r. handle_player_action env session r req) server
      (λ room. handle_player_action-Serves env session room req) h
handle_request-IsSound env t1 t2 session next_hand server h =
    serve-IsSound env session (λ r. handle_next_hand env session r) server
      (handle_next_hand-Serves env session) h
handle_request-IsSound env t1 t2 session (rebuy n) server h =
    serve-IsSound env session (λ r. handle_rebuy env session r n) server
      (λ room. handle_rebuy-Serves env session room n) h
handle_request-IsSound env t1 t2 session (rebuy_request n) server h =
    serve-IsSound env session (λ r. handle_rebuy_request env session r n) server
      (λ room. handle_rebuy_request-Serves env session room n) h
handle_request-IsSound env t1 t2 session (rebuy_approve i n) server h =
    serve-IsSound env session (λ r. handle_rebuy_approve env session r i n) server
      (λ room. handle_rebuy_approve-Serves env session room i n) h
handle_request-IsSound env t1 t2 session (rebuy_deny i) server h =
    serve-IsSound env session (λ r. handle_rebuy_deny env session r i) server
      (λ room. handle_rebuy_deny-Serves env session room i) h
handle_request-IsSound env t1 t2 session (set_decor d) server h =
    serve-IsSound env session (λ r. handle_set_decor env session r d) server
      (λ room. handle_set_decor-Serves env session room d) h
handle_request-IsSound env t1 t2 session ack_match_over server h =
    serve-IsSound env session (λ r. handle_ack_match_over session r) server
      (λ room. handle_ack_match_over-Serves env session room) h
handle_request-IsSound env t1 t2 session voice_join server h =
    handle_voice_join-IsSound session server h
handle_request-IsSound env t1 t2 session voice_leave server h =
    handle_voice_leave-IsSound session server h
handle_request-IsSound env t1 t2 session (voice_signal req) server h =
    handle_voice_signal-IsSound session req server h
handle_request-IsSound env t1 t2 session unknown_event server h = h

pub on_ws_message-IsSound :
    (env : Env) (t1 t2 socket : String) (request : Option Request) (server : Server)
    → IsSound server
    → IsSound (on_ws_message env t1 t2 socket request server)
unfolding on_ws_message
on_ws_message-IsSound env t1 t2 socket request server h =
    elim-cases IsSound (find_name socket server.sessions) _ _ (λ e. h)
      λ session e.
        elim-cases IsSound request _ _ (λ e. remove_session-IsSound env socket server h)
          λ req e. handle_request-IsSound env t1 t2 session req server h
