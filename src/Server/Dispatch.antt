-- ===== src/Server/Dispatch.antt =====
-- The requests of a socket: `on_ws_message` of backend-cpp/src/main.cpp, which finds the session
-- and calls the handler, and the arrival of a socket. The protobuf library parses a frame into a
-- Request; a frame that it does not parse is `none`, and the session is removed, which is what
-- `close_ws_protocol_error` does besides closing the connection.
use Prim.Native.String.{String}
use dezhou.Prelude.{ℕ, List, [], ◌∷◌, ◌++◌, Option, none, some}
use dezhou.Prelude.Int.{ℤ}
use dezhou.Prelude.Names.{find_name, adjust_name}
use dezhou.Stores.{UserProfileData, or_else, count_match}
use dezhou.Table.State.{Room, Env, MatchStat, ActionRequest}
use dezhou.Table.Serving.{Session, Served}
use dezhou.Table.Lobby.{
  StartGameRequest, handle_toggle_ai, handle_kick_seat, handle_start_game, handle_next_hand,
}
use dezhou.Table.Rebuys.{
  handle_rebuy, handle_rebuy_request, handle_rebuy_approve, handle_rebuy_deny,
}
use dezhou.Table.Requests.{handle_player_action, handle_set_decor, handle_ack_match_over}
use dezhou.Server.State.{Server, send_all, get_room, erase_room}
use dezhou.Server.Marks.{update_room}
use dezhou.Server.Seating.{handle_take_seat}
use dezhou.Server.Joining.{JoinRoomRequest, handle_join_room}
use dezhou.Server.Leaving.{remove_session}
use dezhou.Server.Voice.{
  VoiceSignalMessage, handle_voice_join, handle_voice_leave, handle_voice_signal,
}

pub data Request : Type 0 where
  join_room : JoinRoomRequest → Request
  take_seat : Option ℕ → String → Request
  toggle_ai kick_seat : Option ℕ → Request
  start_game : StartGameRequest → Request
  action : ActionRequest → Request
  next_hand : Request
  rebuy rebuy_request : ℤ → Request
  rebuy_approve : ℕ → ℤ → Request
  rebuy_deny : ℕ → Request
  set_decor : String → Request
  ack_match_over : Request
  voice_join voice_leave : Request
  voice_signal : VoiceSignalMessage → Request
  unknown_event : Request

-- What `emit_match_over` counts for the cached users.
unfoldable pub count_cached :
    List MatchStat → List (String × UserProfileData) → List (String × UserProfileData)
count_cached [] users = users
count_cached (stat ∷ stats) users =
    count_cached stats
      (adjust_name (or_else stat.external_id stat.username) (count_match stat) users)

-- What a handler sends to single sockets, and what it counts.
abbrev pub tell : Served → Server → Server
tell served server = send_all served.sent (record server {
  stats = server.stats ++ served.stats;
  cached_users = count_cached served.stats server.cached_users;
})

-- What a handler of a room leaves, written back to the server. The notes for the last event of a
-- room that goes are left out.
unfoldable pub store_served : Env → String → Option Room → Served → Server → Server
store_served env room_id before served server =
    let told = tell served server in
    elim before [
      | none ↦ told
      | some room ↦ elim served.room [
        | none ↦ erase_room room_id told
        | some after ↦ update_room env room_id room after told
      ]
    ]

-- A handler of the room that the session is in.
abbrev pub serve : Env → Session → (Option Room → Served) → Server → Server
serve env session handler server =
    let room = get_room server session.room_id in
    store_served env session.room_id room (handler room) server

-- The handlers by the name of the event. The two tokens are those that `next_token` would give.
unfoldable pub handle_request : Env → String → String → Session → Request → Server → Server
handle_request env t1 t2 session (join_room req) = handle_join_room env session req
handle_request env t1 t2 session (take_seat i token) = handle_take_seat env t1 t2 session i token
handle_request env t1 t2 session (toggle_ai i) =
    serve env session (λ room. handle_toggle_ai env session room i)
handle_request env t1 t2 session (kick_seat i) =
    serve env session (λ room. handle_kick_seat env session room i)
handle_request env t1 t2 session (start_game req) =
    serve env session (λ room. handle_start_game env session room req)
handle_request env t1 t2 session (action req) =
    serve env session (λ room. handle_player_action env session room req)
handle_request env t1 t2 session next_hand =
    serve env session (λ room. handle_next_hand env session room)
handle_request env t1 t2 session (rebuy amount) =
    serve env session (λ room. handle_rebuy env session room amount)
handle_request env t1 t2 session (rebuy_request amount) =
    serve env session (λ room. handle_rebuy_request env session room amount)
handle_request env t1 t2 session (rebuy_approve i amount) =
    serve env session (λ room. handle_rebuy_approve env session room i amount)
handle_request env t1 t2 session (rebuy_deny i) =
    serve env session (λ room. handle_rebuy_deny env session room i)
handle_request env t1 t2 session (set_decor decor) =
    serve env session (λ room. handle_set_decor env session room decor)
handle_request env t1 t2 session ack_match_over =
    serve env session (λ room. handle_ack_match_over session room)
handle_request env t1 t2 session voice_join = handle_voice_join session
handle_request env t1 t2 session voice_leave = handle_voice_leave session
handle_request env t1 t2 session (voice_signal req) = handle_voice_signal session req
handle_request env t1 t2 session unknown_event = λ server. server

unfoldable pub on_ws_message : Env → String → String → String → Option Request → Server → Server
on_ws_message env t1 t2 socket request server = elim (find_name socket server.sessions) [
  | none ↦ server
  | some session ↦ elim request [
    | none ↦ remove_session env socket server
    | some req ↦ handle_request env t1 t2 session req server
  ]
]
