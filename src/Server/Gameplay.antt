-- ===== src/Server/Gameplay.antt =====
-- The gameplay sessions, which outlive a socket: `ensure_gameplay_session`,
-- `get_gameplay_session` and `touch_gameplay_session` of backend-cpp/src/main.cpp.
pub mod Expiry
use Prim.Native.String.{String}
use dezhou.Prelude.{
  ℕ, ◌+◌, Bool, true, false, List, [], ◌∷◌, Option, none, some, ltb, if◌then◌else◌,
}
use dezhou.Prelude.Names.{find_name, put_name, adjust_name, erase_name}
use dezhou.Table.State.{Env}
use dezhou.Server.State.{GameplaySessionData, GameplaySessions}

-- Five minutes.
abbrev pub k_gameplay_session_ttl_ms : ℕ
k_gameplay_session_ttl_ms = 300000

abbrev pub new_gameplay : Env → String → ℕ → GameplaySessionData
new_gameplay env id user_id = record {
  gameplay_session_id = id;
  user_id = user_id;
  room_id = "";
  seat_idx = none;
  reconnect_token = "";
  last_seen_seq = 0;
  last_disconnect_at = 0;
  ai_takeover_at = 0;
  expires_at = env.now_ms + k_gameplay_session_ttl_ms;
  ai_managed = false;
}

abbrev pub touch_gameplay_session : Env → GameplaySessionData → GameplaySessionData
touch_gameplay_session env g = record g { expires_at = env.now_ms + k_gameplay_session_ttl_ms }

-- What the session becomes that is found, or the new one.
abbrev pub refreshed : Env → ℕ → GameplaySessionData → GameplaySessionData
refreshed env user_id g =
    touch_gameplay_session env (record g { user_id = if ltb 0 user_id then user_id else g.user_id })

unfoldable pub ensure_gameplay_session : Env → String → ℕ → GameplaySessions → GameplaySessions
ensure_gameplay_session env id user_id sessions =
    let found : GameplaySessionData = elim (find_name id sessions) [
      | none ↦ new_gameplay env id user_id
      | some g ↦ g
    ] in
    put_name id (refreshed env user_id found) sessions

-- `GameplaySessionData& gameplay = ensure_gameplay_session(...)`, and what is written through it.
unfoldable pub with_gameplay :
    Env
    → String
    → ℕ
    → (GameplaySessionData → GameplaySessionData)
    → GameplaySessions
    → GameplaySessions
with_gameplay env id user_id change sessions =
    adjust_name id change (ensure_gameplay_session env id user_id sessions)

-- An expired session is erased, and not found.
unfoldable pub get_gameplay_session :
    Env → String → GameplaySessions → GameplaySessions × Option GameplaySessionData
get_gameplay_session env id sessions = elim (find_name id sessions) [
  | none ↦ (sessions, none)
  | some g ↦
      if ltb g.expires_at env.now_ms then (erase_name id sessions, none) else (sessions, some g)
]
