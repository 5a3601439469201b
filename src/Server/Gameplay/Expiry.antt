-- ===== src/Server/Gameplay/Expiry.antt =====
-- How long a gameplay session lasts.
use Prim.Native.String.{String}
use dezhou.Prelude.{ℕ, ◌+◌, ◌≡◌, refl, Option, none, some, ltb, if◌then◌else◌}
use dezhou.Prelude.Names.{find_name, erase_name, find_name-put_name_self, find_name-erase_name_self}
use dezhou.Table.State.{Env}
use dezhou.Server.State.{GameplaySessionData, GameplaySessions}
use dezhou.Server.Gameplay.{
  k_gameplay_session_ttl_ms, new_gameplay, refreshed, ensure_gameplay_session, get_gameplay_session,
}

look_up :
    (env : Env) (id : String) (g : GameplaySessionData) (sessions : GameplaySessions)
    → find_name id sessions ≡ some g
    → get_gameplay_session env id sessions
      ≡ (if ltb g.expires_at env.now_ms then (erase_name id sessions, none) else (sessions, some g))
unfolding get_gameplay_session
look_up env id g sessions e = rw (e, get_gameplay_session) refl

-- What a lookup at the time `now` gives where a session was stored that lasts until `expires_at`.
abbrev pub lasts_until :
    ℕ
    → ℕ
    → String
    → GameplaySessions
    → GameplaySessionData
    → GameplaySessions × Option GameplaySessionData
lasts_until expires_at now id sessions g =
    if ltb expires_at now then (erase_name id sessions, none) else (sessions, some g)

-- A gameplay session that is made or refreshed under an id is found there, as it was stored, by
-- every lookup within the next five minutes; a later lookup does not find it, and erases it.
pub get_gameplay_session-ensure_gameplay_session :
    (env later : Env) (id : String) (user_id : ℕ) (sessions : GameplaySessions)
    → (g : GameplaySessionData) × (find_name id (ensure_gameplay_session env id user_id sessions)
        ≡ some g)
      × (get_gameplay_session later id (ensure_gameplay_session env id user_id sessions)
          ≡ lasts_until
              (env.now_ms + k_gameplay_session_ttl_ms)
              later.now_ms
              id
              (ensure_gameplay_session env id user_id sessions)
              g)
      × (find_name id (erase_name id (ensure_gameplay_session env id user_id sessions)) ≡ none)
unfolding ensure_gameplay_session
get_gameplay_session-ensure_gameplay_session env later id user_id sessions =
    let stored : GameplaySessionData =
      refreshed env user_id
        (elim (find_name id sessions) [ none ↦ new_gameplay env id user_id | some g ↦ g ]) in
    let found = find_name-put_name_self id stored sessions in
    (stored, found, look_up later id stored _ found, find_name-erase_name_self id _)
