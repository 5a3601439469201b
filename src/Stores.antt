-- ===== src/Stores.antt =====
-- The stores in memory of backend-cpp/src/main.cpp: `MemoryAuthStore` and `MemoryUserStore`.
pub mod Accounts
pub mod Tallies
use Prim.Native.String.{String}
use text.Mathlib.Text.{◌==◌ as str_eq}
use dezhou.Prelude.{ℕ, ◌+◌, Bool, true, false, List, [], ◌∷◌, Option, none, some, if◌then◌else◌}
use dezhou.Prelude.Int.{ℤ, pos, ltb_ℤ, pos_part, neg_part, sub_ℕ}
use dezhou.Prelude.Maps.{find}
use dezhou.Prelude.Names.{find_name, put_name}
use dezhou.Table.State.{MatchStat}

pub record AuthAccountData : Type 0 where
  pub user_id : ℕ
  pub username : String
  pub password_hash : String
  pub created_at : ℕ
  pub last_login_at : ℕ

pub record MemoryAuthStore : Type 0 where
  pub accounts_by_username : List (String × AuthAccountData)
  pub usernames_by_user_id : List (ℕ × String)

-- `none` is the error "Username already exists." The latest entry of a user comes first.
unfoldable pub register_account :
    ℕ → MemoryAuthStore → ℕ → String → String → MemoryAuthStore × Option AuthAccountData
register_account now_ms store user_id username password_hash =
    elim (find_name username store.accounts_by_username) [
      | some taken ↦ (store, none)
      | none ↦
          let account : AuthAccountData = record {
            user_id = user_id;
            username = username;
            password_hash = password_hash;
            created_at = now_ms;
            last_login_at = now_ms;
          } in
          (
            record {
              accounts_by_username = put_name username account store.accounts_by_username;
              usernames_by_user_id = (user_id, username) ∷ store.usernames_by_user_id;
            },
            some account,
          )
    ]

unfoldable pub find_by_username : MemoryAuthStore → String → Option AuthAccountData
find_by_username store username = find_name username store.accounts_by_username

unfoldable pub find_by_user_id : MemoryAuthStore → ℕ → Option AuthAccountData
find_by_user_id store user_id = elim (find user_id store.usernames_by_user_id) [
  | none ↦ none
  | some username ↦ find_by_username store username
]

-- `AuthAccountData{}`, which `operator[]` puts where a name is missing.
abbrev pub no_account : AuthAccountData
no_account = record {
  user_id = 0;
  username = "";
  password_hash = "";
  created_at = 0;
  last_login_at = 0;
}

unfoldable pub update_last_login : MemoryAuthStore → ℕ → ℕ → MemoryAuthStore
update_last_login store user_id ts = elim (find user_id store.usernames_by_user_id) [
  | none ↦ store
  | some username ↦
      let account : AuthAccountData = elim (find_by_username store username) [
        | none ↦ no_account
        | some found ↦ found
      ] in
      record store {
        accounts_by_username =
            put_name username (record account { last_login_at = ts }) store.accounts_by_username;
      }
]

pub record UserProfileData : Type 0 where
  pub user_id : ℕ
  pub external_id : String
  pub login_username : String
  pub username : String
  pub avatar : String
  pub gold : ℤ
  pub games_played : ℕ
  pub games_won : ℕ

pub record MemoryUserStore : Type 0 where
  pub last_id : ℕ
  pub users : List (String × UserProfileData)

-- `a.empty() ? b : a`
abbrev pub or_else : String → String → String
or_else a b = if str_eq a "" then b else a

-- What the branches of `load_or_create` leave in the map, with the counter of ids.
unfoldable pub loaded : MemoryUserStore → String → String → ℕ × UserProfileData
loaded store key username = elim (find_name key store.users) [
  | none ↦ (
    store.last_id + 1,
    record {
      user_id = store.last_id + 1;
      external_id = key;
      login_username = key;
      username = or_else username key;
      avatar = "";
      gold = pos 10000;
      games_played = 0;
      games_won = 0;
    },
  )
  | some user ↦ (store.last_id, record user { username = or_else username user.username })
]

unfoldable pub load_or_create :
    MemoryUserStore → String → String → MemoryUserStore × UserProfileData
load_or_create store external_id username =
    let key = or_else external_id username in
    let (last_id, user) = loaded store key username in
    let named = record user { login_username = or_else user.login_username key } in
    (record { last_id = last_id; users = put_name key named store.users }, named)

-- `gold += delta; if (gold < 0) gold = 0;`
abbrev pub add_gold : ℤ → ℤ → ℤ
add_gold gold delta =
    let sum = sub_ℕ (pos_part gold + pos_part delta) (neg_part gold + neg_part delta) in
    if ltb_ℤ sum (pos 0) then pos 0 else sum

abbrev pub count_match : MatchStat → UserProfileData → UserProfileData
count_match stat user = record user {
  games_played = user.games_played + 1;
  games_won = if stat.winner then user.games_won + 1 else user.games_won;
  gold = add_gold user.gold stat.gold_delta;
}

unfoldable pub record_match : MemoryUserStore → List MatchStat → MemoryUserStore
record_match store [] = store
record_match store (stat ∷ stats) =
    let key = or_else stat.external_id stat.username in
    record_match
      (elim (find_name key store.users) [
        | none ↦ store
        | some user ↦ record store { users = put_name key (count_match stat user) store.users }
      ])
      stats
