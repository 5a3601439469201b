-- ===== src/Tests/Stores.antt =====
-- The stores in memory with two accounts and one user.
use dezhou.Prelude.{◌≡◌, ◌⊎◌, refl, false, [], ◌∷◌, some, none, arith}
use dezhou.Prelude.Int.{pos, negsuc}
use dezhou.Prelude.Names.{find_name}
use dezhou.Table.State.{MatchStat}
use dezhou.Stores.{
  AuthAccountData, MemoryAuthStore, UserProfileData, MemoryUserStore, register_account,
  find_by_username, load_or_create, record_match, or_else,
}
use dezhou.Stores.Accounts.{Registered, register_account-Registered}
use dezhou.Stores.Tallies.{IsSound, AllSound, record_match-AllSound, load_or_create-AllSound}

abbrev no_accounts : MemoryAuthStore
no_accounts = record { accounts_by_username = []; usernames_by_user_id = [] }

register_account-Registered_example :
    ((register_account 5 no_accounts 1 "ada" "h" ≡ (no_accounts, none))
      × ((taken : AuthAccountData) × (find_by_username no_accounts "ada" ≡ some taken)))
    ⊎ ((account : AuthAccountData) × ((register_account 5 no_accounts 1 "ada" "h").1 ≡ some account)
        × (account.password_hash ≡ "h")
        × Registered no_accounts (register_account 5 no_accounts 1 "ada" "h").0 1 "ada" account)
register_account-Registered_example = register_account-Registered 5 no_accounts 1 "ada" "h"

abbrev ada : UserProfileData
ada = record {
  user_id = 1;
  external_id = "ada";
  login_username = "ada";
  username = "Ada";
  avatar = "";
  gold = pos 30;
  games_played = 4;
  games_won = 4;
}

abbrev one_user : MemoryUserStore
one_user = record { last_id = 1; users = ("ada", ada) ∷ [] }

one_user-AllSound : AllSound one_user
one_user-AllSound =
    (record { given_out = omega arith; won_le_played = omega arith; no_debt = refl }, tt)

-- A loss of 50, more than she has.
abbrev loss : MatchStat
loss = record { external_id = "ada"; username = "Ada"; gold_delta = negsuc 49; winner = false }

record_match-AllSound_example : AllSound (record_match one_user (loss ∷ []))
record_match-AllSound_example = record_match-AllSound one_user (loss ∷ []) one_user-AllSound

load_or_create-AllSound_example :
    AllSound (load_or_create one_user "bob" "Bob").0
    × IsSound
        (load_or_create one_user "bob" "Bob").0.last_id
        (load_or_create one_user "bob" "Bob").1
    × (find_name (or_else "bob" "Bob") (load_or_create one_user "bob" "Bob").0.users
        ≡ some (load_or_create one_user "bob" "Bob").1)
load_or_create-AllSound_example = load_or_create-AllSound one_user "bob" "Bob" one_user-AllSound
