-- ===== src/Stores/Accounts.antt =====
-- What the account store finds after a registration.
use Prim.Native.String.{String}
use text.Mathlib.Text.{◌==◌ as str_eq}
use dezhou.Prelude.{ℕ, ◌≡◌, ◌⊎◌, refl, false, inl, inr, Option-cases, none, some, ==_refl}
use dezhou.Prelude.Maps.{find}
use dezhou.Prelude.Names.{find_name, find_name-put_name_self, find_name-put_name_ne}
use dezhou.Stores.{
  AuthAccountData, MemoryAuthStore, register_account, find_by_username, find_by_user_id,
}

-- A registration that succeeded: the account is found by its name and its id, and the names of
-- others find what they found.
pub record Registered (store after : MemoryAuthStore) (user_id : ℕ) (username : String)
    (account : AuthAccountData) : Type 0 where
  pub was_free : find_by_username store username ≡ none
  pub by_name : find_by_username after username ≡ some account
  pub by_id : find_by_user_id after user_id ≡ some account
  pub others :
      (name : String)
      → str_eq name username ≡ false
      → find_by_username after name ≡ find_by_username store name

-- A registration either is refused, for a name that is taken, and leaves the store as it is, or
-- its account is found by its name and by its id, and all other names find what they found.
pub register_account-Registered :
    (now_ms : ℕ) (store : MemoryAuthStore) (user_id : ℕ) (username hash : String)
    → let r = register_account now_ms store user_id username hash in
      ((r ≡ (store, none))
        × ((taken : AuthAccountData) × (find_by_username store username ≡ some taken)))
      ⊎ ((account : AuthAccountData) × (r.1 ≡ some account)
          × (account.password_hash ≡ hash)
          × Registered store r.0 user_id username account)
unfolding register_account find_by_username find_by_user_id find
register_account-Registered now_ms store user_id username hash =
    elim (Option-cases (find_name username store.accounts_by_username)) [
      | inr (taken, e) ↦ rw (register_account, e) (inl (refl, (taken, refl)))
      | inl e ↦
          let account : AuthAccountData = record {
            user_id = user_id;
            username = username;
            password_hash = hash;
            created_at = now_ms;
            last_login_at = now_ms;
          } in
          let found = find_name-put_name_self username account store.accounts_by_username in
          rw (register_account, e)
            (inr (
              account,
              refl,
              refl,
              record {
                was_free = e;
                by_name = found;
                by_id = rw (find_by_user_id, ==_refl user_id) found;
                others = λ name ne.
                    find_name-put_name_ne name username account store.accounts_by_username ne;
              },
            ))
    ]
