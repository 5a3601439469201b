-- ===== src/Stores/Tallies.antt =====
-- The users' tallies stay sound.
use Prim.Native.String.{String}
use dezhou.Prelude.{
  ℕ, ◌+◌, ◌≤◌, ◌≡◌, refl, Bool, true, false, inl, inr, Bool-cases, Option-cases, List, [], ◌∷◌,
  some, if◌then◌else◌, All, All-map, arith,
}
use dezhou.Prelude.Int.{ℤ, pos, negsuc, ltb_ℤ, pos_part, neg_part, sub_ℕ}
use dezhou.Prelude.Names.{find_name, put_name, All-put_name, All-find_name, find_name-put_name_self}
use dezhou.Table.State.{MatchStat}
use dezhou.Stores.{
  UserProfileData, MemoryUserStore, loaded, load_or_create, add_gold, count_match, record_match,
  or_else,
}

-- An id that was given out, no more games won than played, and no debts.
pub record IsSound (last_id : ℕ) (user : UserProfileData) : Type 0 where
  pub given_out : user.user_id ≤ last_id
  pub won_le_played : user.games_won ≤ user.games_played
  pub no_debt : neg_part user.gold ≡ 0

abbrev pub AllSound : MemoryUserStore → Type 0
AllSound store = All (λ e. IsSound store.last_id e.1) store.users

add_gold-no_debt : (gold delta : ℤ) → neg_part (add_gold gold delta) ≡ 0
add_gold-no_debt gold delta =
    let sum = sub_ℕ (pos_part gold + pos_part delta) (neg_part gold + neg_part delta) in
    elim (Bool-cases (ltb_ℤ sum (pos 0))) [
      | inl low ↦ rw low refl
      | inr high ↦ rw high (nonneg sum high)
    ]
  where
    nonneg : (z : ℤ) → ltb_ℤ z (pos 0) ≡ false → neg_part z ≡ 0
    nonneg (pos n) h = refl
    nonneg (negsuc n) h = absurd (ground arith)

won_le : (b : Bool) (won played : ℕ) → won ≤ played → (if b then won + 1 else won) ≤ played + 1
won_le true won played h = omega arith
won_le false won played h = omega arith

count_match-IsSound :
    (n : ℕ) (stat : MatchStat) (user : UserProfileData)
    → IsSound n user
    → IsSound n (count_match stat user)
count_match-IsSound n stat user s = record {
  given_out = s.given_out;
  won_le_played = won_le stat.winner user.games_won user.games_played s.won_le_played;
  no_debt = add_gold-no_debt user.gold stat.gold_delta;
}

-- Recording the statistics of a match keeps every user sound: no id is new, no more games are won
-- than played, and no user's gold falls below zero, whatever the losses.
pub record_match-AllSound :
    (store : MemoryUserStore) (stats : List MatchStat)
    → AllSound store
    → AllSound (record_match store stats)
unfolding record_match
record_match-AllSound store [] s = s
record_match-AllSound store (stat ∷ stats) s =
    let key = or_else stat.external_id stat.username in
    elim (Option-cases (find_name key store.users)) [
      | inl e ↦ rw (record_match, e) (record_match-AllSound store stats s)
      | inr (user, e) ↦
          let counted = count_match stat user in
          let sound : IsSound store.last_id counted =
            count_match-IsSound store.last_id stat user
              (All-find_name (IsSound store.last_id) key store.users user s e) in
          rw (record_match, e)
            (record_match-AllSound (record store { users = put_name key counted store.users }) stats
              (All-put_name (λ e. IsSound store.last_id e.1) key counted store.users (λ j. sound)
                s))
    ]

IsSound-mono : (m n : ℕ) (user : UserProfileData) → m ≤ n → IsSound m user → IsSound n user
IsSound-mono m n user h s = record {
  given_out = omega (arith, h, s.given_out);
  won_le_played = s.won_le_played;
  no_debt = s.no_debt;
}

loaded-IsSound :
    (store : MemoryUserStore) (key username : String)
    → AllSound store
    → let l = loaded store key username in (store.last_id ≤ l.0) × IsSound l.0 l.1
unfolding loaded
loaded-IsSound store key username s = elim (Option-cases (find_name key store.users)) [
  | inl e ↦
      rw (loaded, e)
        (
          omega arith,
          record { given_out = omega arith; won_le_played = omega arith; no_debt = refl },
        )
  | inr (user, e) ↦
      let found = All-find_name (IsSound store.last_id) key store.users user s e in
      rw (loaded, e)
        (
          omega arith,
          record {
            given_out = found.given_out;
            won_le_played = found.won_le_played;
            no_debt = found.no_debt;
          },
        )
]

-- Loading a user, or creating one with a new id, keeps every user sound, and gives a sound user
-- that the store then finds under the key of the request.
pub load_or_create-AllSound :
    (store : MemoryUserStore) (external_id username : String)
    → AllSound store
    → let r = load_or_create store external_id username in
      AllSound r.0
      × IsSound r.0.last_id r.1
      × (find_name (or_else external_id username) r.0.users ≡ some r.1)
unfolding load_or_create
load_or_create-AllSound store external_id username s =
    let key = or_else external_id username in
    let l = loaded store key username in
    let (grows, sound) = loaded-IsSound store key username s in
    let named = record (l.1) { login_username = or_else (l.1).login_username key } in
    let fits : IsSound l.0 named = record {
      given_out = sound.given_out;
      won_le_played = sound.won_le_played;
      no_debt = sound.no_debt;
    } in
    (
      All-put_name (λ e. IsSound l.0 e.1) key named store.users (λ j. fits)
          (All-map (λ e. IsSound store.last_id e.1) (λ e. IsSound l.0 e.1) store.users
            (λ e. IsSound-mono store.last_id l.0 e.1 grows) s),
      fits,
      find_name-put_name_self key named store.users,
    )
