-- ===== src/Server/Rooms/Created.antt =====
-- A room that a user makes.
use Prim.Native.String.{String}
use text.Mathlib.Text.{◌==◌ as str_eq}
use dezhou.Prelude.{
  ◌≡◌, refl, ap, ◌∙◌, ◌++◌, ◌≤◌, false, List, [], ◌∷◌, keep, Option, none, some, elim-cases, All,
  arith,
}
use dezhou.Prelude.Int.{ℤ, pos, negsuc}
use dezhou.Prelude.Names.{put_name, find_name-put_name_self, find_name-put_name_ne}
use dezhou.Stores.{UserProfileData}
use dezhou.Table.State.{Room, Env, seat_indices}
use dezhou.Table.Lobby.{is_occupied, clamp_hands, at_least_1000}
use dezhou.Server.State.{Server, get_room, put_room}
use dezhou.Server.Rooms.{
  RoomRequest, new_room, user_room, ensure_room, fresh_code, create_room_for_user,
}

-- The new room stands under a code that no room had; it is the user's, nobody sits in it, its
-- limits are within bounds, and every other room is as it was.
pub record IsNewRoom (server : Server) (profile : UserProfileData) (room : Room) (after : Server)
    : Type 0 where
  pub was_free : get_room server room.room_id ≡ none
  pub found : get_room after room.room_id ≡ some room
  pub own_code : room.room_code ≡ room.room_id
  pub owner : room.owner_user_id ≡ profile.user_id
  pub empty : keep (is_occupied room) seat_indices ≡ []
  pub hands : (1 ≤ room.total_hands) × (room.total_hands ≤ 50)
  pub chips : 1000 ≤ room.initial_chips
  pub others :
      (id : String) → str_eq id room.room_id ≡ false → get_room after id ≡ get_room server id

abbrev pub IsTaken : Server → String → Type 0
IsTaken server code = (taken : Room) × (get_room server code ≡ some taken)

-- The code was drawn, and there was a room for every code drawn before it.
abbrev pub IsFirstFree : Server → List String → String → Type 0
IsFirstFree server codes code =
    (earlier : List String) × (later : List String) × (codes ≡ earlier ++ code ∷ later)
    × All (IsTaken server) earlier

abbrev pub IsCreated : Server → List String → UserProfileData → Option (Room × Server) → Type 0
IsCreated server codes profile none = All (IsTaken server) codes
IsCreated server codes profile (some (room, after)) =
    IsFirstFree server codes room.room_id × IsNewRoom server profile room after

FreshCode : Server → List String → Option String → Type 0
FreshCode server codes none = All (IsTaken server) codes
FreshCode server codes (some code) = (get_room server code ≡ none) × IsFirstFree server codes code

one_more_taken :
    (server : Server) (code : String) (codes : List String) (taken : Room) (o : Option String)
    → get_room server code ≡ some taken
    → FreshCode server codes o
    → FreshCode server (code ∷ codes) o
unfolding FreshCode
one_more_taken server code codes taken none e all = ((taken, e), all)
one_more_taken server code codes taken (some c) e (free, (earlier, later, same, all)) =
    (free, (code ∷ earlier, later, ap (λ cs. code ∷ cs) same, ((taken, e), all)))

fresh_code-FreshCode :
    (server : Server) (codes : List String) → FreshCode server codes (fresh_code server codes)
unfolding fresh_code FreshCode
fresh_code-FreshCode server [] = tt
fresh_code-FreshCode server (code ∷ codes) =
    let rest = fresh_code server codes in
    elim-cases (FreshCode server (code ∷ codes)) (get_room server code) (some code) (λ taken. rest)
      (λ e. (e, ([], codes, refl, tt)))
      (λ taken e. one_more_taken server code codes taken rest e (fresh_code-FreshCode server codes))

hands_in_bounds : (n : ℤ) → (1 ≤ clamp_hands n) × (clamp_hands n ≤ 50)
hands_in_bounds (pos n) = (omega arith, omega arith)
hands_in_bounds (negsuc n) = (omega arith, omega arith)

chips_in_bounds : (n : ℤ) → 1000 ≤ at_least_1000 n
chips_in_bounds (pos n) = omega arith
chips_in_bounds (negsuc n) = omega arith

-- A room is made under the first code drawn that no room has: it is the user's, nobody sits in it,
-- it has 1 to 50 hands and at least 1000 chips each, and the other rooms stay as they are. No room
-- is made only if every code that was drawn is taken.
pub create_room_for_user-IsCreated :
    (env : Env) (codes : List String) (profile : UserProfileData) (req : RoomRequest)
    (server : Server)
    → IsCreated server codes profile (create_room_for_user env codes profile req server)
unfolding create_room_for_user ensure_room FreshCode
create_room_for_user-IsCreated env codes profile req server =
    by_code (fresh_code server codes) (fresh_code-FreshCode server codes)
  where
    by_code :
        (o : Option String)
        → FreshCode server codes o
        → IsCreated server codes profile (elim o [
          | none ↦ none
          | some code ↦
              (let (room, made) = ensure_room env code server in
                let owned = user_room env profile req code room in
                some (owned, put_room code owned made))
        ])
    by_code none all = all
    by_code (some code) (free, first) =
        let fresh = new_room env code in
        let owned = user_room env profile req code fresh in
        rw (free, ensure_room)
          (
            first,
            record {
              was_free = free;
              found = find_name-put_name_self code owned (put_name code fresh server.rooms);
              own_code = refl;
              owner = refl;
              empty = refl;
              hands = hands_in_bounds req.total_hands;
              chips = chips_in_bounds req.initial_chips;
              others = λ id ne.
                  find_name-put_name_ne id code owned (put_name code fresh server.rooms) ne
                  ∙ find_name-put_name_ne id code fresh server.rooms ne;
            },
          )
