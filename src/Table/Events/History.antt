-- ===== src/Table/Events/History.antt =====
-- The event log of a room is the end of its whole history.
use dezhou.Prelude.{
  ℕ, zero, suc, ◌+◌, ◌-◌, ◌≤◌, ◌≡◌, refl, sym, ap, ◌∙◌, List, [], ◌∷◌, ◌++◌, Option, length,
  length-append, arith,
}
use dezhou.Table.State.{Room, Env, RoomEventEntry, Message}
use dezhou.Table.Events.{drop_front, keep_last, append_room_event, k_room_event_log_limit}
use dezhou.Table.Events.Numbered.{IsNumbered, append-IsNumbered, length-drop_front}

module _ {ℓ} {A : Type ℓ} where
  drop_front_none : (n : ℕ) (xs : List A) → n ≡ 0 → drop_front n xs ≡ xs
  unfolding drop_front
  drop_front_none zero xs h = refl
  drop_front_none (suc n) xs h = absurd (omega (arith, h))

  pub drop_front-append :
      (n : ℕ) (xs ys : List A) → n ≤ length xs → drop_front n (xs ++ ys) ≡ drop_front n xs ++ ys
  unfolding drop_front
  drop_front-append zero xs ys h = refl
  drop_front-append (suc n) [] ys h = absurd (omega arith)
  drop_front-append (suc n) (x ∷ xs) ys h = drop_front-append n xs ys (omega arith)

  drop_front_nil : (n : ℕ) → drop_front {A = A} n [] ≡ []
  unfolding drop_front
  drop_front_nil zero = refl
  drop_front_nil (suc n) = refl

  drop_front_twice :
      (m n k : ℕ) (xs : List A) → n + m ≡ k → drop_front m (drop_front n xs) ≡ drop_front k xs
  unfolding drop_front
  drop_front_twice m zero k xs h = ap (λ j. drop_front j xs) (omega (arith, h))
  drop_front_twice m (suc n) k [] h = drop_front_nil m ∙ sym (drop_front_nil k)
  drop_front_twice m (suc n) zero (x ∷ xs) h = absurd (omega (arith, h))
  drop_front_twice m (suc n) (suc k) (x ∷ xs) h = drop_front_twice m n k xs (omega (arith, h))

  -- The limit may be applied before an entry is appended.
  pub keep_last_again :
      (limit : ℕ) (xs : List A) (x : A)
      → keep_last limit (keep_last limit xs ++ x ∷ []) ≡ keep_last limit (xs ++ x ∷ [])
  unfolding keep_last
  keep_last_again limit xs x =
      let over = length xs - limit in
      let kept = drop_front over xs in
      let more = length (kept ++ x ∷ []) - limit in
      let below : over ≤ length xs = omega arith in
      let sizes : over + more ≡ length (xs ++ x ∷ []) - limit = omega (
        arith,
        length-append xs (x ∷ []),
        length-append kept (x ∷ []),
        length-drop_front over xs,
      ) in
      ap (drop_front more) (sym (drop_front-append over xs (x ∷ []) below))
      ∙ drop_front_twice more over _ (xs ++ x ∷ []) sizes

-- The history of a room: all its events so far, numbered from 1, of which its log is the end.
pub record IsHistoryOf (history : List RoomEventEntry) (room : Room) : Type 0 where
  pub kept : room.event_log ≡ keep_last k_room_event_log_limit history
  pub numbered : IsNumbered room.event_seq history
  pub counted : length history ≡ room.event_seq

pub append_room_event-IsHistoryOf :
    (env : Env) (room : Room) (message : Message) (seat_idx : Option ℕ)
    → (e : RoomEventEntry) × ((history : List RoomEventEntry)
        → IsHistoryOf history room
        → IsHistoryOf (history ++ e ∷ []) (append_room_event env room message seat_idx))
unfolding append_room_event
append_room_event-IsHistoryOf env room message seat_idx =
    let e : RoomEventEntry = record {
      seq = room.event_seq + 1;
      message = message;
      seat_idx = seat_idx;
      created_at = env.now_ms;
    } in
    (
      e,
      λ history h. record {
        kept =
            ap (λ log. keep_last k_room_event_log_limit (log ++ e ∷ [])) h.kept
            ∙ keep_last_again k_room_event_log_limit history e;
        numbered = append-IsNumbered room.event_seq history e h.numbered (omega arith);
        counted = omega (arith, length-append history (e ∷ []), h.counted);
      },
    )
