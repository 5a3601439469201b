-- ===== src/Table/Seats/Clockwise.antt =====
-- `next_seat_clockwise` finds the first seat.
use dezhou.Prelude.{
  ℕ, zero, suc, ◌+◌, ◌%◌, ◌≤◌, ◌<◌, ◌≡◌, refl, Bool, true, false, arith, inl, inr, Bool-cases,
  Option, some, none, ◌==◌, ==_iff,
}
use dezhou.Table.State.{k_seats}
use dezhou.Table.Seats.{seek_clockwise, next_seat_clockwise}

-- The search from `step` on, over `left` seats, ends at the first hit or finds none.
abbrev pub Finds : (ℕ → Bool) → ℕ → ℕ → ℕ → Option ℕ → Type 0
Finds predicate start step left none =
    (k : ℕ) → step ≤ k → k < step + left → predicate ((start + k) % k_seats) ≡ false
Finds predicate start step left (some idx) =
    (hit : ℕ) × (step ≤ hit)
    × (hit < step + left)
    × (idx ≡ (start + hit) % k_seats)
    × (predicate idx ≡ true)
    × ((k : ℕ) → step ≤ k → k < hit → predicate ((start + k) % k_seats) ≡ false)

missed :
    (predicate : ℕ → Bool) (start step left : ℕ) (r : Option ℕ)
    → predicate ((start + step) % k_seats) ≡ false
    → Finds predicate start (step + 1) left r
    → Finds predicate start step (suc left) r
missed predicate start step left none e h = λ k lo hi. elim (Bool-cases (k == step)) [
  | inl same ↦ let eq : k ≡ step = (==_iff k step).0 same in rw eq e
  | inr other ↦ h k (ground arith) (omega arith)
]
missed predicate start step left (some idx) e (hit, lo, hi, at, yes_hit, before) = (
  hit,
  omega arith,
  omega arith,
  at,
  yes_hit,
  λ k low high. elim (Bool-cases (k == step)) [
    | inl same ↦ let eq : k ≡ step = (==_iff k step).0 same in rw eq e
    | inr other ↦ before k (ground arith) high
  ],
)

seek_clockwise-Finds :
    (predicate : ℕ → Bool) (start step left : ℕ)
    → Finds predicate start step left (seek_clockwise predicate start step left)
unfolding seek_clockwise
seek_clockwise-Finds predicate start step zero = λ k lo hi. absurd (omega arith)
seek_clockwise-Finds predicate start step (suc left) =
    elim (Bool-cases (predicate ((start + step) % k_seats))) [
      | inl e ↦ rw e (step, omega arith, omega arith, refl, e, λ k lo hi. absurd (omega arith))
      | inr e ↦ rw e (
          missed predicate start step left (seek_clockwise predicate start (step + 1) left) e
            (seek_clockwise-Finds predicate start (step + 1) left))
    ]

-- `next_seat_clockwise` gives the first of the ten seats after `start`, clockwise and ending at
-- `start` itself, that passes the test: that seat passes and all seats passed over fail. It gives
-- none only if all ten fail.
pub next_seat_clockwise-Finds :
    (start : ℕ) (predicate : ℕ → Bool)
    → Finds predicate start 1 k_seats (next_seat_clockwise start predicate)
unfolding next_seat_clockwise
next_seat_clockwise-Finds start predicate = seek_clockwise-Finds predicate start 1 k_seats

-- A seat that is found passes the test.
pub next_seat_clockwise-passes :
    (start : ℕ) (predicate : ℕ → Bool) (idx : ℕ)
    → next_seat_clockwise start predicate ≡ some idx
    → predicate idx ≡ true
next_seat_clockwise-passes start predicate idx e =
    let found : Finds predicate start 1 k_seats (some idx) =
      rw e at (next_seat_clockwise-Finds start predicate) in
    found.4
