-- ===== src/Table/Rebuys.antt =====
-- Rebuys: `handle_rebuy`, `handle_rebuy_request`, `handle_rebuy_approve` and `handle_rebuy_deny` of
-- backend-cpp/src/main.cpp. What a player pledges and his buy-in are sums of 32-bit `int`s, which
-- wrap around.
pub mod Balance
pub mod Pledges
use dezhou.Prelude.{
  ℕ, ◌+◌, ◌%◌, not, ◌||◌, List, [], ◌∷◌, Option, none, some, ltb, ◌==◌, if◌then◌else◌,
}
use dezhou.Prelude.Int.{ℤ, pos, negsuc, plus_int32}
use dezhou.Prelude.Maps.{adjust}
use dezhou.Table.State.{Room, Env, PlayerState, Notice, seat_at}
use dezhou.Table.Events.{broadcast_activity, broadcast_game}
use dezhou.Table.Seats.{get_player, is_online}
use dezhou.Table.Action.{name_at, is_player}
use dezhou.Table.Serving.{Session, Served, Reply, Refusal, unchanged, no_room, refuse, is_host}

-- An amount that is allowed: at least 1000 and a multiple of 50.
unfoldable pub rebuy_amount : ℤ → Option ℕ
rebuy_amount (negsuc n) = none
rebuy_amount (pos n) = if ltb n 1000 || not (n % 50 == 0) then none else some n

abbrev pub pledge : ℕ → PlayerState → PlayerState
pledge amount p = record p {
  pending_rebuy = plus_int32 p.pending_rebuy amount;
  total_buy_in = plus_int32 p.total_buy_in amount;
}

-- The rebuy of the player on a seat, told to the room.
unfoldable pub pledge_at : Env → Room → ℕ → ℕ → Notice → Served
pledge_at env room i amount notice = unchanged (
    broadcast_game env (
      broadcast_activity env (record room { players = adjust i (pledge amount) room.players })
        notice))

unfoldable pub handle_rebuy : Env → Session → Option Room → ℤ → Served
handle_rebuy env session none amount = no_room
handle_rebuy env session (some room) amount =
    if not room.started || room.closing then unchanged room else elim session.seat_idx [
      | none ↦ unchanged room
      | some i ↦ elim (get_player room i) [
        | none ↦ unchanged room
        | some p ↦ if ltb 0 p.chips then unchanged room else elim (rebuy_amount amount) [
          | none ↦ refuse session room Refusal.bad_amount
          | some n ↦ pledge_at env room i n (Notice.rebuys_next_hand (name_at room i) n)
        ]
      ]
    ]

unfoldable pub handle_rebuy_request : Env → Session → Option Room → ℤ → Served
handle_rebuy_request env session none amount = no_room
handle_rebuy_request env session (some room) amount =
    if not room.started || room.closing then unchanged room else elim session.seat_idx [
      | none ↦ unchanged room
      | some i ↦ elim (get_player room i) [
        | none ↦ unchanged room
        | some p ↦ if ltb 0 p.chips then unchanged room else elim (rebuy_amount amount) [
          | none ↦ refuse session room Refusal.bad_amount
          | some n ↦
              if not (is_online env room.host_socket_id)
              then refuse session room Refusal.host_offline
              else record (unchanged room) {
                sent = (room.host_socket_id, Reply.rebuy_requested i (name_at room i) n) ∷ [];
              }
        ]
      ]
    ]

unfoldable pub handle_rebuy_approve : Env → Session → Option Room → ℕ → ℤ → Served
handle_rebuy_approve env session none i amount = no_room
handle_rebuy_approve env session (some room) i amount =
    if not room.started || room.closing || not (is_host session room)
    then unchanged room
    else elim (get_player room i) [
      | none ↦ unchanged room
      | some p ↦ elim (rebuy_amount amount) [
        | none ↦ unchanged room
        | some n ↦ pledge_at env room i n (Notice.rebuy_approved (name_at room i) n)
      ]
    ]

-- The code reads the seat without a test of the index; a seat out of range is read as empty here.
unfoldable pub handle_rebuy_deny : Env → Session → Option Room → ℕ → Served
handle_rebuy_deny env session none i = no_room
handle_rebuy_deny env session (some room) i =
    let seat = seat_at room i in
    if not room.started || room.closing || not (is_host session room)
    then unchanged room
    else if not (is_player seat.type) || not (is_online env seat.socket_id)
    then unchanged room
    else record {
      room = some (broadcast_activity env room (Notice.rebuy_denied_to seat.name));
      sent = (seat.socket_id, Reply.rebuy_denied) ∷ [];
      stats = [];
    }
