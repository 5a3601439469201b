-- ===== src/Lib.antt =====
-- The poker server of DEZHOU2, backend-cpp: the rules of a table and of a hand, and the requests,
-- sessions and seats around them.
--
-- The server (backend-cpp/src/main.cpp) keeps a map of rooms. Each room is a table of ten seats on
-- which hands of no-limit Texas hold'em are played; the pure rules are in backend-cpp/src/engine. A
-- client's request is checked by a handler, which changes the room, appends to the room's event log
-- what the clients are sent, and asks the next seat for its turn, or settles the hand.
--
-- What models what:
-- - Prelude and its children: the shared names, lists, integers, ordered sets (`std::set<int>`), maps
--   by ascending key (`std::map<int, V>`), maps by name and sorting.
-- - Text: the text helpers at the top of main.cpp, on bytes in the "C" locale.
-- - Engine/Cards, Engine/RoundPhase, Engine/Pots, Engine/Evaluator: holdem_types.hpp,
--   round_phase.cpp, pot_manager.cpp and holdem_evaluator.cpp of backend-cpp/src/engine. Their proofs
--   are in the children: Pots/Layers, Pots/Totals, Pots/Shares, Evaluator/Order, Evaluator/Best.
-- - Table/State: the structs of main.cpp (`Seat`, `PlayerState`, `Room`, the messages), and Env, which
--   holds what a hand reads of the server around it.
-- - Table/Events: `append_room_event`, `emit_*` and `broadcast_*`.
-- - Table/Seats: `ensure_players_map` to `get_active_offset`.
-- - Table/Betting: `place_bet`, `post_blind` and the pending seats.
-- - Table/Deal: `fresh_deck`, `reset_hand`, the rebuys, `deal_hole_cards`, `deal_community`.
-- - Table/Settle: `finish_hand`, `send_hand_over` and the order of the odd chips.
-- - Table/Turn: `request_turn` and `proceed_to_next_street`, which call each other.
-- - Table/Action: `handle_action`.
-- - Table/Match: `build_standings`, `build_match_stats`, `emit_match_over`.
-- - Table/Hand: `start_hand`, `ai_act`, the machine's timer and
--   `resolve_disconnect_for_current_hand`.
-- - Table/Serving, Table/Lobby, Table/Rebuys, Table/Requests: the handlers of a room's requests
--   (`handle_player_action`, `handle_start_game`, `handle_rebuy` and the like) over a session and the
--   room that `get_room` finds, with `build_room_state` and `replay_missed_events`.
-- - Stores: `MemoryAuthStore` and `MemoryUserStore`.
-- - Encoding/Base64, Encoding/Password: `base64_encode`, `base64_decode` and the password records of
--   main.cpp. Encoding/Sha256: sha256.hpp.
-- - Server and its children: the maps of `PokerServer` around the rooms. Server/Gameplay: the gameplay
--   sessions; Server/Marks: what `emit_*` notes in the sessions for the events that an operation
--   appended; Server/Sync: `send_full_state_sync` and the replay; Server/Seating, Server/Joining,
--   Server/Leaving, Server/Voice, Server/Rooms: `handle_take_seat`, `handle_join_room`,
--   `handle_disconnect`, `handle_voice_*` and `create_room_for_user`; Server/Dispatch:
--   `on_ws_message`. Server/Reachable: the steps that the server takes.
-- - Table/Frame and its children: the proofs of what the operations of a hand leave alone.
-- - Server/Sound and its children: the proofs that every request keeps the server sound.
-- - Table/Chips and its children: the proofs about the chips of the table.
-- - Tests: a concrete table and hands, to which the theorems are applied.
--
-- How the code is carried over: a function that changes a room takes the room and returns it; a
-- rejected request returns its reason; a loop over the seats is a recursion over their list. An index
-- that is -1 for "none" is an Option. A text that is only shown is a value of the type Notice or
-- ActionText. Stacks, bets, pots and counters are numbers without an upper bound: nothing in the code
-- bounds the chips of a table, and their sums do not wrap around in the model, so what the theorems
-- say of them holds of the code while they stay within an `int`. The sum of a raise, a pledged rebuy
-- and a buy-in are the 32-bit `int`s of the code. Undefined overflow is read as wrapping around.
--
-- `request_turn` and `proceed_to_next_street` recurse through each other; the model gives them fuel 5,
-- which is enough since each round goes on to a later street and there are four of them.
--
-- Parameters of the model, in Env: the connected clients, the clock, the shuffle of a deck, and the
-- names of accounts. A draw of the machine, the tokens of `next_token` and the codes of
-- `next_room_code` are arguments of their steps. Base64, SHA-256 and the password records work on
-- bytes; the loop that fills up a block of SHA-256 has fuel 63, which is enough as at most 63 zeros are
-- missing, and the loops of base64 have fuel 2 and 3 for the same reason.
--
-- Not modelled: the transport (sockets, HTTP, protobuf), the databases and snapshot files, the HTTP
-- routes with tournaments, rewards and the inventory, and the front ends. The takeover timers are left
-- out, since no code calls `schedule_ai_takeover`, and `prune_departed_seats` without what it writes
-- into gameplay sessions, as well as what is noted in the sessions for the last event of a room that
-- goes. Of what is sent to clients, the event log of the rooms and the replies of
-- the handlers are modelled, not their delivery.

pub mod Prelude
pub mod Text
pub mod Engine
pub mod Table
pub mod Stores
pub mod Encoding
pub mod Server
mod Tests
