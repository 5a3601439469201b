-- ===== src/Table.antt =====
-- The table of one room: backend-cpp/src/main.cpp, the hand logic of `PokerServer`.
pub mod State
pub mod Events
pub mod Seats
pub mod Betting
pub mod Deal
pub mod Settle
pub mod Turn
pub mod Action
pub mod Match
pub mod Hand
pub mod Serving
pub mod Lobby
pub mod Rebuys
pub mod Requests
pub mod Frame
pub mod Chips
