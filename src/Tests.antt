-- ===== src/Tests.antt =====
-- Concrete tables, hands and stores, and the theorems applied to them.
mod Table
mod Engine
mod Rooms
mod Pots
mod Stores
mod Encoding
mod Server
