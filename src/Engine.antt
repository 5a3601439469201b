-- ===== src/Engine.antt =====
-- The pure poker rules of backend-cpp/src/engine.
pub mod Cards
pub mod RoundPhase
pub mod Pots
pub mod Evaluator
