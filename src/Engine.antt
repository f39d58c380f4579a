-- ===== src/Engine.antt =====
-- packages/engine/src: the engine around the agents.
pub mod SpawnGuard
