-- ===== src/ModelRouter.antt =====
-- packages/model-router/src: the choice of a provider for a model.
pub mod Breaker
