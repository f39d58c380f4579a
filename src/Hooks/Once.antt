-- ===== src/Hooks/Once.antt =====
-- packages/hooks/src/registry.ts: which entry `cleanupOnceEntries` removes.
