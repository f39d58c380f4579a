-- ===== src/Pairing.antt =====
-- packages/pairing/src: access to direct messages by pairing codes.
pub mod Types
pub mod Guard
