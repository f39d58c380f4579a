-- ===== src/Pairing/Types.antt =====
-- packages/pairing/src/types.ts: what a pairing guard is configured with and keeps.
use templar.Prelude.{ℕ, Bool, true, ◌&&◌, List, [], String, leb, ltb}

pub record PairingConfig : Type 0 where
  pub enabled : Bool
  pub code_length : ℕ
  pub expiry_ms : ℕ
  pub max_attempts : ℕ
  pub max_pending_codes : ℕ
  pub channels : List String

pub record PendingCode : Type 0 where
  pub code : String
  pub formatted : String
  pub agent_id : String
  pub channel : String
  pub created_at : ℕ
  pub expires_at : ℕ

pub record PairedPeer : Type 0 where
  pub agent_id : String
  pub channel : String
  pub peer_id : String
  pub paired_at : ℕ

pub data PairingCheckResult : Type 0 where
  approved pending invalid_code expired_code rate_limited bypass : PairingCheckResult
  paired : PairedPeer → PairingCheckResult

pub record RateLimitEntry : Type 0 where
  pub attempts : ℕ
  pub window_start : ℕ

abbrev pub default_config : PairingConfig
default_config = record {
  enabled = true;
  code_length = 8;
  expiry_ms = 300000;
  max_attempts = 3;
  max_pending_codes = 1000;
  channels = [];
}

-- `validatePairingConfig`, as the test that it does not throw.
unfoldable pub is_valid_config : PairingConfig → Bool
is_valid_config c =
    leb 4 c.code_length
    && (ltb 0 c.expiry_ms && (ltb 0 c.max_attempts && ltb 0 c.max_pending_codes))
