-- ===== src/Gateway/Delegation/Gates.antt =====
-- packages/gateway/src/delegation-manager.ts: the breaker's gate and the time that a node gets.
use templar.Prelude.{ℕ, ◌≤◌, ◌≡◌, arith}
use templar.Gateway.Breaker.{CircuitBreaker, derive_state, is_open, allows_probe, probe_in}
use templar.Gateway.Delegation.{DelegationManagerConfig, DelegationRequest, blocks, node_budget}

-- The gate in front of a node blocks exactly while its breaker is open, and leaves the breaker as it is:
-- it never takes the probe of a half-open breaker, so that a half-open breaker lets all requests pass.
pub blocks-is_open :
    (b : CircuitBreaker) (now : ℕ) → ((blocks b now).1 ≡ is_open b now) × ((blocks b now).0 ≡ b)
unfolding blocks is_open allows_probe probe_in derive_state
blocks-is_open b now = ground arith

-- If at least the minimum remains, a node gets no more than what remains and no less than the minimum,
-- whatever the number of fallback nodes.
pub node_budget-bounds :
    (config : DelegationManagerConfig) (request : DelegationRequest) (remaining : ℕ)
    → config.min_node_timeout_ms ≤ remaining
    → (node_budget config request remaining ≤ remaining)
      × (config.min_node_timeout_ms ≤ node_budget config request remaining)
unfolding node_budget
node_budget-bounds config request remaining h = ground arith
