-- ===== src/Gateway/RateLimiter/Tests.antt =====
-- Runs of packages/gateway/src/utils/rate-limiter.ts.
use templar.Prelude.{ℕ, ◌≡◌, refl, List, [], ◌∷◌, String, arith}
use templar.Prelude.Maps.{lookup}
use templar.Gateway.RateLimiter.{RateLimiter, init, run}
use templar.Gateway.RateLimiter.Isolation.{answers_to, allowed}
use templar.Gateway.RateLimiter.Limit.{window_limit}

-- Two a second.
abbrev two : RateLimiter
two = init 2

abbrev calls : List (ℕ × String)
calls = (0, "a") ∷ (10, "b") ∷ (20, "a") ∷ (30, "a") ∷ (40, "b") ∷ (50, "a") ∷ []

window_limit_example : allowed (answers_to "a" (run two calls)) ≡ 2
unfolding lookup
window_limit_example = window_limit two "a" calls 0 (20 ∷ 30 ∷ 50 ∷ []) refl refl (omega arith)
