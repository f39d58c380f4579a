-- ===== src/Gateway/RateLimiter/Limit.antt =====
-- How many messages packages/gateway/src/utils/rate-limiter.ts lets through.
use Prim.Native.Nat.{min, max}
use native.Mathlib.Nat.{add-zero}
use templar.Prelude.{
  ℕ, zero, suc, ◌+◌, ◌-◌, ◌≤◌, ◌<◌, ◌≡◌, refl, ap, ◌∙◌, none, some, List, [], ◌∷◌, ◌++◌, map,
  String, arith, eq_refl, length, replicate, All,
}
use templar.Prelude.Maps.{lookup}
use templar.Gateway.RateLimiter.{RateLimiter, init, decide, run}
use templar.Gateway.RateLimiter.Isolation.{run_alone, run-alone, times_of, answers_to, allowed}

-- In an open window the calls are let through until the count reaches the limit.
add_one_suc : (c k : ℕ) → (c + 1) + k ≡ c + suc k
add_one_suc c k = omega arith

burst :
    (m c s : ℕ) (times : List ℕ)
    → All (λ t. t < s + 1000) times
    → allowed (run_alone m (some (record { count = c; window_start = s })) times)
      ≡ min (length times) (m - c)
unfolding run_alone decide
burst m c s [] h = omega arith
burst m c s (t ∷ times) h = ground (arith, burst m c s times h.1, burst m (c + 1) s times h.1)

-- Of the calls of a connection that has no window yet, all less than 1000 ms after the first,
-- exactly the first `max_per_second` are let through (one, if that is 0), whatever other
-- connections do meanwhile.
pub window_limit :
    (l : RateLimiter) (id : String) (calls : List (ℕ × String)) (t : ℕ) (times : List ℕ)
    → lookup id l.windows ≡ none
    → times_of id calls ≡ t ∷ times
    → All (λ t'. t' < t + 1000) times
    → allowed (answers_to id (run l calls)) ≡ min (length (t ∷ times)) (max 1 l.max_per_second)
unfolding run_alone decide
window_limit l id calls t times fresh e h =
    rw (run-alone id calls l, fresh, e) (omega (arith, burst l.max_per_second 1 t times h))

times_of-map : (times : List ℕ) (id : String) → times_of id (map (λ t. (t, id)) times) ≡ times
times_of-map [] id = refl
times_of-map (t ∷ times) id = rw (eq_refl id, times_of-map times id)

-- Calls at one moment of an open window that has room for them all.
spend :
    (m c s k t : ℕ) (times : List ℕ)
    → t < s + 1000
    → c + k ≤ m
    → allowed (run_alone m (some (record { count = c; window_start = s })) (replicate k t ++ times))
      ≡ k + allowed (run_alone m (some (record { count = c + k; window_start = s })) times)
unfolding run_alone decide
spend m c s zero t times ht hk = omega (
  arith,
  ap (λ d. allowed (run_alone m (some (record { count = d; window_start = s })) times))
      (add-zero c),
)
spend m c s (suc k) t times ht hk = ground (
  arith,
  spend m (c + 1) s k t times ht,
  ap (λ d. allowed (run_alone m (some (record { count = d; window_start = s })) times))
      (add_one_suc c k),
)

-- `n + 1` calls at the end of a window and as many at the start of the next.
abbrev pub two_bursts : ℕ → List ℕ
two_bursts n = 0 ∷ (replicate n 999 ++ 1000 ∷ (replicate n 1000 ++ []))

two_bursts_alone : (n : ℕ) → allowed (run_alone (n + 1) none (two_bursts n)) ≡ (n + 1) + (n + 1)
unfolding run_alone decide
two_bursts_alone n = ground (
  arith,
  spend (n + 1) 1 0 n 999 (1000 ∷ (replicate n 1000 ++ [])) (omega arith) (omega arith),
  spend (n + 1) 1 1000 n 1000 [] (omega arith) (omega arith),
)

-- The window is fixed, not sliding: under a limit of `n + 1` messages per second, a call at 0, `n`
-- calls at 999 and `n + 1` calls at 1000 are all let through, `2 * n + 1` of them within 2 ms.
pub fixed_window :
    (n : ℕ) (id : String)
    → allowed (answers_to id (run (init (n + 1)) (map (λ t. (t, id)) (two_bursts n))))
      ≡ (n + 1) + (n + 1)
unfolding lookup
fixed_window n id = rw (run-alone id (map (λ t. (t, id)) (two_bursts n)) (init (n + 1))) (
    ap (λ times. allowed (run_alone (n + 1) none times)) (times_of-map (two_bursts n) id)
    ∙ two_bursts_alone n)
