-- ===== src/Gateway/RateLimiter/Isolation.antt =====
-- Connections do not share a limit in packages/gateway/src/utils/rate-limiter.ts.
use templar.Prelude.{
  ℕ, ◌≡◌, refl, Bool, Bool-cases, Option, none, some, List, [], ◌∷◌, String, inl, inr, arith,
  if◌then◌else◌, str_eq, eq_iff, length, keep,
}
use templar.Prelude.Maps.{lookup, lookup-insert}
use templar.Gateway.RateLimiter.{RateLimiter, Window, decide, store, allow, run}

abbrev pub kept : Option Window → Option Window → Option Window
kept w none = w
kept w (some w') = some w'

-- The answers that one connection gets by itself, from its window and the times of its calls.
unfoldable pub run_alone : ℕ → Option Window → List ℕ → List Bool
run_alone max_per_second w [] = []
run_alone max_per_second w (now ∷ times) =
    let (w', b) = decide max_per_second now w in b ∷ run_alone max_per_second (kept w w') times

abbrev pub times_of : String → List (ℕ × String) → List ℕ
times_of id [] = []
times_of id ((now, j) ∷ calls) = if str_eq j id then now ∷ times_of id calls else times_of id calls

abbrev pub answers_to : String → List (String × Bool) → List Bool
answers_to id [] = []
answers_to id ((j, b) ∷ l) = if str_eq j id then b ∷ answers_to id l else answers_to id l

-- How many messages of a connection are let through.
abbrev pub allowed : List Bool → ℕ
allowed l = length (keep (λ b. b) l)

lookup-store :
    (l : RateLimiter) (j id : String) (p : Option Window × Bool)
    → lookup id (store l j p).0.windows
      ≡ (if str_eq j id then kept (lookup id l.windows) p.0 else lookup id l.windows)
unfolding store
lookup-store l j id (none, b) = ground arith
lookup-store l j id (some w, b) = ground (arith, lookup-insert j id w l.windows)

store-answer : (l : RateLimiter) (j : String) (p : Option Window × Bool) → (store l j p).1 ≡ p.1
unfolding store
store-answer l j (none, b) = refl
store-answer l j (some w, b) = refl

store-max :
    (l : RateLimiter) (j : String) (p : Option Window × Bool)
    → (store l j p).0.max_per_second ≡ l.max_per_second
unfolding store
store-max l j (none, b) = refl
store-max l j (some w, b) = refl

-- Calls of other connections, wherever they fall between its own, change no answer that a
-- connection gets.
pub run-alone :
    (id : String) (calls : List (ℕ × String)) (l : RateLimiter)
    → answers_to id (run l calls)
      ≡ run_alone l.max_per_second (lookup id l.windows) (times_of id calls)
unfolding run run_alone allow
run-alone id [] l = refl
run-alone id ((now, j) ∷ calls) l =
    let p = decide l.max_per_second now (lookup j l.windows) in
    elim (Bool-cases (str_eq j id)) [
      | inl e ↦ ground (
        arith,
        eq_iff j id,
        lookup-store l j id p,
        store-answer l j p,
        store-max l j p,
        run-alone id calls (store l j p).0,
      )
      | inr e ↦
          ground (arith, lookup-store l j id p, store-max l j p, run-alone id calls (store l j p).0)
    ]
