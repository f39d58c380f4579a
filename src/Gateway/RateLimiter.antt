-- ===== src/Gateway/RateLimiter.antt =====
-- packages/gateway/src/utils/rate-limiter.ts. The clock is an argument of each call; the difference
-- `now - windowStart >= 1000` is compared as a sum, so that it has no sign.
pub mod Isolation
pub mod Limit
mod Tests
use templar.Prelude.{
  ℕ, ◌+◌, Bool, true, false, Option, none, some, List, [], ◌∷◌, String, leb, if◌then◌else◌,
}
use templar.Prelude.Maps.{Map, lookup, insert, erase}

pub record Window : Type 0 where
  pub count : ℕ
  pub window_start : ℕ

pub record RateLimiter : Type 0 where
  pub max_per_second : ℕ
  pub windows : Map Window

abbrev pub init : ℕ → RateLimiter
init max_per_second = record { max_per_second = max_per_second; windows = [] }

-- What `allow` decides for the window it finds: the window to store, if any, and the answer.
pub decide : ℕ → ℕ → Option Window → Option Window × Bool
decide max_per_second now none = (some (record { count = 1; window_start = now }), true)
decide max_per_second now (some w) =
    if leb (w.window_start + 1000) now
    then (some (record { count = 1; window_start = now }), true)
    else if leb max_per_second w.count
    then (none, false)
    else (some (record w { count = w.count + 1 }), true)

pub store : RateLimiter → String → Option Window × Bool → RateLimiter × Bool
store l id (none, b) = (l, b)
store l id (some w, b) = (record l { windows = insert id w l.windows }, b)

pub allow : RateLimiter → ℕ → String → RateLimiter × Bool
unfolding decide store
allow l now id = store l id (decide l.max_per_second now (lookup id l.windows))

pub remove : RateLimiter → String → RateLimiter
remove l id = record l { windows = erase id l.windows }

pub clear : RateLimiter → RateLimiter
clear l = record l { windows = [] }

-- The answers to a sequence of calls, each with its time and connection.
pub run : RateLimiter → List (ℕ × String) → List (String × Bool)
run l [] = []
run l ((now, id) ∷ calls) = let (l', b) = allow l now id in (id, b) ∷ run l' calls
