-- ===== src/RateLimit.antt =====
-- The fixed-window rate limiter (services/backend/src/backend/adapters/rate_limit/memory.py).
-- The clock counts `ticks` to the second, so that the code's float is a number of ticks.
pub mod Window
use ml_service.Prelude.{
  ℕ, ◌+◌, ◌-◌, ◌*◌, ◌/◌, ◌%◌, max, Bool, true, false, Option, none, some, List, [], ◌∷◌, ltb, ◌==◌,
  Dict, lookup, insert, if◌then◌else◌,
}

pub record RateLimitResult : Type 0 where
  pub allowed : Bool
  pub retry_after_s : ℕ

-- The count of an entry: 0 for a key without one, or one of another window.
abbrev pub count_in : ℕ → Option (ℕ × ℕ) → ℕ
count_in window none = 0
count_in window (some (w, count)) = if w == window then count else 0

abbrev pub verdict : ℕ → ℕ → ℕ → RateLimitResult
verdict limit count retry_after =
    if ltb limit count
    then record { allowed = false; retry_after_s = max 1 retry_after }
    else record { allowed = true; retry_after_s = 0 }

-- The count is written before it is compared with the limit.
unfoldable pub acquire : ℕ → ℕ → ℕ → ℕ → ℕ → Dict (ℕ × ℕ) → RateLimitResult × Dict (ℕ × ℕ)
acquire ticks limit window_s now key buckets =
    let window = now / (ticks * window_s) in
    let count = count_in window (lookup key buckets) + 1 in
    let retry_after = window_s - now % (ticks * window_s) / ticks in
    (verdict limit count retry_after, insert key (window, count) buckets)
