-- ===== src/ChatApi/RateLimit.antt =====
-- chat-api/ratelimit.go: a limiter of requests for each address. Times are in nanoseconds; the lock
-- makes each call one step.
pub mod Window
pub mod Fairness
use beacon_v.Prelude.{
  ℕ, ◌+◌, String, Bool, true, false, Option, none, some, List, [], ◌∷◌, ◌++◌, ◌==◌, ltb, leb,
  length, keep, if◌then◌else◌,
}

-- A missing key holds no times.
abbrev pub Requests : Type 0
Requests = String → List ℕ

pub record RateLimiter : Type 0 where
  pub window : ℕ
  pub limit : ℕ
  pub requests : Requests

abbrev pub new_rate_limiter : ℕ → ℕ → RateLimiter
new_rate_limiter limit window = record { window = window; limit = limit; requests = λ _. [] }

abbrev pub assign : Requests → String → List ℕ → Requests
assign requests ip times other = if other == ip then times else requests other

-- `t.After(now.Add(-window))`.
abbrev pub is_recent : ℕ → ℕ → ℕ → Bool
is_recent window now t = ltb now (t + window)

unfoldable pub recent : RateLimiter → String → ℕ → List ℕ
recent rl ip now = keep (is_recent rl.window now) (rl.requests ip)

-- The answer, and the limiter after the call.
unfoldable pub allow : RateLimiter → String → ℕ → Bool × RateLimiter
unfolding recent
allow rl ip now =
    let times = recent rl ip now in
    if leb rl.limit (length times)
    then (false, record rl { requests = assign rl.requests ip times })
    else (true, record rl { requests = assign rl.requests ip (times ++ now ∷ []) })
