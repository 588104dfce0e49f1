-- ===== src/Http/Time.antt =====
-- Times and delays of utils/http.py as whole microseconds, and the constants at the top of the
-- module. Python's floats are rounded to microseconds, and a quotient is rounded down.
use openhound_okta.Base.{ℕ, ◌*◌, ◌/◌}

abbrev pub second : ℕ
second = 1000000

abbrev pub default_endpoint_concurrency : ℕ
default_endpoint_concurrency = 32

abbrev pub default_org_concurrency : ℕ
default_org_concurrency = 32

abbrev pub default_rate_limit_max_elapsed : ℕ
default_rate_limit_max_elapsed = 900 * second

abbrev pub default_remaining_reserve : ℕ
default_remaining_reserve = 1

abbrev pub default_max_cooldown : ℕ
default_max_cooldown = 300 * second

abbrev pub probe_interval_seconds : ℕ
probe_interval_seconds = 1 * second

abbrev pub default_requests_per_minute : ℕ
default_requests_per_minute = 50

-- `60.0 / DEFAULT_REQUESTS_PER_MINUTE`
abbrev pub default_request_interval : ℕ
default_request_interval = 60 * second / default_requests_per_minute

-- Why the next request must wait.
pub data WaitReason : Type 0 where
  proactive_pacing retry_backoff : WaitReason
