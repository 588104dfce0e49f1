-- ===== src/Http/Retry/Outages.antt =====
-- A server that stays down is given up after exactly `max_attempts` attempts.
use openhound_okta.Base.{ℕ, ◌≡◌, ◌≢◌, true}
use openhound_okta.Http.Delay.{RetryHeaders}
use openhound_okta.Http.Retry.{Attempt, responded, Settings}

-- A status that is retried as an outage.
pub record IsOutage (s : Settings) (status : ℕ) : Type 0 where
  pub error : s.statuses.is_error status ≡ true
  pub retryable : s.statuses.is_retryable status ≡ true
  pub not_unauthorized : status ≢ 401
  pub not_limited : status ≢ 429

-- Every attempt is answered with an outage status.
pub record StaysDown (s : Settings) (env : ℕ → Attempt) : Type 0 where
  pub status : ℕ → ℕ
  pub headers : ℕ → RetryHeaders
  pub outcome : (n : ℕ) → (env n).outcome ≡ responded (status n) (headers n)
  pub outage : (n : ℕ) → IsOutage s (status n)
