-- ===== src/Http/Retry/Termination.antt =====
-- `_send_request` ends: every retry uses up a part of a budget.
use openhound_okta.Base.{
  ℕ, zero, suc, ◌+◌, ◌-◌, ◌≤◌, ◌<◌, ◌≡◌, refl, some, List, arith, if◌then◌else◌,
}
use openhound_okta.Http.Retry.{
  Attempt, Settings, Action, Result, Loop, Verdict, again, done, start, round, rounds, follow,
  send_request, read_timeout_max_attempts,
}

-- The clock passes at least a microsecond from one attempt to the next.
abbrev pub Advances : (ℕ → Attempt) → Type 0
Advances env = (n : ℕ) → n ≤ (env n).elapsed

-- What is left: attempts within the elapsed budget of rate limits, transient failures, read timeouts,
-- and the one refresh of the token.
abbrev pub fuel_of : Settings → Loop → ℕ
fuel_of s l =
    (s.rate_limit_max_elapsed - l.attempt)
    + (s.max_attempts - l.transient_attempt)
    + (read_timeout_max_attempts s - l.read_timeout_attempt)
    + (if l.unauthorized_retry_attempted then 0 else 1)

abbrev Falls : Settings → Loop → List Action × Verdict → Type 0
Falls s l (acts, done r) = Unit
Falls s l (acts, again next) = (fuel_of s next < fuel_of s l) × (next.attempt ≡ suc l.attempt)

module _ (s : Settings) where
  round-Falls : (l : Loop) (a : Attempt) → l.attempt ≤ a.elapsed → Falls s l (round s l a)
  unfolding round
  round-Falls l a late = ground arith

  follow_total :
      (fuel : ℕ) (env : ℕ → Attempt) (l : Loop) (p : List Action × Verdict)
      → fuel_of s l < suc fuel
      → Falls s l p
      → ((next : Loop)
          → fuel_of s next < fuel
          → (r : Result) × ((rounds s fuel env next).1 ≡ some r))
      → (r : Result) × ((follow p (rounds s fuel env)).1 ≡ some r)
  unfolding follow
  follow_total fuel env l (acts, done r) h falls ih = (r, refl)
  follow_total fuel env l (acts, again next) h falls ih = ih next (omega arith)

  -- Enough fuel, from any state of the loop that the clock is not behind.
  rounds_total :
      (fuel : ℕ) (env : ℕ → Attempt) (l : Loop)
      → Advances env
      → fuel_of s l < fuel
      → (r : Result) × ((rounds s fuel env l).1 ≡ some r)
  unfolding rounds
  rounds_total zero env l adv h = absurd (omega arith)
  rounds_total (suc fuel) env l adv h =
      follow_total fuel env l (round s l (env l.attempt)) h
        (round-Falls l (env l.attempt) (adv l.attempt))
        (λ next fits. rounds_total fuel env next adv fits)

  -- Where the clock passes at least a microsecond between two attempts, every request ends, in an
  -- answer, a refusal or an error. It takes at most one round more than the sum of four budgets: the
  -- attempts allowed, the read timeouts allowed, the one refresh of the token, and the microseconds
  -- that rate limits may take.
  pub send_request_total :
      (env : ℕ → Attempt) (fuel : ℕ)
      → Advances env
      → fuel_of s start < fuel
      → (r : Result) × ((send_request s fuel env).1 ≡ some r)
  unfolding send_request
  send_request_total env fuel adv h = rounds_total fuel env start adv h
