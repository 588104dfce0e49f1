-- ===== src/Http/Delay.antt =====
-- `_retry_delay`, `_clamp_retry_delay` and `_parse_retry_after` of utils/http.py.
use openhound_okta.Base.{
  ℕ, ◌+◌, ◌-◌, ◌*◌, ◌^◌, ◌≤◌, min, max, ◌≡◌, false, Option, none, some, String, arith, ◌==◌,
  string_eq, if◌then◌else◌,
}
use openhound_okta.Http.Time.{second}

-- What Python's library reads from a header: a text of digits as a time, and a date as a timestamp.
-- `none` where `isdigit` is false, and where `parsedate_to_datetime` raises.
pub record Formats : Type 0 where
  pub digits : String → Option ℕ
  pub date : String → Option ℕ

pub record RetryHeaders : Type 0 where
  -- `Retry-After` and `X-Rate-Limit-Reset`
  pub retry_after : Option String
  pub reset : Option String

pub record DelaySettings : Type 0 where
  pub backoff_factor : ℕ
  pub max_retry_delay : ℕ

module _ (f : Formats) where
  unfoldable pub parse_retry_after : String → ℕ → Option ℕ
  parse_retry_after retry_after clock = elim (f.digits retry_after) [
    | some seconds ↦ some (max seconds second)
    | none ↦ elim (f.date retry_after) [
      | some retry_at ↦ some (max (retry_at - clock) second)
      | none ↦ none
    ]
  ]

  unfoldable pub clamp_retry_delay : DelaySettings → ℕ → ℕ
  clamp_retry_delay s delay = min delay s.max_retry_delay

  -- `base_delay` and the jitter
  unfoldable pub backoff : DelaySettings → ℕ → ℕ → ℕ
  unfolding clamp_retry_delay
  backoff s attempt jitter = clamp_retry_delay s (s.backoff_factor * 2 ^ (attempt - 1) + jitter)

  -- The `X-Rate-Limit-Reset` header, or else the backoff.
  unfoldable pub from_reset : DelaySettings → RetryHeaders → ℕ → ℕ → ℕ → ℕ
  unfolding backoff
  from_reset s h attempt clock jitter = elim h.reset [
    | none ↦ backoff s attempt jitter
    | some reset ↦ elim (f.digits reset) [
      | none ↦ backoff s attempt jitter
      | some at ↦ clamp_retry_delay s (max (at + second - clock) second + jitter)
    ]
  ]

  -- The `Retry-After` header, or else the other two. An empty header counts as none.
  unfoldable pub from_retry_after : DelaySettings → RetryHeaders → ℕ → ℕ → ℕ → ℕ
  unfolding parse_retry_after from_reset
  from_retry_after s h attempt clock jitter = elim h.retry_after [
    | none ↦ from_reset s h attempt clock jitter
    | some retry_after ↦
        if retry_after == ""
        then from_reset s h attempt clock jitter
        else elim (parse_retry_after retry_after clock) [
          | none ↦ from_reset s h attempt clock jitter
          | some parsed ↦ clamp_retry_delay s (parsed + jitter)
        ]
  ]

  unfoldable pub retry_delay : DelaySettings → Option RetryHeaders → ℕ → ℕ → ℕ → ℕ
  unfolding from_retry_after
  retry_delay s none attempt clock jitter = backoff s attempt jitter
  retry_delay s (some h) attempt clock jitter = from_retry_after s h attempt clock jitter

  -- No pause is longer than `max_retry_delay_seconds`, whatever the headers say.
  pub retry_delay-le :
      (s : DelaySettings) (h : Option RetryHeaders) (attempt clock jitter : ℕ)
      → retry_delay s h attempt clock jitter ≤ s.max_retry_delay
  unfolding retry_delay
  retry_delay-le s none attempt clock jitter = ground arith
  retry_delay-le s (some h) attempt clock jitter = ground arith

  -- A `Retry-After` that can be read is obeyed: the pause is at least that long and at least a second,
  -- up to `max_retry_delay_seconds`, and passes it by the jitter at most.
  pub retry_after_obeyed :
      (s : DelaySettings) (h : RetryHeaders) (attempt clock jitter : ℕ) (text : String) (parsed : ℕ)
      → h.retry_after ≡ some text
      → (text == "") ≡ false
      → parse_retry_after text clock ≡ some parsed
      → (second ≤ parsed)
        × (min parsed s.max_retry_delay ≤ retry_delay s (some h) attempt clock jitter)
        × (retry_delay s (some h) attempt clock jitter ≤ parsed + jitter)
  unfolding retry_delay
  retry_after_obeyed s h attempt clock jitter text parsed e ne p = ground arith
