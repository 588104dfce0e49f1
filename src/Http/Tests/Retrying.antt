-- ===== src/Http/Tests/Retrying.antt =====
-- Requests that are limited, refused, refreshed and given up.
use openhound_okta.Base.{
  ℕ, zero, suc, ◌*◌, ◌≤◌, ◌≡◌, refl, Bool, true, false, ◌&&◌, ◌||◌, none, some, [], ◌∷◌, arith, leb,
  ltb, ◌==◌, nat_eq, string_eq, if◌then◌else◌,
}
use openhound_okta.Http.Time.{second, default_max_cooldown}
use openhound_okta.Http.Delay.{Formats, RetryHeaders, DelaySettings}
use openhound_okta.Http.Retry.{
  Attempt, responded, responded_but, unauthorized_raises, delay_raises, acquire, send, release,
  raised, Statuses, Settings, Result, returned, refused, send_request, read_timeout_max_attempts,
}
use openhound_okta.Http.Retry.Permits.{
  HandlerReturns, idle, sent, replay, is_returned, send_request_orderly,
}
use openhound_okta.Http.Retry.Termination.{send_request_total}
use openhound_okta.Http.Retry.Outcomes.{sends, IsSound, send_request-IsSound}
use openhound_okta.Http.Retry.Outages.{StaysDown}
use openhound_okta.Http.Retry.Refresh.{refreshes, refreshes_once}

-- `raise_for_status` raises from 400 to 599; 429 and 5xx are retried.
abbrev statuses : Statuses
statuses = record {
  is_error = λ c. leb 400 c && ltb c 600;
  is_retryable = λ c. (c == 429) || (leb 500 c && ltb c 600);
}

-- Headers of digits that mean 7 seconds.
abbrev formats : Formats
formats = record { digits = λ s. if s == "7" then some (7 * second) else none; date = λ s. none }

abbrev delays : DelaySettings
delays = record { backoff_factor = second; max_retry_delay = 60 * second }

abbrev settings : Settings
settings = record {
  statuses = statuses;
  formats = formats;
  delays = delays;
  max_attempts = 3;
  rate_limit_max_elapsed = 20;
  family_cap = default_max_cooldown;
  outage_cap = default_max_cooldown;
  budget = none;
}

abbrev bare : RetryHeaders
bare = record { retry_after = none; reset = none }

abbrev seven : RetryHeaders
seven = record { retry_after = some "7"; reset = none }

abbrev answer : ℕ → ℕ → Bool → Attempt
answer status n refreshes = record {
  outcome = responded status bare;
  elapsed = n;
  clock = 0;
  jitter = 0;
  refreshes = refreshes;
}

-- A server that is down for good.
abbrev down : ℕ → Attempt
down n = answer 503 n false

-- 401 once, then 200.
abbrev expired_once : ℕ → Attempt
expired_once zero = answer 401 0 true
expired_once (suc n) = answer 200 (suc n) true

handlers_return : (n : ℕ) → HandlerReturns (expired_once n).outcome
handlers_return zero = tt
handlers_return (suc n) = tt

refreshed : (send_request settings 2 expired_once).1 ≡ some (returned 200)
unfolding send_request nat_eq
refreshed = refl

always_401 : (send_request settings 3 (λ n. answer 401 n true)).1 ≡ some (refused 401)
unfolding send_request nat_eq
always_401 = refl

send_request_orderly_example :
    is_returned (replay idle (send_request settings 2 expired_once).0) ≡ true
send_request_orderly_example = send_request_orderly settings 2 expired_once handlers_return

-- An unauthorized handler that raises ends the request with the slot taken.
abbrev handler_raises : ℕ → Attempt
handler_raises n = record (answer 401 n true) {
  outcome = responded_but unauthorized_raises 401 bare;
}

slot_is_kept : replay idle (send_request settings 1 handler_raises).0 ≡ sent
unfolding send_request nat_eq
slot_is_kept = refl

-- A delay that cannot be computed ends it with the slot returned.
slot_is_returned :
    (send_request settings 1
      (λ n. record (answer 503 n true) { outcome = responded_but delay_raises 503 bare }))
    ≡ (acquire ∷ send ∷ release ∷ [], some raised)
unfolding send_request nat_eq
slot_is_returned = refl

down_advances : (n : ℕ) → n ≤ (down n).elapsed
down_advances n = omega arith

send_request_total_example : (r : Result) × ((send_request settings 100 down).1 ≡ some r)
unfolding read_timeout_max_attempts
send_request_total_example = send_request_total settings down 100 down_advances (omega arith)

send_request-IsSound_example :
    IsSound settings (sends (send_request settings 2 expired_once).0) (returned 200)
send_request-IsSound_example = send_request-IsSound settings 2 expired_once (returned 200) refreshed

stays_down : StaysDown settings down
stays_down = record {
  status = λ n. 503;
  headers = λ n. bare;
  outcome = λ n. refl;
  outage = λ n. record {
    error = refl;
    retryable = ground arith;
    not_unauthorized = omega arith;
    not_limited = omega arith;
  };
}

refreshes_once_example : refreshes (send_request settings 3 (λ n. answer 401 n true)).0 ≤ 1
refreshes_once_example = refreshes_once settings 3 (λ n. answer 401 n true)
