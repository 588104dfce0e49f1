-- ===== src/Http/Throttle.antt =====
-- `EndpointThrottle` of utils/http.py: the pacing state of one endpoint family. A reading of a clock
-- is an argument. Proofs are in the modules below.
pub mod Bounds
pub mod Calls
pub mod Deadline
pub mod Window
use openhound_okta.Base.{
  ℕ, ◌+◌, ◌-◌, ◌/◌, min, max, Bool, true, false, Option, none, some, String, leb, ltb, ◌==◌, nat_eq,
  if◌then◌else◌, ◌&&◌,
}
use openhound_okta.Base.Int.{ℤ, at_most, excess, min_ℤ}
use openhound_okta.Base.Results.{Result, ok, err}
use openhound_okta.Http.Time.{
  second, default_request_interval, probe_interval_seconds, WaitReason, proactive_pacing,
  retry_backoff,
}

pub record Throttle : Type 0 where
  pub remaining_reserve : ℕ
  pub max_cooldown : ℕ
  pub next_allowed_at : ℕ
  pub request_interval : ℕ
  pub probe_interval : ℕ
  pub observed_reset_at : Option ℕ
  pub observed_remaining : Option ℤ
  pub next_allowed_reason : WaitReason
  pub active_http_requests : ℕ

-- `__init__`, less the semaphore, which `Http.Admission` counts.
unfoldable pub init : ℤ → ℤ → ℤ → Result String Throttle
init max_concurrency remaining_reserve max_cooldown =
    if at_most max_concurrency 0
    then err "max_concurrency must be at least 1"
    else elim remaining_reserve [
      | ℤ.negsuc _ ↦ err "remaining_reserve cannot be negative"
      | ℤ.pos reserve ↦
          if at_most max_cooldown 0
          then err "max_cooldown_seconds must be positive"
          else ok (record {
            remaining_reserve = reserve;
            max_cooldown = excess max_cooldown 0;
            next_allowed_at = 0;
            request_interval = default_request_interval;
            probe_interval = 0;
            observed_reset_at = none;
            observed_remaining = none;
            next_allowed_reason = proactive_pacing;
            active_http_requests = 0;
          })
    ]

unfoldable pub begin_http_request : Throttle → Throttle
begin_http_request t = record t { active_http_requests = t.active_http_requests + 1 }

-- Every call follows its own `begin_http_request`, so the count is positive.
unfoldable pub end_http_request : Throttle → Throttle
end_http_request t = record t { active_http_requests = t.active_http_requests - 1 }

-- `_try_book`, with the answer of the org throttle.
unfoldable pub try_book : ℕ → Bool → Throttle → Bool × Throttle
try_book now org_allows t =
    if org_allows && leb t.next_allowed_at now
    then (
      true,
      record t {
        next_allowed_at = now + max t.request_interval t.probe_interval;
        next_allowed_reason = proactive_pacing;
      },
    )
    else (false, t)

-- Moves the deadline forward, never back.
unfoldable pub push_deadline : ℕ → WaitReason → Throttle → Throttle
push_deadline deadline reason t =
    if ltb t.next_allowed_at deadline
    then record t { next_allowed_at = deadline; next_allowed_reason = reason }
    else t

unfoldable pub defer : ℕ → ℕ → ℕ → Throttle → ℕ × Throttle
unfolding push_deadline
defer now delay minimum_interval t =
    if delay == 0
    then (0, t)
    else (let capped = min delay t.max_cooldown in
        let pushed = push_deadline (now + capped) retry_backoff t in
        (capped, record pushed { probe_interval = max pushed.probe_interval minimum_interval }))

-- The window that the headers describe, joined to the newest window seen so far. `none` is a
-- response from a window older than that.
unfoldable pub join_window : ℤ → ℕ → Throttle → Option Throttle
join_window remaining reset_at t = elim t.observed_reset_at [
  | none ↦
      some (record t { observed_reset_at = some reset_at; observed_remaining = some remaining })
  | some seen ↦
      if ltb seen reset_at
      then some
          (record t { observed_reset_at = some reset_at; observed_remaining = some remaining })
      else if reset_at == seen
      then some (record t {
        observed_remaining =
            some
              (elim t.observed_remaining [ none ↦ remaining | some least ↦ min_ℤ remaining least ]);
      })
      else none
]

-- `now + min(seconds_to_reset + 1.0, max_cooldown)`. The sum may be negative, and a deadline before
-- 0 is as far in the past as 0.
unfoldable pub reset_deadline : ℕ → ℕ → ℕ → ℕ → ℕ
reset_deadline wall now reset_at cap =
    if leb wall (reset_at + second)
    then now + min (reset_at + second - wall) cap
    else now - (wall - (reset_at + second))

-- The pacing that follows from a window. `reserve` holds back the requests in flight.
unfoldable pub pace : ℕ → ℕ → ℤ → ℕ → Throttle → Throttle
unfolding push_deadline reset_deadline
pace wall now remaining reset_at t =
    let reserve = t.remaining_reserve + t.active_http_requests in
    if at_most remaining reserve
    then (let held =
          push_deadline (reset_deadline wall now reset_at t.max_cooldown) proactive_pacing t in
        record held {
          probe_interval = probe_interval_seconds;
          request_interval = default_request_interval;
        })
    else (let interval =
          (if leb reset_at wall
            then default_request_interval
            else min (reset_at - wall) t.max_cooldown / excess remaining reserve) in
        push_deadline (now + interval) proactive_pacing
          (record t { request_interval = interval; probe_interval = 0 }))

pub record RateHeaders : Type 0 where
  -- `X-Rate-Limit-Remaining` and `X-Rate-Limit-Reset`
  pub remaining : Option String
  pub reset : Option String

-- `int(s.strip())` and `float(s.strip())` of Python, `none` where they raise `ValueError`.
pub record Parsers : Type 0 where
  pub int : String → Option ℤ
  pub float : String → Option ℕ

-- What the headers say: not both there, not both numbers, or a window.
pub data Reading : Type 0 where
  absent malformed : Reading
  window : ℤ → ℕ → Reading

unfoldable pub read_headers : Parsers → RateHeaders → Reading
read_headers parse h = elim h.remaining [
  | none ↦ absent
  | some remaining ↦ elim h.reset [
    | none ↦ absent
    | some reset ↦ elim (parse.int remaining) [
      | none ↦ malformed
      | some left ↦ elim (parse.float reset) [ none ↦ malformed | some at ↦ window left at ]
    ]
  ]
]

-- The window that pacing goes by is the joined one.
unfoldable pub pace_window : ℕ → ℕ → Throttle → Throttle
unfolding pace
pace_window wall now t = elim t.observed_remaining [
  | none ↦ t
  | some remaining ↦ elim t.observed_reset_at [
    | none ↦ t
    | some reset_at ↦ pace wall now remaining reset_at t
  ]
]

unfoldable pub observe : ℕ → ℕ → Reading → Throttle → Throttle
unfolding join_window pace_window
observe wall now absent t = record t { probe_interval = 0 }
observe wall now malformed t = t
observe wall now (window remaining reset_at) t = elim (join_window remaining reset_at t) [
  | none ↦ t
  | some joined ↦ pace_window wall now joined
]

unfoldable pub observe_response : Parsers → ℕ → ℕ → RateHeaders → Throttle → Throttle
unfolding observe read_headers
observe_response parse wall now h t = observe wall now (read_headers parse h) t
