-- ===== src/Http/Tests/Pacing.antt =====
-- Runs of one family's throttle, and the theorems about it at those runs.
use mathlib.Core.List.{foldl}
use openhound_okta.Base.{
  ◌+◌, ◌-◌, ◌*◌, ◌≤◌, min, max, ◌≡◌, refl, true, none, some, List, [], ◌∷◌, arith, nat_eq, bool_eq,
}
use openhound_okta.Base.Int.{pos, negsuc, min_ℤ}
use openhound_okta.Base.Results.{ok, err}
use openhound_okta.Http.Time.{second, default_max_cooldown, proactive_pacing}
use openhound_okta.Http.Throttle
use openhound_okta.Http.Throttle.{Throttle, try_book, defer, window, Parsers, RateHeaders}
use openhound_okta.Http.Throttle.Calls.{Call, begin, see, calls}
use openhound_okta.Http.Throttle.Deadline.{starts_are_spaced, exhausted_window_closes}
use openhound_okta.Http.Throttle.Window.{view, effect, calls-view}
use openhound_okta.Http.Throttle.Bounds.{admitted_after_limit}

abbrev fresh : Throttle
fresh = record {
  remaining_reserve = 1;
  max_cooldown = default_max_cooldown;
  next_allowed_at = 0;
  request_interval = 1200000;
  probe_interval = 0;
  observed_reset_at = none;
  observed_remaining = none;
  next_allowed_reason = proactive_pacing;
  active_http_requests = 0;
}

init_accepts : Throttle.init (pos 32) (pos 1) (pos default_max_cooldown) ≡ ok fresh
unfolding Throttle.init
init_accepts = refl

init_refuses :
    Throttle.init (pos 32) (negsuc 0) (pos 1) ≡ err "remaining_reserve cannot be negative"
unfolding Throttle.init
init_refuses = refl

-- 61 requests left at 60 seconds before the reset, one of them the reserve: a request a second.
abbrev ample : Call
ample = see 1000 500 (window (pos 61) (60 * second + 1000))

paces_a_second : (calls (ample ∷ []) fresh).request_interval ≡ second
unfolding calls Throttle.observe nat_eq
paces_a_second = refl

-- Nothing left: the family closes until a second past the reset.
closes_until_reset :
    (calls (see 1000 500 (window (pos 1) (60 * second + 1000)) ∷ []) fresh).next_allowed_at
    ≡ 61 * second + 500
unfolding calls Throttle.observe nat_eq
closes_until_reset = refl

starts_are_spaced_example : 0 + max 1200000 0 ≤ 2000000
unfolding try_book calls Throttle.begin_http_request
starts_are_spaced_example = starts_are_spaced 0 2000000 true true (begin ∷ []) fresh refl refl

exhausted_window_closes_example :
    500 + min (60 * second + 1000 + second - 1000) default_max_cooldown ≤ 62 * second
unfolding try_book calls Throttle.observe nat_eq
exhausted_window_closes_example =
    exhausted_window_closes 1000 500 (62 * second) (pos 1) (60 * second + 1000) true [] fresh
      (λ seen h. absurd (cc)) refl (omega arith) refl

-- A late response from an older window, between two of the newest.
abbrev responses : List Call
responses =
    see 1000 500 (window (pos 9) 7000)
    ∷ see 1001 501 (window (pos 90) 3000)
    ∷ see 1002 502 (window (pos 12) 7000)
    ∷ []

calls-view_example : view (calls responses fresh) ≡ foldl (λ o c. effect c o) (view fresh) responses
calls-view_example = calls-view responses fresh refl

newest_kept : view (calls responses fresh) ≡ some (record { reset_at = 7000; remaining = pos 9 })
unfolding calls Throttle.observe nat_eq min_ℤ
newest_kept = refl

abbrev swapped : List Call
swapped =
    see 1001 501 (window (pos 90) 3000)
    ∷ see 1000 500 (window (pos 9) 7000)
    ∷ see 1002 502 (window (pos 12) 7000)
    ∷ []

admitted_after_limit_example :
    (try_book (1000 + default_max_cooldown) true (calls responses fresh)).0 ≡ true
admitted_after_limit_example =
    admitted_after_limit default_max_cooldown 1000 (omega arith) responses fresh
      (1000 + default_max_cooldown) (omega arith)
      (record {
        deadline = omega arith;
        interval = omega arith;
        probe = omega arith;
        cap = omega arith;
      })
      (omega arith)

-- A header that is no number leaves the pacing as it is.
abbrev numbers : Parsers
numbers = record { int = λ s. none; float = λ s. none }

malformed_ignored :
    Throttle.observe_response numbers 0 0 (record { remaining = some "x"; reset = some "y" }) fresh
    ≡ fresh
unfolding Throttle.observe_response
malformed_ignored = refl
