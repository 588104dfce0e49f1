-- ===== src/Http/Throttle/Bounds.antt =====
-- How long `EndpointThrottle` can make a request wait: a pause is cut to the cooldown cap, so a
-- family is never closed for longer than that, whatever the headers say.
use openhound_okta.Base.{
  ℕ, ◌+◌, ◌-◌, ◌/◌, ◌≤◌, min, ◌≡◌, true, some, List, [], ◌∷◌, arith, Option-cases, inl, inr, All,
}
use openhound_okta.Base.Int.{ℤ, excess}
use openhound_okta.Http.Time.{default_request_interval, probe_interval_seconds}
use openhound_okta.Http.Throttle.Calls.{Call, begin, finish, book, hold, see, call, calls}
use openhound_okta.Http.Throttle.{
  Throttle, begin_http_request, end_http_request, try_book, defer, join_window, pace, pace_window,
  absent, malformed, window, observe,
}

-- A clock reading of `now` or before, and a probe interval within the limit.
abbrev pub IsBy : ℕ → ℕ → Call → Type 0
IsBy limit now begin = Unit
IsBy limit now finish = Unit
IsBy limit now (book t _) = t ≤ now
IsBy limit now (hold t _ minimum_interval) = (t ≤ now) × (minimum_interval ≤ limit)
IsBy limit now (see _ t _) = t ≤ now

-- The deadline and both intervals, and the constants that they come from.
pub record IsBounded (limit now : ℕ) (t : Throttle) : Type 0 where
  pub deadline : t.next_allowed_at ≤ now + limit
  pub interval : t.request_interval ≤ limit
  pub probe : t.probe_interval ≤ limit
  pub cap : t.max_cooldown ≤ limit

-- What the constants of the module must not pass.
abbrev pub IsLimit : ℕ → Type 0
IsLimit limit = (default_request_interval ≤ limit) × (probe_interval_seconds ≤ limit)

div-le : (a b : ℕ) → a / b ≤ a
div-le a b = omega arith

module _ (limit now : ℕ) (enough : IsLimit limit) where
  pace-IsBounded :
      (wall at : ℕ) (remaining : ℤ) (reset_at : ℕ) (t : Throttle)
      → at ≤ now
      → IsBounded limit now t
      → IsBounded limit now (pace wall at remaining reset_at t)
  unfolding pace
  pace-IsBounded wall at remaining reset_at t past b = ground (
    arith,
    div-le (min (reset_at - wall) t.max_cooldown)
        (excess remaining (t.remaining_reserve + t.active_http_requests)),
  )

  pace_window-IsBounded :
      (wall at : ℕ) (t : Throttle)
      → at ≤ now
      → IsBounded limit now t
      → IsBounded limit now (pace_window wall at t)
  unfolding pace_window
  pace_window-IsBounded wall at t past b = elim (Option-cases t.observed_remaining) [
    | inl e ↦ ground arith
    | inr (remaining, e) ↦ elim (Option-cases t.observed_reset_at) [
      | inl f ↦ ground arith
      | inr (reset_at, f) ↦ ground (arith, pace-IsBounded wall at remaining reset_at t past b)
    ]
  ]

  join_window-IsBounded :
      (remaining : ℤ) (reset_at : ℕ) (t u : Throttle)
      → IsBounded limit now t
      → join_window remaining reset_at t ≡ some u
      → IsBounded limit now u
  unfolding join_window
  join_window-IsBounded remaining reset_at t u b h = ground arith

  call-IsBounded :
      (c : Call) (t : Throttle)
      → IsBy limit now c
      → IsBounded limit now t
      → IsBounded limit now (call c t)
  unfolding call begin_http_request end_http_request try_book defer observe
  call-IsBounded begin t past b = ground arith
  call-IsBounded finish t past b = ground arith
  call-IsBounded (book at org_allows) t past b = ground arith
  call-IsBounded (hold at delay minimum_interval) t past b = ground arith
  call-IsBounded (see wall at absent) t past b = ground arith
  call-IsBounded (see wall at malformed) t past b = b
  call-IsBounded (see wall at (window remaining reset_at)) t past b =
      elim (Option-cases (join_window remaining reset_at t)) [
        | inl e ↦ rw (e, observe) b
        | inr (u, e) ↦
            rw (e, observe)
              (pace_window-IsBounded wall at u past
                (join_window-IsBounded remaining reset_at t u b e))
      ]

  -- Every call keeps the deadline within the limit of the clock, and the intervals within the limit.
  pub calls-IsBounded :
      (cs : List Call) (t : Throttle)
      → All (IsBy limit now) cs
      → IsBounded limit now t
      → IsBounded limit now (calls cs t)
  unfolding calls
  calls-IsBounded [] t past b = b
  calls-IsBounded (c ∷ cs) t past b =
      calls-IsBounded cs (call c t) past.1 (call-IsBounded c t past.0 b)

  -- No family starves: from a throttle within the bounds, after any calls with clock readings of `now` or before, a request that tries
  -- `limit` later is admitted if the org throttle allows it, where `limit` is at least the cooldown
  -- cap, the default interval, the probe interval and the minimum intervals asked for.
  pub admitted_after_limit :
      (cs : List Call) (t : Throttle) (later : ℕ)
      → All (IsBy limit now) cs
      → IsBounded limit now t
      → now + limit ≤ later
      → (try_book later true (calls cs t)).0 ≡ true
  unfolding try_book
  admitted_after_limit cs t later past b h = ground (arith, (calls-IsBounded cs t past b).deadline)
