-- ===== src/Http/Throttle/Deadline.antt =====
-- The deadline of `EndpointThrottle` under any interleaving of calls: it never moves back, so two
-- starts are spaced by the interval that was in force at the first.
use openhound_okta.Base.{
  ℕ, ◌+◌, ◌-◌, ◌≤◌, ◌<◌, min, max, ◌≡◌, refl, sym, subst, ap₂, Bool, true, Option, some, List, [],
  ◌∷◌, arith, ltb, Bool-cases, Option-cases, inl, inr,
}
use openhound_okta.Base.Int.{ℤ, at_most, min_ℤ}
use openhound_okta.Http.Time.{second, WaitReason}
use openhound_okta.Http.Throttle.Calls.{Call, begin, finish, book, hold, see, call, calls}
use openhound_okta.Http.Throttle.{
  Throttle, begin_http_request, end_http_request, try_book, push_deadline, defer, join_window, pace,
  pace_window, Reading, absent, malformed, window, observe,
}

push_deadline_mono :
    (d : ℕ) (r : WaitReason) (t : Throttle)
    → t.next_allowed_at ≤ (push_deadline d r t).next_allowed_at
unfolding push_deadline
push_deadline_mono d r t = ground arith

pace_mono :
    (wall now : ℕ) (remaining : ℤ) (reset_at : ℕ) (t : Throttle)
    → t.next_allowed_at ≤ (pace wall now remaining reset_at t).next_allowed_at
unfolding pace
pace_mono wall now remaining reset_at t = ground arith

pace_window_mono :
    (wall now : ℕ) (t : Throttle) → t.next_allowed_at ≤ (pace_window wall now t).next_allowed_at
unfolding pace_window
pace_window_mono wall now t = elim (Option-cases t.observed_remaining) [
  | inl e ↦ rw (e, pace_window) (omega arith)
  | inr (remaining, e) ↦ elim (Option-cases t.observed_reset_at) [
    | inl f ↦ rw (e, f, pace_window) (omega arith)
    | inr (reset_at, f) ↦ rw (e, f, pace_window) (pace_mono wall now remaining reset_at t)
  ]
]

join_window-next_allowed_at :
    (remaining : ℤ) (reset_at : ℕ) (t : Throttle) {joined : Throttle}
    → join_window remaining reset_at t ≡ some joined
    → joined.next_allowed_at ≡ t.next_allowed_at
unfolding join_window
join_window-next_allowed_at remaining reset_at t h = ground arith

observe_mono :
    (wall now : ℕ) (reading : Reading) (t : Throttle)
    → t.next_allowed_at ≤ (observe wall now reading t).next_allowed_at
unfolding observe
observe_mono wall now absent t = omega arith
observe_mono wall now malformed t = omega arith
observe_mono wall now (window remaining reset_at) t =
    elim (Option-cases (join_window remaining reset_at t)) [
      | inl e ↦ rw (e, observe) (omega arith)
      | inr (joined, e) ↦
          rw (e, observe)
            (omega (
              arith,
              join_window-next_allowed_at remaining reset_at t e,
              pace_window_mono wall now joined,
            ))
    ]

call_mono : (c : Call) (t : Throttle) → t.next_allowed_at ≤ (call c t).next_allowed_at
unfolding call begin_http_request end_http_request try_book defer
call_mono begin t = omega arith
call_mono finish t = omega arith
call_mono (book now org_allows) t = ground arith
call_mono (hold now delay minimum_interval) t = ground arith
call_mono (see wall now reading) t = observe_mono wall now reading t

-- No call of any thread moves the deadline back.
pub calls_mono : (cs : List Call) (t : Throttle) → t.next_allowed_at ≤ (calls cs t).next_allowed_at
unfolding calls
calls_mono [] t = omega arith
calls_mono (c ∷ cs) t = omega (arith, call_mono c t, calls_mono cs (call c t))

booked :
    (now : ℕ) (org_allows : Bool) (t : Throttle)
    → (try_book now org_allows t).0 ≡ true
    → (t.next_allowed_at ≤ now)
      × ((try_book now org_allows t).1.next_allowed_at
          ≡ now + max t.request_interval t.probe_interval)
unfolding try_book
booked now org_allows t h = ground arith

-- Whatever the threads of a family call between two successful bookings, the second start comes at
-- least the pacing interval of the first after it.
pub starts_are_spaced :
    (first second : ℕ) (org_first org_second : Bool) (cs : List Call) (t : Throttle)
    → (try_book first org_first t).0 ≡ true
    → (try_book second org_second (calls cs (try_book first org_first t).1)).0 ≡ true
    → first + max t.request_interval t.probe_interval ≤ second
starts_are_spaced first second org_first org_second cs t h k = omega (
  arith,
  booked first org_first t h,
  booked second org_second (calls cs (try_book first org_first t).1) k,
  calls_mono cs (try_book first org_first t).1,
)

deferred :
    (now delay minimum_interval : ℕ) (t : Throttle)
    → 0 < delay
    → now + min delay t.max_cooldown ≤ (defer now delay minimum_interval t).1.next_allowed_at
unfolding defer
deferred now delay minimum_interval t h = ground arith

-- No window with a later reset has been seen.
abbrev pub IsNewest : ℕ → Throttle → Type 0
IsNewest reset_at t = (seen : ℕ) → t.observed_reset_at ≡ some seen → seen ≤ reset_at

pace_closed :
    (wall now : ℕ) (remaining : ℤ) (reset_at : ℕ) (t : Throttle)
    → at_most remaining (t.remaining_reserve + t.active_http_requests) ≡ true
    → wall ≤ reset_at
    → now + min (reset_at + second - wall) t.max_cooldown
      ≤ (pace wall now remaining reset_at t).next_allowed_at
unfolding pace
pace_closed wall now remaining reset_at t low before = ground arith

at_most-min_ℤ : (a b : ℤ) (n : ℕ) → at_most a n ≡ true → at_most (min_ℤ a b) n ≡ true
unfolding min_ℤ
at_most-min_ℤ (ℤ.pos a) (ℤ.pos b) n h = ground arith
at_most-min_ℤ (ℤ.pos a) (ℤ.negsuc b) n h = refl
at_most-min_ℤ (ℤ.negsuc a) (ℤ.pos b) n h = refl
at_most-min_ℤ (ℤ.negsuc a) (ℤ.negsuc b) n h = refl

-- What a window that is not older than the newest is joined to: its own reset, and no more left.
record IsJoined (remaining : ℤ) (reset_at : ℕ) (t : Throttle) (o : Option Throttle) : Type 0 where
  joined : Throttle
  joined_eq : o ≡ some joined
  left : ℤ
  left_eq : joined.observed_remaining ≡ some left
  left_low : (n : ℕ) → at_most remaining n ≡ true → at_most left n ≡ true
  reset_eq : joined.observed_reset_at ≡ some reset_at
  reserve_eq : joined.remaining_reserve ≡ t.remaining_reserve
  cap_eq : joined.max_cooldown ≡ t.max_cooldown
  active_eq : joined.active_http_requests ≡ t.active_http_requests

module _ (remaining : ℤ) (reset_at : ℕ) (t : Throttle) where
  at_window : (left : ℤ) → Throttle
  at_window left = record t { observed_reset_at = some reset_at; observed_remaining = some left }

  at_window-IsJoined :
      (left : ℤ) (o : Option Throttle)
      → ((n : ℕ) → at_most remaining n ≡ true → at_most left n ≡ true)
      → o ≡ some (at_window left)
      → IsJoined remaining reset_at t o
  unfolding at_window
  at_window-IsJoined left o low e = record {
    joined = at_window left;
    joined_eq = e;
    left = left;
    left_eq = refl;
    left_low = low;
    reset_eq = refl;
    reserve_eq = refl;
    cap_eq = refl;
    active_eq = refl;
  }

  join_window-IsJoined :
      IsNewest reset_at t → IsJoined remaining reset_at t (join_window remaining reset_at t)
  unfolding join_window at_window
  join_window-IsJoined newest = elim (Option-cases t.observed_reset_at) [
    | inl e ↦ at_window-IsJoined remaining _ (λ n h. h) (ground arith)
    | inr (seen, e) ↦ elim (Bool-cases (ltb seen reset_at)) [
      | inl later ↦ at_window-IsJoined remaining _ (λ n h. h) (ground arith)
      | inr same ↦ elim (Option-cases t.observed_remaining) [
        | inl f ↦ at_window-IsJoined remaining _ (λ n h. h) (ground (arith, newest seen))
        | inr (least, f) ↦
            at_window-IsJoined (min_ℤ remaining least) _ (at_most-min_ℤ remaining least)
              (ground (arith, newest seen))
      ]
    ]
  ]

pace_window_closed :
    (wall now reset_at : ℕ) (left : ℤ) (t : Throttle)
    → t.observed_remaining ≡ some left
    → t.observed_reset_at ≡ some reset_at
    → at_most left (t.remaining_reserve + t.active_http_requests) ≡ true
    → wall ≤ reset_at
    → now + min (reset_at + second - wall) t.max_cooldown ≤ (pace_window wall now t).next_allowed_at
unfolding pace_window
pace_window_closed wall now reset_at left t e f low before =
    rw (e, f, pace_window) (pace_closed wall now left reset_at t low before)

closed :
    (wall now : ℕ) (remaining : ℤ) (reset_at : ℕ) (t : Throttle)
    → IsNewest reset_at t
    → at_most remaining (t.remaining_reserve + t.active_http_requests) ≡ true
    → wall ≤ reset_at
    → now + min (reset_at + second - wall) t.max_cooldown
      ≤ (observe wall now (window remaining reset_at) t).next_allowed_at
unfolding observe
closed wall now remaining reset_at t newest low before =
    let j = join_window-IsJoined remaining reset_at t newest in
    rw (j.joined_eq, observe)
      (subst
        (λ cap.
          now + min (reset_at + second - wall) cap
          ≤ (pace_window wall now j.joined).next_allowed_at)
        j.cap_eq
        (pace_window_closed wall now reset_at j.left j.joined j.left_eq j.reset_eq
          (subst (λ n. at_most j.left n ≡ true) (sym (ap₂ ◌+◌ j.reserve_eq j.active_eq))
            (j.left_low _ low))
          before))

-- After `defer` with a positive delay, no booking of the family succeeds before the delay, cut to
-- the cooldown cap, is over, whatever is called in between.
pub deferred_is_kept :
    (now delay minimum_interval later : ℕ) (org_allows : Bool) (cs : List Call) (t : Throttle)
    → 0 < delay
    → (try_book later org_allows (calls cs (defer now delay minimum_interval t).1)).0 ≡ true
    → now + min delay t.max_cooldown ≤ later
deferred_is_kept now delay minimum_interval later org_allows cs t h k = omega (
  arith,
  deferred now delay minimum_interval t h,
  booked later org_allows (calls cs (defer now delay minimum_interval t).1) k,
  calls_mono cs (defer now delay minimum_interval t).1,
)

-- A response of the newest window, seen before its reset, that leaves no more than the reserve and the
-- requests in flight closes the family: whatever is called in between, no booking succeeds until one second past the reset, or until the cooldown cap
-- has passed, whichever is first.
pub exhausted_window_closes :
    (wall now later : ℕ) (remaining : ℤ) (reset_at : ℕ) (org_allows : Bool) (cs : List Call)
    (t : Throttle)
    → IsNewest reset_at t
    → at_most remaining (t.remaining_reserve + t.active_http_requests) ≡ true
    → wall ≤ reset_at
    → (try_book later org_allows (calls cs (observe wall now (window remaining reset_at) t))).0
      ≡ true
    → now + min (reset_at + second - wall) t.max_cooldown ≤ later
exhausted_window_closes wall now later remaining reset_at org_allows cs t newest low before k =
    let t' = observe wall now (window remaining reset_at) t in
    omega (
      arith,
      closed wall now remaining reset_at t newest low before,
      booked later org_allows (calls cs t') k,
      calls_mono cs t',
    )
