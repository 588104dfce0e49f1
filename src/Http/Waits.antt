-- ===== src/Http/Waits.antt =====
-- The waits of utils/http.py: `OrgThrottle.wait`, `EndpointThrottle._wait_until_allowed` and `wait`.
use openhound_okta.Base.{
  ℕ, ◌+◌, ◌-◌, ◌≡◌, ◌↔◌, true, Option, none, some, List, [], ◌∷◌, arith, leb, if◌then◌else◌,
}
use openhound_okta.Http.Time.{proactive_pacing, retry_backoff}
use openhound_okta.Http.Org.{OrgThrottle, allows}
use openhound_okta.Http.Throttle.{Throttle, try_book}

-- The time to sleep, if any, at a clock reading.
abbrev pub delay_until : ℕ → ℕ → Option ℕ
delay_until deadline now = if leb deadline now then none else some (deadline - now)

-- One round of a wait: what it finds, and the clock before and after its sleep. A round that does not sleep
-- makes no use of the last two.
pub record Round (S : Type 0) : Type 0 where
  pub state : S
  pub clock : ℕ
  pub wait_started_at : ℕ
  pub woken_at : ℕ

abbrev pub slept : {S : Type 0} → Round S → ℕ
slept r = r.woken_at - r.wait_started_at

-- `OrgThrottle.wait` over its rounds; `none` if it still waits after the last of them.
unfoldable pub wait_org : List (Round OrgThrottle) → ℕ → Option ℕ
wait_org [] waited = none
wait_org (r ∷ rs) waited =
    let rest = wait_org rs (waited + slept r) in
    elim (delay_until r.state.next_allowed_at r.clock) [ none ↦ some waited | some delay ↦ rest ]

-- `_wait_until_allowed`: the time spent on pacing and on backoff.
unfoldable pub wait_until_allowed : List (Round Throttle) → ℕ × ℕ → Option (ℕ × ℕ)
wait_until_allowed [] (pacing, backoff) = none
wait_until_allowed (r ∷ rs) (pacing, backoff) =
    let paced = wait_until_allowed rs (pacing + slept r, backoff) in
    let backed_off = wait_until_allowed rs (pacing, backoff + slept r) in
    elim (delay_until r.state.next_allowed_at r.clock) [
      | none ↦ some (pacing, backoff)
      | some delay ↦ elim r.state.next_allowed_reason [
        | proactive_pacing ↦ paced
        | retry_backoff ↦ backed_off
      ]
    ]

-- The time slept in the rounds before the one that ends the wait.
abbrev pub slept_before : List (Round Throttle) → ℕ
slept_before [] = 0
slept_before (r ∷ rs) = if leb r.state.next_allowed_at r.clock then 0 else slept r + slept_before rs

sleeps_add_up :
    (rs : List (Round Throttle)) (before : ℕ × ℕ) (spent : ℕ × ℕ)
    → wait_until_allowed rs before ≡ some spent
    → spent.0 + spent.1 ≡ before.0 + before.1 + slept_before rs
unfolding wait_until_allowed
sleeps_add_up [] (p, b) spent h = cc
sleeps_add_up (r ∷ rs) (p, b) spent h =
    ground (arith, sleeps_add_up rs (p + slept r, b) spent, sleeps_add_up rs (p, b + slept r) spent)

-- A wait for the family's deadline attributes all the time it slept, to pacing or to backoff, and no more.
pub wait_until_allowed_adds_up :
    (rs : List (Round Throttle)) (pacing backoff : ℕ)
    → wait_until_allowed rs (0, 0) ≡ some (pacing, backoff)
    → pacing + backoff ≡ slept_before rs
wait_until_allowed_adds_up rs pacing backoff h =
    omega (arith, sleeps_add_up rs (0, 0) (pacing, backoff) h)

-- At a clock reading, neither the family nor the org asks for a sleep exactly if a booking at that reading
-- succeeds.
pub waits-try_book :
    (now : ℕ) (o : OrgThrottle) (t : Throttle)
    → ((delay_until t.next_allowed_at now ≡ none) × (delay_until o.next_allowed_at now ≡ none))
      ↔ ((try_book now (allows now o) t).0 ≡ true)
unfolding try_book allows
waits-try_book now o t = (λ h. ground arith, λ h. (ground arith, ground arith))
