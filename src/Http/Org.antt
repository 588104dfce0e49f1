-- ===== src/Http/Org.antt =====
-- `OrgThrottle` of utils/http.py: the in-flight permits and the outage deadline that every endpoint
-- family shares. A reading of the clock is an argument.
use openhound_okta.Base.{ℕ, ◌+◌, min, Bool, Option, String, leb, ltb, ◌==◌, nat_eq, if◌then◌else◌}
use mathlib.Core.Option
use openhound_okta.Base.Int.{ℤ, at_most, excess}
use openhound_okta.Http.Semaphore.{Semaphore, full, take_one, give_back}
use openhound_okta.Base.Results.{Result, ok, err}

pub record OrgThrottle : Type 0 where
  pub gate : Semaphore
  pub max_cooldown : ℕ
  pub next_allowed_at : ℕ

-- `__init__`
unfoldable pub init : ℤ → ℤ → Result String OrgThrottle
init max_concurrency max_cooldown =
    if at_most max_concurrency 0
    then err "max_concurrency must be at least 1"
    else if at_most max_cooldown 0
    then err "max_cooldown_seconds must be positive"
    else ok (record {
      gate = full (excess max_concurrency 0);
      max_cooldown = excess max_cooldown 0;
      next_allowed_at = 0;
    })

unfoldable pub acquire : OrgThrottle → Option OrgThrottle
unfolding take_one
acquire o = Option.map (λ gate. record o { gate = gate }) (take_one o.gate)

unfoldable pub release : OrgThrottle → Option OrgThrottle
unfolding give_back
release o = Option.map (λ gate. record o { gate = gate }) (give_back o.gate)

unfoldable pub allows : ℕ → OrgThrottle → Bool
allows now o = leb o.next_allowed_at now

-- The deadline only moves forward. The result is the delay that was applied.
unfoldable pub defer : ℕ → ℕ → OrgThrottle → ℕ × OrgThrottle
defer now delay o =
    if delay == 0
    then (0, o)
    else (let capped = min delay o.max_cooldown in
        let deadline = now + capped in
        (
          capped,
          (if ltb o.next_allowed_at deadline then record o { next_allowed_at = deadline } else o),
        ))
