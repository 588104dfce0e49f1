-- ===== src/Http/Outage.antt =====
-- `EndpointThrottle.defer_outage` of utils/http.py: a pause of all families, or of one without an org throttle.
use openhound_okta.Base.{
  ℕ, ◌+◌, ◌≤◌, ◌<◌, min, ◌≡◌, false, Option, none, some, List, [], ◌∷◌, arith, nat_eq,
}
use openhound_okta.Http.Org
use openhound_okta.Http.Org.{OrgThrottle, allows}
use openhound_okta.Http.Throttle.{Throttle, defer, try_book}

-- The effective delay, and both throttles afterwards.
unfoldable pub defer_outage :
    ℕ → ℕ → Option OrgThrottle → Throttle → ℕ × (Option OrgThrottle × Throttle)
unfolding Org.defer defer
defer_outage now delay (some o) t =
    let (effective, o') = Org.defer now delay o in (effective, (some o', t))
defer_outage now delay none t = let (effective, t') = defer now delay 0 t in (effective, (none, t'))

-- Pauses that the families publish, each with its clock reading and delay.
unfoldable pub pauses : List (ℕ × ℕ) → OrgThrottle → OrgThrottle
unfolding Org.defer
pauses [] o = o
pauses ((now, delay) ∷ rest) o = pauses rest (Org.defer now delay o).1

pauses_mono :
    (ps : List (ℕ × ℕ)) (o : OrgThrottle) → o.next_allowed_at ≤ (pauses ps o).next_allowed_at
unfolding pauses
pauses_mono [] o = omega arith
pauses_mono ((now, delay) ∷ rest) o = ground (arith, pauses_mono rest (Org.defer now delay o).1)

paused :
    (now delay : ℕ) (o : OrgThrottle)
    → 0 < delay
    → now + min delay o.max_cooldown ≤ (Org.defer now delay o).1.next_allowed_at
unfolding Org.defer
paused now delay o p = ground arith

-- After an outage that one family publishes to the shared org throttle with a positive delay, no family books a
-- start until the delay, cut to the org's cooldown cap, is over, whatever pauses are published in between.
pub outage_holds_all :
    (now delay later : ℕ) (ps : List (ℕ × ℕ)) (o after : OrgThrottle) (publisher family : Throttle)
    → 0 < delay
    → (defer_outage now delay (some o) publisher).1.0 ≡ some after
    → later < now + min delay o.max_cooldown
    → (try_book later (allows later (pauses ps after)) family).0 ≡ false
unfolding defer_outage try_book allows
outage_holds_all now delay later ps o after publisher family p e early =
    ground (arith, paused now delay o p, pauses_mono ps after)
