-- ===== src/Http/Tests/Waiting.antt =====
-- Waits and pauses at concrete clocks.
use openhound_okta.Base.{◌≡◌, refl, false, some, List, [], ◌∷◌, arith, nat_eq}
use openhound_okta.Base.{none}
use openhound_okta.Http.Time.{retry_backoff}
use openhound_okta.Http.Org
use openhound_okta.Http.Org.{OrgThrottle, allows}
use openhound_okta.Http.Throttle.{Throttle, try_book}
use openhound_okta.Http.Outage.{defer_outage, pauses, outage_holds_all}
use openhound_okta.Http.Waits.{Round, wait_until_allowed}

abbrev backing_off : Throttle
backing_off = record {
  remaining_reserve = 1;
  max_cooldown = 300;
  next_allowed_at = 50;
  request_interval = 10;
  probe_interval = 0;
  observed_reset_at = none;
  observed_remaining = none;
  next_allowed_reason = retry_backoff;
  active_http_requests = 0;
}

abbrev two_rounds : List (Round Throttle)
two_rounds =
    record { state = backing_off; clock = 20; wait_started_at = 20; woken_at = 51 }
    ∷ record { state = backing_off; clock = 51; wait_started_at = 0; woken_at = 0 }
    ∷ []

it_backs_off : wait_until_allowed two_rounds (0, 0) ≡ some (0, 31)
unfolding wait_until_allowed
it_backs_off = refl

abbrev idle : OrgThrottle
idle = record { gate = record { limit = 1; value = 1 }; max_cooldown = 300; next_allowed_at = 0 }

abbrev paused_org : OrgThrottle
paused_org = record idle { next_allowed_at = 140 }

it_pauses : (defer_outage 100 40 (some idle) backing_off).1.0 ≡ some paused_org
unfolding defer_outage Org.defer nat_eq
it_pauses = refl

outage_holds_all_example :
    (try_book 130 (allows 130 (pauses ((110, 5) ∷ []) paused_org)) backing_off).0 ≡ false
outage_holds_all_example =
    outage_holds_all 100 40 130 ((110, 5) ∷ []) idle paused_org backing_off backing_off
      (omega arith) it_pauses (omega arith)
