-- ===== src/Http/Tests/Sharing.antt =====
-- Two requests that share the slots of a family and the permits of the org.
use openhound_okta.Base.{◌≡◌, refl, none, some, List, [], ◌∷◌, nat_eq}
use openhound_okta.Http.Time.{default_max_cooldown, proactive_pacing}
use openhound_okta.Http.Semaphore.{full}
use openhound_okta.Http.Org
use openhound_okta.Http.Throttle.{try_book}
use openhound_okta.Http.Admission.{
  outside, parked, in_flight, System, Event, take_slot, take_permit, book, run,
}
use openhound_okta.Http.Admission.Permits.{IsConserved, SameLimits, run-IsConserved}

-- Two requests, two slots, two permits.
abbrev idle : System
idle = record {
  slots = full 2;
  org = record { gate = full 2; max_cooldown = default_max_cooldown; next_allowed_at = 0 };
  throttle = record {
    remaining_reserve = 1;
    max_cooldown = default_max_cooldown;
    next_allowed_at = 0;
    request_interval = 1200000;
    probe_interval = 0;
    observed_reset_at = none;
    observed_remaining = none;
    next_allowed_reason = proactive_pacing;
    active_http_requests = 0;
  };
  requests = outside ∷ outside ∷ [];
  others = 0;
}

idle-IsConserved : IsConserved idle
idle-IsConserved = record { slots = refl; permits = refl }

-- Both reach the gate; the first books, the second finds the deadline moved and goes back.
abbrev race : List Event
race = take_slot 0 ∷ take_slot 1 ∷ take_permit 0 ∷ take_permit 1 ∷ book 0 5 ∷ book 1 6 ∷ []

abbrev raced : System
raced = record idle {
  slots = record { limit = 2; value = 0 };
  org = record {
    gate = record { limit = 2; value = 1 };
    max_cooldown = default_max_cooldown;
    next_allowed_at = 0;
  };
  throttle = record (idle.throttle) { next_allowed_at = 1200005 };
  requests = in_flight ∷ parked ∷ [];
}

race_runs : run race idle ≡ some raced
unfolding run nat_eq try_book Org.allows
race_runs = refl

run-IsConserved_example : IsConserved raced × SameLimits idle raced
run-IsConserved_example = run-IsConserved race idle raced race_runs idle-IsConserved
