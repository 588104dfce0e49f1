-- ===== src/Telemetry/Tests.antt =====
-- Measurements of concrete requests.
use openhound_okta.Base.{◌≡◌, refl, some, nat_eq, none, String, List, [], ◌∷◌, ◌++◌, string_eq}
use openhound_okta.Base.Int.{ℤ}
use openhound_okta.Telemetry.Latency.Quantiles.{quantile_upper_bound}
use openhound_okta.Telemetry.Latency.{empty, merge, observe_all}
use openhound_okta.Telemetry.Latency.Merge.{merge_lem}
use openhound_okta.Telemetry.Measurements.{EndpointMeasurements}

abbrev some_durations : List ℤ
some_durations = ℤ.pos 900 ∷ ℤ.negsuc 4 ∷ ℤ.pos 70000000 ∷ []

merge_lem_example :
    merge (observe_all some_durations empty) (observe_all (ℤ.pos 7 ∷ []) empty)
    ≡ observe_all (some_durations ++ (ℤ.pos 7 ∷ [])) empty
merge_lem_example = merge_lem some_durations (ℤ.pos 7 ∷ [])

abbrev measured : EndpointMeasurements String
measured = record {
  attempts = 2;
  outcomes = ("success", 1) ∷ ("rate_limited", 1) ∷ [];
  transport_errors = [];
  retries = ("rate_limit", 1) ∷ [];
  retry_delay = ("rate_limit", 1000000) ∷ [];
  limiter_groups = "users" ∷ [];
  queued_requests = 0;
  max_queue_depth = 0;
  max_observed_concurrency = 1;
  pages_yielded = 1;
  rows_yielded = 20;
  row_count_unavailable_pages = 0;
  slot_wait = empty;
  pacing_wait = empty;
  retry_wait = empty;
  http_execution = empty;
  quota = none;
}

abbrev three : List ℤ
three = ℤ.pos 900 ∷ ℤ.pos 4000 ∷ ℤ.pos 70000 ∷ []

half_is_short : quantile_upper_bound 50 (observe_all three empty) ≡ some (some 5)
unfolding quantile_upper_bound observe_all nat_eq
half_is_short = refl
