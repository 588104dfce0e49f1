-- ===== src/Telemetry/Measurements.antt =====
-- `EndpointMeasurements` of telemetry.py: what an interval adds to the totals of an endpoint.
use openhound_okta.Base.{
  ℕ, ◌+◌, max, ◌≡◌, ◌||◌, Option, none, some, String, List, [], ◌∷◌, arith, string_eq, contains,
  if◌then◌else◌,
}
use openhound_okta.Base.Dict.{Dict, lookup, insert}
use openhound_okta.Telemetry.Latency.{LatencyDistribution, empty}
use openhound_okta.Telemetry.Latency as Latency

-- `Q` is what a quota observation holds.
pub record EndpointMeasurements (Q : Type 0) : Type 0 where
  pub attempts : ℕ
  pub outcomes : Dict String ℕ
  pub transport_errors : Dict String ℕ
  pub retries : Dict String ℕ
  pub retry_delay : Dict String ℕ
  pub limiter_groups : List String
  pub queued_requests : ℕ
  pub max_queue_depth : ℕ
  pub max_observed_concurrency : ℕ
  pub pages_yielded : ℕ
  pub rows_yielded : ℕ
  pub row_count_unavailable_pages : ℕ
  pub slot_wait : LatencyDistribution
  pub pacing_wait : LatencyDistribution
  pub retry_wait : LatencyDistribution
  pub http_execution : LatencyDistribution
  pub quota : Option Q

-- `d.get(k, 0)`
unfoldable pub get : String → Dict String ℕ → ℕ
unfolding lookup
get k d = elim (lookup k d) [ none ↦ 0 | some n ↦ n ]

-- `d.update(other)` of a `Counter`, and the loop over the retry delays.
unfoldable pub update : Dict String ℕ → Dict String ℕ → Dict String ℕ
unfolding get insert
update d [] = d
update d ((k, n) ∷ other) = update (insert k (get k d + n) d) other

-- `s.update(other)` of a set
unfoldable pub union : List String → List String → List String
union xs [] = xs
union xs (y ∷ ys) = union (if contains xs y then xs else y ∷ xs) ys

-- A later value, if there is one.
unfoldable pub latest : {Q : Type 0} → Option Q → Option Q → Option Q
latest o none = o
latest o (some q) = some q

unfoldable pub merge :
    {Q : Type 0} → EndpointMeasurements Q → EndpointMeasurements Q → EndpointMeasurements Q
unfolding update union latest Latency.merge
merge m other = record {
  attempts = m.attempts + other.attempts;
  outcomes = update m.outcomes other.outcomes;
  transport_errors = update m.transport_errors other.transport_errors;
  retries = update m.retries other.retries;
  retry_delay = update m.retry_delay other.retry_delay;
  limiter_groups = union m.limiter_groups other.limiter_groups;
  queued_requests = m.queued_requests + other.queued_requests;
  max_queue_depth = max m.max_queue_depth other.max_queue_depth;
  max_observed_concurrency = max m.max_observed_concurrency other.max_observed_concurrency;
  pages_yielded = m.pages_yielded + other.pages_yielded;
  rows_yielded = m.rows_yielded + other.rows_yielded;
  row_count_unavailable_pages = m.row_count_unavailable_pages + other.row_count_unavailable_pages;
  slot_wait = Latency.merge m.slot_wait other.slot_wait;
  pacing_wait = Latency.merge m.pacing_wait other.pacing_wait;
  retry_wait = Latency.merge m.retry_wait other.retry_wait;
  http_execution = Latency.merge m.http_execution other.http_execution;
  quota = latest m.quota other.quota;
}

-- The sum of the values of a counter.
unfoldable pub tally : Dict String ℕ → ℕ
tally [] = 0
tally ((k, n) ∷ d) = n + tally d

tally-insert :
    (k : String) (n : ℕ) (d : Dict String ℕ) → tally (insert k n d) + get k d ≡ tally d + n
unfolding tally insert get lookup
tally-insert k n [] = ground arith
tally-insert k n ((j, m) ∷ d) = ground (arith, tally-insert k n d)

tally-update : (d other : Dict String ℕ) → tally (update d other) ≡ tally d + tally other
unfolding update tally
tally-update d [] = ground arith
tally-update d ((k, n) ∷ other) =
    ground (arith, tally-insert k (get k d + n) d, tally-update (insert k (get k d + n) d) other)

contains-union :
    (xs ys : List String) (x : String) → contains (union xs ys) x ≡ (contains xs x || contains ys x)
unfolding union
contains-union xs [] x = ground arith
contains-union xs (y ∷ ys) x = ground (arith, contains-union xs ys x, contains-union (y ∷ xs) ys x)

-- Merging loses nothing: the outcomes, transport errors, retries and retry delays of the merged measurements
-- add up to those of both, and a limiter group is in them if it is in either.
pub merge_totals :
    {Q : Type 0} (m other : EndpointMeasurements Q) (group : String)
    → (tally (merge m other).outcomes ≡ tally m.outcomes + tally other.outcomes)
      × (tally (merge m other).transport_errors
          ≡ tally m.transport_errors + tally other.transport_errors)
      × (tally (merge m other).retries ≡ tally m.retries + tally other.retries)
      × (tally (merge m other).retry_delay ≡ tally m.retry_delay + tally other.retry_delay)
      × (contains (merge m other).limiter_groups group
          ≡ (contains m.limiter_groups group || contains other.limiter_groups group))
unfolding merge
merge_totals m other group = (
  tally-update m.outcomes other.outcomes,
  tally-update m.transport_errors other.transport_errors,
  tally-update m.retries other.retries,
  tally-update m.retry_delay other.retry_delay,
  contains-union m.limiter_groups other.limiter_groups group,
)
