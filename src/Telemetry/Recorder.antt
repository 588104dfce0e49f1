-- ===== src/Telemetry/Recorder.antt =====
-- `TelemetryRecorder` of telemetry.py: what is measured between two reports, the totals, and the queue of records.
-- Times are whole microseconds. Each operation is a step, as the lock makes it. `flush` and `finish` put
-- their record into the queue after they leave the lock; here that belongs to their step.
pub mod Steps
pub mod Totals
pub mod Runs
pub mod Counted
pub mod Summed
mod Tests
use openhound_okta.Base.{
  ℕ, zero, suc, ◌+◌, ◌-◌, max, Bool, true, false, ◌&&◌, ◌||◌, not, Option, none, some, String, List,
  [], ◌∷◌, ◌++◌, leb, ltb, ◌==◌, string_eq, nat_eq, contains, if◌then◌else◌, length,
}
use openhound_okta.Base.Dict.{Dict, lookup, insert}
use openhound_okta.Base.Int.{ℤ, excess}
use openhound_okta.Base.Sorting.{before}
use openhound_okta.Telemetry.Latency as Latency
use openhound_okta.Telemetry.Measurements.{EndpointMeasurements, get, update, union, merge}
use openhound_okta.Telemetry.Templates.{
  CollectionError, error_category, status_category, normalize_limiter_group,
}
use openhound_okta.Telemetry.Export.{
  Flags, Summary, ExportRecord, run_start, interval_record, run_summary,
}

-- `TelemetrySettings`, less the output.
pub record RecorderSettings : Type 0 where
  pub enabled : Bool
  pub reporting_interval : ℕ
  pub max_interval_records : ℕ
  pub queue_capacity : ℕ

-- `Q` is what a quota observation holds.
pub record Recorder (Q : Type 0) : Type 0 where
  pub settings : RecorderSettings
  pub safe_output : Bool
  pub finished : Bool
  pub interval : Dict String (EndpointMeasurements Q)
  pub summary : Dict String (EndpointMeasurements Q)
  pub app_interval : Dict String ℕ
  pub app_summary : Dict String ℕ
  pub sequence : ℕ
  pub interval_records : ℕ
  pub interval_started_at : ℕ
  pub flags : Flags
  pub queue : List (ExportRecord Q)

-- The waits of a request before it was sent.
pub record ThrottleWait : Type 0 where
  pub slot_wait_seconds : ℤ
  pub pacing_wait_seconds : ℤ
  pub retry_backoff_wait_seconds : ℤ
  pub queue_depth : ℕ
  pub observed_concurrency : ℕ

-- The operations that measure, with their arguments.
pub data Measure (Q : Type 0) : Type 0 where
  throttle_wait : String → ThrottleWait → Measure Q
  http_response : String → ℕ → ℤ → Q → Option ThrottleWait → Option String → Measure Q
  transport_error : String → CollectionError → ℤ → Option ThrottleWait → Option String → Measure Q
  retry : String → String → ℤ → Measure Q
  retry_wait : String → ℤ → Measure Q
  page : String → Option ℕ → Measure Q
  application_stream : String → Measure Q

-- `counter[key] += 1`
unfoldable pub count_up : String → Dict String ℕ → Dict String ℕ
unfolding insert get
count_up k d = insert k (get k d + 1) d

-- `set.add(x)`
unfoldable pub add_group : String → List String → List String
add_group x xs = if contains xs x then xs else x ∷ xs

module _ {Q : Type 0} where
  abbrev pub no_measurements : EndpointMeasurements Q
  no_measurements = record {
    attempts = 0;
    outcomes = [];
    transport_errors = [];
    retries = [];
    retry_delay = [];
    limiter_groups = [];
    queued_requests = 0;
    max_queue_depth = 0;
    max_observed_concurrency = 0;
    pages_yielded = 0;
    rows_yielded = 0;
    row_count_unavailable_pages = 0;
    slot_wait = Latency.empty;
    pacing_wait = Latency.empty;
    retry_wait = Latency.empty;
    http_execution = Latency.empty;
    quota = none;
  }

  -- `_record_throttle_measurements`
  unfoldable pub add_wait : Option ThrottleWait → EndpointMeasurements Q → EndpointMeasurements Q
  unfolding Latency.observe
  add_wait none m = m
  add_wait (some wait) m = record m {
    queued_requests = m.queued_requests + (if ltb 0 wait.queue_depth then 1 else 0);
    max_queue_depth = max m.max_queue_depth wait.queue_depth;
    max_observed_concurrency = max m.max_observed_concurrency wait.observed_concurrency;
    slot_wait = Latency.observe wait.slot_wait_seconds m.slot_wait;
    pacing_wait = Latency.observe wait.pacing_wait_seconds m.pacing_wait;
    retry_wait = Latency.observe wait.retry_backoff_wait_seconds m.retry_wait;
  }

  -- The block of `record_http_response` under the lock.
  unfoldable pub add_response :
      ℕ
      → ℤ
      → Q
      → Option ThrottleWait
      → Option String
      → EndpointMeasurements Q
      → EndpointMeasurements Q
  unfolding add_wait add_group count_up normalize_limiter_group status_category Latency.observe
  add_response status_code duration quota wait group m =
      let waited = add_wait wait m in
      record waited {
        limiter_groups = add_group (normalize_limiter_group group) m.limiter_groups;
        attempts = waited.attempts + 1;
        outcomes = count_up (status_category status_code) waited.outcomes;
        http_execution = Latency.observe duration waited.http_execution;
        quota = some quota;
      }

  -- The block of `record_transport_error`.
  unfoldable pub add_transport_error :
      CollectionError
      → ℤ
      → Option ThrottleWait
      → Option String
      → EndpointMeasurements Q
      → EndpointMeasurements Q
  unfolding add_wait add_group count_up normalize_limiter_group error_category Latency.observe
  add_transport_error error duration wait group m =
      let waited = add_wait wait m in
      record waited {
        limiter_groups = add_group (normalize_limiter_group group) m.limiter_groups;
        attempts = waited.attempts + 1;
        outcomes = count_up "transport_error" waited.outcomes;
        transport_errors = count_up (error_category error) waited.transport_errors;
        http_execution = Latency.observe duration waited.http_execution;
      }

  -- The block of `record_retry`.
  unfoldable pub add_retry : String → ℤ → EndpointMeasurements Q → EndpointMeasurements Q
  unfolding count_up insert get
  add_retry category delay m = record m {
    retries = count_up category m.retries;
    retry_delay = insert category (get category m.retry_delay + excess delay 0) m.retry_delay;
  }

  -- The block of `record_retry_wait`.
  unfoldable pub add_retry_wait : ℤ → EndpointMeasurements Q → EndpointMeasurements Q
  unfolding Latency.observe
  add_retry_wait duration m = record m { retry_wait = Latency.observe duration m.retry_wait }

  -- The block of `record_page`.
  unfoldable pub add_page : Option ℕ → EndpointMeasurements Q → EndpointMeasurements Q
  add_page none m = record m {
    pages_yielded = m.pages_yielded + 1;
    row_count_unavailable_pages = m.row_count_unavailable_pages + 1;
  }
  add_page (some row_count) m = record m {
    pages_yielded = m.pages_yielded + 1;
    rows_yielded = m.rows_yielded + row_count;
  }
