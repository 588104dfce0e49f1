-- ===== src/Telemetry/Recorder/Steps.antt =====
-- The operations of `TelemetryRecorder`: measuring, `flush`, `_enqueue` and `finish`, and runs of them.
-- `_enqueue` runs outside the lock; it is taken as one step with the `flush` or `finish` that calls it, so
-- another thread's step between the two, and a record taken between its two attempts, are left out.
use openhound_okta.Base.{
  ℕ, suc, ◌-◌, Bool, true, false, ◌&&◌, not, Option, none, some, String, List, [], ◌∷◌, ◌++◌, leb,
  ltb, string_eq, if◌then◌else◌, length,
}
use openhound_okta.Base.Dict.{Dict, lookup, insert}
use openhound_okta.Base.Sorting.{before}
use openhound_okta.Telemetry.Measurements.{EndpointMeasurements, merge, update}
use openhound_okta.Telemetry.Templates.{CollectionError, error_category}
use openhound_okta.Telemetry.Export.{
  Flags, Summary, ExportRecord, run_start, interval_record, run_summary, truncated,
}
use openhound_okta.Telemetry.Recorder.{
  RecorderSettings, Recorder, Measure, throttle_wait, http_response, transport_error, retry,
  retry_wait, page, application_stream, no_measurements, count_up, add_wait, add_response,
  add_transport_error, add_retry, add_retry_wait, add_page,
}

-- `dict(sorted(d.items()))`
unfoldable pub insert_item {ℓ} : {A : Type ℓ} → String → A → Dict String A → Dict String A
unfolding before
insert_item k v [] = (k, v) ∷ []
insert_item k v ((j, w) ∷ d) =
    let rest = insert_item k v d in if before j k then (j, w) ∷ rest else (k, v) ∷ (j, w) ∷ d

unfoldable pub sorted_items {ℓ} : {A : Type ℓ} → Dict String A → Dict String A
unfolding insert_item
sorted_items [] = []
sorted_items ((k, v) ∷ d) = insert_item k v (sorted_items d)

abbrev pub is_nil {ℓ} : {A : Type ℓ} → List A → Bool
is_nil [] = true
is_nil (_ ∷ _) = false

abbrev pub dropped : Flags → Flags
dropped f = record f { dropped_records = suc f.dropped_records }

abbrev pub failed_export : Flags → Flags
failed_export f = record f { exporter_error = true }

module _ {Q : Type 0} where
  -- `d.setdefault(name, EndpointMeasurements())`
  unfoldable pub get_or_none :
      String → Dict String (EndpointMeasurements Q) → EndpointMeasurements Q
  unfolding lookup
  get_or_none name d = elim (lookup name d) [ none ↦ no_measurements | some m ↦ m ]

  -- `self._summary.setdefault(name, EndpointMeasurements()).merge(metrics)` for each of the interval.
  unfoldable pub absorb :
      Dict String (EndpointMeasurements Q)
      → Dict String (EndpointMeasurements Q)
      → Dict String (EndpointMeasurements Q)
  unfolding get_or_none insert merge
  absorb totals [] = totals
  absorb totals ((name, m) ∷ rest) =
      absorb (insert name (merge (get_or_none name totals) m) totals) rest

  -- `put_nowait` on a queue of that capacity: `none` where it raises `queue.Full`.
  unfoldable pub put_nowait :
      ℕ → ExportRecord Q → List (ExportRecord Q) → Option (List (ExportRecord Q))
  put_nowait capacity r queue =
      if ltb (length queue) capacity then some (queue ++ (r ∷ [])) else none

  -- `get_nowait` and another `put_nowait`.
  unfoldable pub replace_oldest :
      ℕ → ExportRecord Q → List (ExportRecord Q) → Flags → List (ExportRecord Q) × Flags
  unfolding put_nowait
  replace_oldest capacity r [] f = ([], failed_export f)
  replace_oldest capacity r (oldest ∷ queue) f = elim (put_nowait capacity r queue) [
    | some queue' ↦ (queue', f)
    | none ↦ (queue, failed_export f)
  ]

  -- What `_enqueue` makes of the queue and the flags.
  unfoldable pub offer :
      ℕ → Bool → ExportRecord Q → List (ExportRecord Q) → Flags → List (ExportRecord Q) × Flags
  unfolding put_nowait replace_oldest
  offer capacity priority r queue f = elim (put_nowait capacity r queue) [
    | some queue' ↦ (queue', f)
    | none ↦ if priority then replace_oldest capacity r queue (dropped f) else (queue, dropped f)
  ]

  -- `_enqueue`
  unfoldable pub enqueue : ExportRecord Q → Bool → Recorder Q → Recorder Q
  unfolding offer
  enqueue r priority s = record s {
    queue = (offer s.settings.queue_capacity priority r s.queue s.flags).0;
    flags = (offer s.settings.queue_capacity priority r s.queue s.flags).1;
  }

  -- The measurements of the interval join the totals.
  unfoldable pub rolled_over : ℕ → Recorder Q → Recorder Q
  unfolding absorb update
  rolled_over now s = record s {
    sequence = suc s.sequence;
    summary = absorb s.summary s.interval;
    app_summary = update s.app_summary s.app_interval;
    interval = [];
    app_interval = [];
    interval_started_at = now;
  }

  -- The record of an interval, unless there are as many as the setting allows.
  unfoldable pub report : ExportRecord Q → Recorder Q → Recorder Q
  unfolding enqueue
  report r s =
      if leb s.settings.max_interval_records s.interval_records
      then record s { flags = truncated (dropped s.flags) }
      else enqueue r false (record s { interval_records = suc s.interval_records })

  -- `flush`
  unfoldable pub flush : Bool → ℕ → Recorder Q → Recorder Q
  unfolding rolled_over report sorted_items
  flush force now s =
      if not s.safe_output
      then s
      else if is_nil s.interval && is_nil s.app_interval
      then record s { interval_started_at = now }
      else if not force && ltb (now - s.interval_started_at) s.settings.reporting_interval
      then s
      else report
          (interval_record (suc s.sequence) (sorted_items s.app_interval) (sorted_items s.interval))
          (rolled_over now s)

  -- `_flush_if_due`; the setting is positive.
  unfoldable pub flush_if_due : ℕ → Recorder Q → Recorder Q
  unfolding flush
  flush_if_due now s =
      if leb s.settings.reporting_interval (now - s.interval_started_at)
      then flush false now s
      else s

  -- `active`
  abbrev pub is_active : Recorder Q → Bool
  is_active s = s.settings.enabled && (s.safe_output && not s.finished)

  -- The `run_summary` record; the versions, settings and times are left out.
  unfoldable pub summary_of : String → Option CollectionError → Recorder Q → Summary Q
  unfolding sorted_items error_category
  summary_of state error s = record {
    collection_state = state;
    telemetry_state = "complete";
    failure_category = elim error [ none ↦ none | some e ↦ some (error_category e) ];
    application_streams = sorted_items s.app_summary;
    endpoints = sorted_items s.summary;
    export = s.flags;
  }

  -- The recorder once `finish` has flushed.
  unfoldable pub closed : ℕ → Recorder Q → Recorder Q
  unfolding flush
  closed now s = flush true now (record s { finished = true })

  -- `finish`
  unfoldable pub finish : String → Option CollectionError → ℕ → Recorder Q → Recorder Q
  unfolding closed enqueue summary_of
  finish state error now s =
      if s.finished
      then s
      else if not s.safe_output
      then record s { finished = true }
      else enqueue (run_summary (summary_of state error (closed now s))) true (closed now s)

  -- `__init__`, whose first record is `run_start`, where the output is safe.
  unfoldable pub started : RecorderSettings → Bool → ℕ → Recorder Q
  unfolding enqueue
  started settings safe_output now =
      let fresh : Recorder Q = record {
        settings = settings;
        safe_output = safe_output;
        finished = false;
        interval = [];
        summary = [];
        app_interval = [];
        app_summary = [];
        sequence = 0;
        interval_records = 0;
        interval_started_at = now;
        flags = record {
          dropped_records = 0;
          output_truncated = false;
          exporter_error = not safe_output;
        };
        queue = [];
      } in
      if safe_output then enqueue run_start true fresh else fresh

  -- `template` is `normalize_endpoint_template`.
  module _ (template : String → String) where
    -- A change of `_aggregate(endpoint)`.
    unfoldable pub aggregate :
        String → (EndpointMeasurements Q → EndpointMeasurements Q) → Recorder Q → Recorder Q
    unfolding get_or_none insert
    aggregate endpoint change s = record s {
      interval =
          insert (template endpoint) (change (get_or_none (template endpoint) s.interval))
            s.interval;
    }

    -- What an operation does while the recorder is active, at that time.
    unfoldable pub measure_active : Measure Q → ℕ → Recorder Q → Recorder Q
    unfolding aggregate flush_if_due add_wait add_response add_transport_error add_retry
        add_retry_wait add_page count_up
    measure_active (throttle_wait endpoint wait) now s =
        flush_if_due now (aggregate endpoint (add_wait (some wait)) s)
    measure_active (http_response endpoint status_code duration quota wait group) now s =
        flush_if_due now (aggregate endpoint (add_response status_code duration quota wait group) s)
    measure_active (transport_error endpoint error duration wait group) now s =
        flush_if_due now (aggregate endpoint (add_transport_error error duration wait group) s)
    measure_active (retry endpoint category delay) now s =
        aggregate endpoint (add_retry category delay) s
    measure_active (retry_wait endpoint duration) now s =
        aggregate endpoint (add_retry_wait duration) s
    measure_active (page endpoint row_count) now s = aggregate endpoint (add_page row_count) s
    measure_active (application_stream state) now s = record s {
      app_interval = count_up state s.app_interval;
    }

    unfoldable pub measure : Measure Q → ℕ → Recorder Q → Recorder Q
    unfolding measure_active
    measure m now s = if is_active s then measure_active m now s else s
