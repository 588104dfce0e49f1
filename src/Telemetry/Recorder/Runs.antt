-- ===== src/Telemetry/Recorder/Runs.antt =====
-- Runs of a recorder: every measurement ends in the summary, and the queue stays within its capacity.
use openhound_okta.Base.{
  ℕ, suc, ◌+◌, ◌-◌, ◌≡◌, ◌≤◌, ◌<◌, Bool, true, false, ◌&&◌, not, some, String, List, [], ◌∷◌, leb,
  ltb, if_keeps, length, length-append, arith,
}
use openhound_okta.Telemetry.Measurements.{EndpointMeasurements}
use openhound_okta.Telemetry.Export.{ExportRecord, Flags}
use openhound_okta.Telemetry.Recorder.{
  Recorder, Measure, throttle_wait, http_response, transport_error, retry, retry_wait, page,
  application_stream, add_wait, add_response, add_transport_error, add_retry, add_retry_wait,
  add_page,
}
use openhound_okta.Telemetry.Recorder.Steps.{
  put_nowait, offer, replace_oldest, enqueue, rolled_over, report, flush, flush_if_due, is_active,
  aggregate, measure_active, measure, is_nil,
}
use openhound_okta.Telemetry.Recorder.Totals.{IsAdditive}

-- A measurement, a flush by either thread, or a record taken by the writer.
pub data RecorderEvent (Q : Type 0) : Type 0 where
  measuring : Measure Q → ℕ → RecorderEvent Q
  flushing : Bool → ℕ → RecorderEvent Q
  taking : RecorderEvent Q

module _ {Q : Type 0} where
  -- The change that an operation makes to the measurements of its endpoint.
  abbrev pub change_of : Measure Q → EndpointMeasurements Q → EndpointMeasurements Q
  change_of (throttle_wait endpoint wait) x = add_wait (some wait) x
  change_of (http_response endpoint status duration quota wait group) x =
      add_response status duration quota wait group x
  change_of (transport_error endpoint error duration wait group) x =
      add_transport_error error duration wait group x
  change_of (retry endpoint category delay) x = add_retry category delay x
  change_of (retry_wait endpoint duration) x = add_retry_wait duration x
  change_of (page endpoint rows) x = add_page rows x
  change_of (application_stream state) x = x

  -- What an operation adds to a quantity.
  pub record Counts (w : EndpointMeasurements Q → ℕ) (gain : Measure Q → ℕ) : Type 0 where
    pub additive : IsAdditive w
    pub counted : (m : Measure Q) (x : EndpointMeasurements Q) → w (change_of m x) ≡ w x + gain m

  -- The sum of what the operations of a run add.
  abbrev pub gained : (Measure Q → ℕ) → List (RecorderEvent Q) → ℕ
  gained gain [] = 0
  gained gain (measuring m now ∷ es) = gain m + gained gain es
  gained gain (flushing force now ∷ es) = gained gain es
  gained gain (taking ∷ es) = gained gain es

  -- `queue.get`
  unfoldable pub take_record : Recorder Q → Recorder Q
  take_record s = record s { queue = elim s.queue [ [] ↦ [] | (_ ∷ queue) ↦ queue ] }

  -- The recorder works as long as it is not finished, and the queue is within its capacity.
  pub record Works (s : Recorder Q) : Type 0 where
    pub active : is_active s ≡ true
    pub bounded : length s.queue ≤ s.settings.queue_capacity
    pub roomy : 0 < s.settings.queue_capacity

  offer_bound :
      (capacity : ℕ) (priority : Bool) (r : ExportRecord Q) (queue : List (ExportRecord Q))
      (f : Flags)
      → length queue ≤ capacity
      → length (offer capacity priority r queue f).0 ≤ capacity
  unfolding offer put_nowait replace_oldest
  offer_bound capacity priority r [] f h =
      ground (arith, length-append {A = ExportRecord Q} [] (r ∷ []))
  offer_bound capacity priority r (x ∷ queue) f h =
      ground (arith, length-append queue (r ∷ []), length-append (x ∷ queue) (r ∷ []))

  enqueue-Works :
      (r : ExportRecord Q) (priority : Bool) (s : Recorder Q)
      → Works s
      → Works (enqueue r priority s)
  unfolding enqueue
  enqueue-Works r priority s h = record {
    active = h.active;
    bounded = offer_bound s.settings.queue_capacity priority r s.queue s.flags h.bounded;
    roomy = h.roomy;
  }

  report-Works : (r : ExportRecord Q) (s : Recorder Q) → Works s → Works (report r s)
  unfolding report
  report-Works r s h =
      if_keeps Works (leb s.settings.max_interval_records s.interval_records)
        (record { active = h.active; bounded = h.bounded; roomy = h.roomy })
        (enqueue-Works r false (record s { interval_records = suc s.interval_records })
          (record { active = h.active; bounded = h.bounded; roomy = h.roomy }))

  rolled_over-Works : (now : ℕ) (s : Recorder Q) → Works s → Works (rolled_over now s)
  unfolding rolled_over
  rolled_over-Works now s h = record { active = h.active; bounded = h.bounded; roomy = h.roomy }

  pub flush-Works : (force : Bool) (now : ℕ) (s : Recorder Q) → Works s → Works (flush force now s)
  unfolding flush
  flush-Works force now s h = if_keeps Works (not s.safe_output) h (
      if_keeps Works (is_nil s.interval && is_nil s.app_interval)
        (record { active = h.active; bounded = h.bounded; roomy = h.roomy })
        (if_keeps Works
          (not force && ltb (now - s.interval_started_at) s.settings.reporting_interval) h
          (report-Works _ (rolled_over now s) (rolled_over-Works now s h))))

  flush_if_due-Works : (now : ℕ) (s : Recorder Q) → Works s → Works (flush_if_due now s)
  unfolding flush_if_due
  flush_if_due-Works now s h =
      if_keeps Works (leb s.settings.reporting_interval (now - s.interval_started_at))
        (flush-Works false now s h) h

  shorter :
      {capacity : ℕ} (queue : List (ExportRecord Q))
      → length queue ≤ capacity
      → length (elim queue as (λ _. List (ExportRecord Q)) [ [] ↦ [] | (_ ∷ rest) ↦ rest ])
        ≤ capacity
  shorter [] h = h
  shorter (r ∷ queue) h = omega (arith, h)

  take_record-Works : (s : Recorder Q) → Works s → Works (take_record s)
  unfolding take_record
  take_record-Works s h = record {
    active = h.active;
    bounded = shorter s.queue h.bounded;
    roomy = h.roomy;
  }

  module _ (template : String → String) where
    unfoldable pub step_event : RecorderEvent Q → Recorder Q → Recorder Q
    unfolding measure flush take_record
    step_event (measuring m now) s = measure template m now s
    step_event (flushing force now) s = flush force now s
    step_event taking s = take_record s

    unfoldable pub run_events : List (RecorderEvent Q) → Recorder Q → Recorder Q
    unfolding step_event
    run_events [] s = s
    run_events (e ∷ es) s = run_events es (step_event e s)

    aggregate-Works :
        (endpoint : String) (change : EndpointMeasurements Q → EndpointMeasurements Q)
        (s : Recorder Q)
        → Works s
        → Works (aggregate template endpoint change s)
    unfolding aggregate
    aggregate-Works endpoint change s h = record {
      active = h.active;
      bounded = h.bounded;
      roomy = h.roomy;
    }

    measure_active-Works :
        (m : Measure Q) (now : ℕ) (s : Recorder Q)
        → Works s
        → Works (measure_active template m now s)
    unfolding measure_active
    measure_active-Works (throttle_wait endpoint wait) now s h =
        flush_if_due-Works now _ (aggregate-Works endpoint (add_wait (some wait)) s h)
    measure_active-Works (http_response endpoint status duration quota wait group) now s h =
        flush_if_due-Works now _
          (aggregate-Works endpoint (add_response status duration quota wait group) s h)
    measure_active-Works (transport_error endpoint error duration wait group) now s h =
        flush_if_due-Works now _
          (aggregate-Works endpoint (add_transport_error error duration wait group) s h)
    measure_active-Works (retry endpoint category delay) now s h =
        aggregate-Works endpoint (add_retry category delay) s h
    measure_active-Works (retry_wait endpoint duration) now s h =
        aggregate-Works endpoint (add_retry_wait duration) s h
    measure_active-Works (page endpoint rows) now s h = aggregate-Works endpoint (add_page rows) s h
    measure_active-Works (application_stream state) now s h = record {
      active = h.active;
      bounded = h.bounded;
      roomy = h.roomy;
    }

    pub step_event-Works : (e : RecorderEvent Q) (s : Recorder Q) → Works s → Works (step_event e s)
    unfolding step_event measure
    step_event-Works (measuring m now) s h =
        if_keeps Works (is_active s) (measure_active-Works m now s h) h
    step_event-Works (flushing force now) s h = flush-Works force now s h
    step_event-Works taking s h = take_record-Works s h

    pub run_events-Works :
        (es : List (RecorderEvent Q)) (s : Recorder Q) → Works s → Works (run_events es s)
    unfolding run_events
    run_events-Works [] s h = h
    run_events-Works (e ∷ es) s h = run_events-Works es (step_event e s) (step_event-Works e s h)
