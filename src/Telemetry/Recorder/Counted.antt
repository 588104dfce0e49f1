-- ===== src/Telemetry/Recorder/Counted.antt =====
-- The summary that `finish` queues counts every measurement.
use openhound_okta.Base.{
  ℕ, suc, ◌+◌, ◌≡◌, ◌≤◌, ◌<◌, refl, ap, ◌∙◌, true, false, Option, String, List, [], ◌∷◌, ◌++◌, ltb,
  length, arith, Bool-cases, inl, inr,
}
use openhound_okta.Telemetry.Measurements.{EndpointMeasurements}
use openhound_okta.Telemetry.Templates.{CollectionError}
use openhound_okta.Telemetry.Export.{ExportRecord, interval_record, run_summary, Summary, Flags}
use openhound_okta.Telemetry.Recorder.{
  Recorder, Measure, throttle_wait, http_response, transport_error, retry, retry_wait, page,
  application_stream, no_measurements,
}
use openhound_okta.Telemetry.Recorder.Steps.{
  report, rolled_over, summary_of, closed, sorted_items, put_nowait, offer, replace_oldest, enqueue,
  flush, flush_if_due, is_active, aggregate, measure_active, measure, finish, is_nil,
}
use openhound_okta.Telemetry.Recorder.Totals.{
  IsAdditive, total_of, total_of-sorted_items, measured, measured-aggregate, measured-flush,
}
use openhound_okta.Telemetry.Recorder.Runs.{
  RecorderEvent, measuring, flushing, taking, change_of, Counts, gained, take_record, Works,
  step_event, run_events, run_events-Works, step_event-Works, flush-Works,
}

module _ {Q : Type 0} (w : EndpointMeasurements Q → ℕ) (gain : Measure Q → ℕ)
    (counts : Counts w gain) where
  measured-flush_if_due :
      (now : ℕ) (s : Recorder Q) → measured w (flush_if_due now s) ≡ measured w s
  unfolding flush_if_due
  measured-flush_if_due now s = ground (arith, measured-flush w counts.additive false now s)

  module _ (template : String → String) where
    aggregated :
        (endpoint : String) (m : Measure Q) (s : Recorder Q)
        → measured w (aggregate template endpoint (change_of m) s) ≡ measured w s + gain m
    aggregated endpoint m s =
        measured-aggregate w counts.additive template endpoint (change_of m) (gain m) s
          (counts.counted m)

    aggregated_and_flushed :
        (endpoint : String) (m : Measure Q) (now : ℕ) (s : Recorder Q)
        → measured w (flush_if_due now (aggregate template endpoint (change_of m) s))
          ≡ measured w s + gain m
    aggregated_and_flushed endpoint m now s =
        measured-flush_if_due now (aggregate template endpoint (change_of m) s)
        ∙ aggregated endpoint m s

    measured-measure_active :
        (m : Measure Q) (now : ℕ) (s : Recorder Q)
        → measured w (measure_active template m now s) ≡ measured w s + gain m
    unfolding measure_active
    measured-measure_active (throttle_wait endpoint wait) now s =
        aggregated_and_flushed endpoint (throttle_wait endpoint wait) now s
    measured-measure_active (http_response endpoint status duration quota wait group) now s =
        aggregated_and_flushed endpoint (http_response endpoint status duration quota wait group)
          now s
    measured-measure_active (transport_error endpoint error duration wait group) now s =
        aggregated_and_flushed endpoint (transport_error endpoint error duration wait group) now s
    measured-measure_active (retry endpoint category delay) now s =
        aggregated endpoint (retry endpoint category delay) s
    measured-measure_active (retry_wait endpoint duration) now s =
        aggregated endpoint (retry_wait endpoint duration) s
    measured-measure_active (page endpoint rows) now s = aggregated endpoint (page endpoint rows) s
    measured-measure_active (application_stream state) now s =
        omega (arith, counts.counted (application_stream state) no_measurements)

    measured-step_event :
        (e : RecorderEvent Q) (es : List (RecorderEvent Q)) (s : Recorder Q)
        → Works s
        → measured w (step_event template e s) + gained gain es
          ≡ measured w s + gained gain (e ∷ es)
    unfolding step_event measure take_record
    measured-step_event (measuring m now) es s h =
        rw h.active (omega (arith, measured-measure_active m now s))
    measured-step_event (flushing force now) es s h =
        omega (arith, measured-flush w counts.additive force now s)
    measured-step_event taking es s h = refl

    -- What a run gains is in the totals and the interval.
    measured-run_events :
        (es : List (RecorderEvent Q)) (s : Recorder Q)
        → Works s
        → measured w (run_events template es s) ≡ measured w s + gained gain es
    unfolding run_events
    measured-run_events [] s h = omega arith
    measured-run_events (e ∷ es) s h =
        measured-run_events es (step_event template e s) (step_event-Works template e s h)
        ∙ measured-step_event e es s h

nil_path {ℓ} : {A : Type ℓ} (xs : List A) → is_nil xs ≡ true → xs ≡ []
nil_path [] h = refl
nil_path (x ∷ xs) h = cc

module _ {Q : Type 0} where
  -- The last record of the queue is a summary.
  abbrev pub EndsWithSummary : Summary Q → Recorder Q → Type 0
  EndsWithSummary totals s =
      (before : List (ExportRecord Q)) × (s.queue ≡ before ++ (run_summary totals ∷ []))

  -- A record of priority is queued, at the cost of the oldest if need be.
  offer_priority :
      (capacity : ℕ) (r : ExportRecord Q) (queue : List (ExportRecord Q)) (f : Flags)
      → 0 < capacity
      → length queue ≤ capacity
      → (before : List (ExportRecord Q)) × ((offer capacity true r queue f).0 ≡ before ++ (r ∷ []))
  unfolding offer put_nowait replace_oldest
  offer_priority capacity r [] f room bounded = ([], ground arith)
  offer_priority capacity r (oldest ∷ queue) f room bounded =
      elim (Bool-cases (ltb (suc (length queue)) capacity)) [
        | inl fits ↦ (oldest ∷ queue, ground arith)
        | inr is_full ↦ (queue, ground arith)
      ]

  report-interval : (r : ExportRecord Q) (s : Recorder Q) → (report r s).interval ≡ s.interval
  unfolding report enqueue
  report-interval r s = ground arith

  rolled_over-interval : (now : ℕ) (s : Recorder Q) → (rolled_over now s).interval ≡ []
  unfolding rolled_over
  rolled_over-interval now s = refl

  flush_empties :
      (now : ℕ) (s : Recorder Q) → s.safe_output ≡ true → (flush true now s).interval ≡ []
  unfolding flush
  flush_empties now s h = ground (
    arith,
    nil_path s.interval,
    report-interval
        (interval_record (suc s.sequence) (sorted_items s.app_interval) (sorted_items s.interval))
        (rolled_over now s),
    rolled_over-interval now s,
  )

  flush-safe_output :
      (now : ℕ) (s : Recorder Q) → s.safe_output ≡ true → (flush true now s).safe_output ≡ true
  unfolding flush report rolled_over enqueue
  flush-safe_output now s h = ground arith

  active_lem : (s : Recorder Q) → is_active s ≡ true → (s.safe_output ≡ true) × (s.finished ≡ false)
  active_lem s h = (ground arith, ground arith)

  -- What `finish` flushes has the queue and the settings of a flush.
  closed_lem :
      (now : ℕ) (s : Recorder Q)
      → ((closed now s).queue ≡ (flush true now s).queue)
        × ((closed now s).settings ≡ (flush true now s).settings)
  unfolding closed flush report rolled_over enqueue
  closed_lem now s = (ground arith, ground arith)

  flush-settings : (now : ℕ) (s : Recorder Q) → (flush true now s).settings ≡ s.settings
  unfolding flush report rolled_over enqueue
  flush-settings now s = ground arith

  finish_lem :
      (state : String) (error : Option CollectionError) (now : ℕ) (s : Recorder Q)
      → is_active s ≡ true
      → finish state error now s
        ≡ enqueue (run_summary (summary_of state error (closed now s))) true (closed now s)
  unfolding finish
  finish_lem state error now s h = ground (arith, active_lem s h)

  closed-bounded :
      (now : ℕ) (s : Recorder Q)
      → Works s
      → length (closed now s).queue ≤ (closed now s).settings.queue_capacity
  closed-bounded now s h =
      let (queue, settings) = closed_lem now s in
      rw (queue, settings) (flush-Works true now s h).bounded

  pub finish_queues :
      (state : String) (error : Option CollectionError) (now : ℕ) (s : Recorder Q)
      → Works s
      → EndsWithSummary (summary_of state error (closed now s)) (finish state error now s)
  unfolding enqueue
  finish_queues state error now s h =
      let settings = (closed_lem now s).1 ∙ flush-settings now s in
      let (before, ends) =
        offer_priority (closed now s).settings.queue_capacity
          (run_summary (summary_of state error (closed now s))) (closed now s).queue
          (closed now s).flags (ground (arith, h.roomy, ap (λ x. x.queue_capacity) settings))
          (closed-bounded now s h) in
      (before, ap (λ x. x.queue) (finish_lem state error now s h.active) ∙ ends)

  -- The totals have all that was measured.
  closed_adds_up :
      (w : EndpointMeasurements Q → ℕ) (additive : IsAdditive w) (now : ℕ) (s : Recorder Q)
      → s.safe_output ≡ true
      → total_of w (closed now s).summary ≡ measured w s
  unfolding closed
  closed_adds_up w additive now s h =
      let t = record s { finished = true } in
      omega (arith, measured-flush w additive true now t, ap (total_of w) (flush_empties now t h))

  pub summary_adds_up :
      (w : EndpointMeasurements Q → ℕ) (gain : Measure Q → ℕ) (counts : Counts w gain)
      (template : String → String) (es : List (RecorderEvent Q)) (s : Recorder Q) (state : String)
      (error : Option CollectionError) (now : ℕ)
      → Works s
      → total_of w (summary_of state error (closed now (run_events template es s))).endpoints
        ≡ measured w s + gained gain es
  unfolding summary_of
  summary_adds_up w gain counts template es s state error now h =
      let end = run_events template es s in
      total_of-sorted_items w (closed now end).summary
      ∙ closed_adds_up w counts.additive now end
          (active_lem end (run_events-Works template es s h).active).0
      ∙ measured-run_events w gain counts template es s h
