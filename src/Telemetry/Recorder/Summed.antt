-- ===== src/Telemetry/Recorder/Summed.antt =====
-- Attempts, pages and rows from the start of a recorder to its summary.
use openhound_okta.Base.{ℕ, ◌+◌, ◌≡◌, ◌∙◌, ◌<◌, refl, true, Option, none, some, String, List, arith}
use openhound_okta.Telemetry.Measurements.{EndpointMeasurements, merge}
use openhound_okta.Telemetry.Templates.{CollectionError, normalize_endpoint_template}
use openhound_okta.Telemetry.Recorder.{
  ThrottleWait, RecorderSettings, Measure, throttle_wait, http_response, transport_error, retry,
  retry_wait, page, application_stream, add_wait, add_response, add_transport_error, add_retry,
  add_retry_wait, add_page,
}
use openhound_okta.Telemetry.Recorder.Steps.{
  enqueue, offer, put_nowait, closed, finish, started, summary_of,
}
use openhound_okta.Telemetry.Recorder.Totals.{total_of, measured}
use openhound_okta.Telemetry.Recorder.Runs.{
  RecorderEvent, change_of, Counts, gained, Works, run_events, run_events-Works,
}
use openhound_okta.Telemetry.Recorder.Counted.{EndsWithSummary, finish_queues, summary_adds_up}

from_nothing : (m n : ℕ) → m ≡ 0 → m + n ≡ n
from_nothing m n h = omega (arith, h)

module _ {Q : Type 0} where
  abbrev pub attempts_of : EndpointMeasurements Q → ℕ
  attempts_of m = m.attempts

  abbrev pub pages_of : EndpointMeasurements Q → ℕ
  pages_of m = m.pages_yielded

  abbrev pub row_count_of : EndpointMeasurements Q → ℕ
  row_count_of m = m.rows_yielded

  -- A response and a transport error are an attempt each.
  abbrev pub attempts_in : Measure Q → ℕ
  attempts_in (http_response endpoint status duration quota wait group) = 1
  attempts_in (transport_error endpoint error duration wait group) = 1
  attempts_in _ = 0

  abbrev pub pages_in : Measure Q → ℕ
  pages_in (page endpoint row_count) = 1
  pages_in _ = 0

  abbrev pub rows_in : Measure Q → ℕ
  rows_in (page endpoint (some row_count)) = row_count
  rows_in _ = 0

  add_wait_lem :
      (wait : Option ThrottleWait) (m : EndpointMeasurements Q)
      → (attempts_of (add_wait wait m) ≡ attempts_of m)
        × (pages_of (add_wait wait m) ≡ pages_of m)
        × (row_count_of (add_wait wait m) ≡ row_count_of m)
  unfolding add_wait
  add_wait_lem none m = (refl, refl, refl)
  add_wait_lem (some wait) m = (refl, refl, refl)

  counted_lem :
      (m : Measure Q) (x : EndpointMeasurements Q)
      → (attempts_of (change_of m x) ≡ attempts_of x + attempts_in m)
        × (pages_of (change_of m x) ≡ pages_of x + pages_in m)
        × (row_count_of (change_of m x) ≡ row_count_of x + rows_in m)
  unfolding add_response add_transport_error add_retry add_retry_wait add_page
  counted_lem (throttle_wait endpoint wait) x =
      let (attempts, pages, rows) = add_wait_lem (some wait) x in
      (omega (arith, attempts), omega (arith, pages), omega (arith, rows))
  counted_lem (http_response endpoint status duration quota wait group) x =
      let (attempts, pages, rows) = add_wait_lem wait x in
      (omega (arith, attempts), omega (arith, pages), omega (arith, rows))
  counted_lem (transport_error endpoint error duration wait group) x =
      let (attempts, pages, rows) = add_wait_lem wait x in
      (omega (arith, attempts), omega (arith, pages), omega (arith, rows))
  counted_lem (page endpoint none) x = (omega arith, omega arith, omega arith)
  counted_lem (page endpoint (some n)) x = (omega arith, omega arith, omega arith)
  counted_lem (retry endpoint category delay) x = (omega arith, omega arith, omega arith)
  counted_lem (retry_wait endpoint duration) x = (omega arith, omega arith, omega arith)
  counted_lem (application_stream state) x = (omega arith, omega arith, omega arith)

  attempts_count : Counts attempts_of attempts_in
  unfolding merge
  attempts_count = record {
    additive = record { nothing = refl; merged = λ m other. refl };
    counted = λ m x. (counted_lem m x).0;
  }

  pages_count : Counts pages_of pages_in
  unfolding merge
  pages_count = record {
    additive = record { nothing = refl; merged = λ m other. refl };
    counted = λ m x. (counted_lem m x).1;
  }

  rows_count : Counts row_count_of rows_in
  unfolding merge
  rows_count = record {
    additive = record { nothing = refl; merged = λ m other. refl };
    counted = λ m x. (counted_lem m x).2;
  }

  started-Works :
      (settings : RecorderSettings) (now : ℕ)
      → settings.enabled ≡ true
      → 0 < settings.queue_capacity
      → Works {Q = Q} (started settings true now)
  unfolding started enqueue offer put_nowait
  started-Works settings now enabled room = record {
    active = rw enabled refl;
    bounded = ground arith;
    roomy = room;
  }

  started_lem :
      (w : EndpointMeasurements Q → ℕ) (settings : RecorderSettings) (now : ℕ)
      → measured w (started {Q = Q} settings true now) ≡ 0
  unfolding started enqueue
  started_lem w settings now = refl

  -- From its start to the end of the run a recorder loses no measurement, whatever is flushed or taken from the queue in
  -- between and whatever records are dropped: `finish` queues a summary whose endpoints add up to every attempt, page and
  -- row that was recorded.
  pub summary_is_whole :
      (path_of : String → String) (settings : RecorderSettings) (start now : ℕ)
      (es : List (RecorderEvent Q)) (state : String) (error : Option CollectionError)
      → settings.enabled ≡ true
      → 0 < settings.queue_capacity
      → let s = run_events (normalize_endpoint_template path_of) es (started settings true start) in
        let totals = summary_of state error (closed now s) in
        EndsWithSummary totals (finish state error now s)
        × (total_of attempts_of totals.endpoints ≡ gained attempts_in es)
        × (total_of pages_of totals.endpoints ≡ gained pages_in es)
        × (total_of row_count_of totals.endpoints ≡ gained rows_in es)
  summary_is_whole path_of settings start now es state error enabled room =
      let first = started {Q = Q} settings true start in
      let works = started-Works settings start enabled room in
      let template = normalize_endpoint_template path_of in
      (
        finish_queues state error now (run_events template es first)
            (run_events-Works template es first works),
        summary_adds_up attempts_of attempts_in attempts_count template es first state error now
              works
            ∙ from_nothing (measured attempts_of first) (gained attempts_in es)
                (started_lem attempts_of settings start),
        summary_adds_up pages_of pages_in pages_count template es first state error now works
            ∙ from_nothing (measured pages_of first) (gained pages_in es)
                (started_lem pages_of settings start),
        summary_adds_up row_count_of rows_in rows_count template es first state error now works
            ∙ from_nothing (measured row_count_of first) (gained rows_in es)
                (started_lem row_count_of settings start),
      )
