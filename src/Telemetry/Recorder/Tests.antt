-- ===== src/Telemetry/Recorder/Tests.antt =====
-- Runs of a recorder with a small queue, and of the writer behind it.
use openhound_okta.Base.{
  ℕ, ◌≡◌, ◌≤◌, ◌⊎◌, refl, true, false, none, some, String, List, [], ◌∷◌, ◌++◌, map, total, arith,
  contains, string_eq, nat_eq,
}
use openhound_okta.Base.Int.{pos}
use openhound_okta.Telemetry.Templates.{
  endpoint_templates, collection_paths, normalize_endpoint_template,
  normalize_endpoint_template_lem,
}
use openhound_okta.Telemetry.Export.{
  ExportRecord, run_start, interval_record, run_summary, Summary, Flags, Line, full, opened,
  write_all, stamped,
}
use openhound_okta.Telemetry.Export.Bounds.{EndsWith, summary_is_written}
use openhound_okta.Telemetry.Export.Complete.{any_says_complete, to_line, complete_summary_is_true}
use openhound_okta.Telemetry.Recorder.{RecorderSettings, http_response, transport_error, page}
use openhound_okta.Telemetry.Templates.{read_timeout}
use openhound_okta.Telemetry.Recorder.Steps.{started, closed, finish, summary_of}
use openhound_okta.Telemetry.Recorder.Totals.{total_of}
use openhound_okta.Telemetry.Recorder.Runs.{
  RecorderEvent, measuring, flushing, taking, run_events, gained,
}
use openhound_okta.Telemetry.Recorder.Counted.{EndsWithSummary}
use openhound_okta.Telemetry.Recorder.Summed.{
  attempts_of, attempts_in, pages_of, pages_in, row_count_of, rows_in, summary_is_whole,
}

abbrev small : RecorderSettings
small = record {
  enabled = true;
  reporting_interval = 60;
  max_interval_records = 1;
  queue_capacity = 2;
}

abbrev events : List (RecorderEvent ℕ)
events =
    measuring (http_response "/api/v1/users/00u1" 200 (pos 5) 0 none none) 1
    ∷ flushing true 2
    ∷ measuring (transport_error "/api/v1/apps" read_timeout (pos 7) none none) 70
    ∷ measuring (page "/api/v1/apps" (some 20)) 71
    ∷ taking
    ∷ []

abbrev path_itself : String → String
path_itself s = s

summary_is_whole_example :
    let s = run_events (normalize_endpoint_template path_itself) events (started small true 0) in
    let totals = summary_of "complete" none (closed 80 s) in
    EndsWithSummary totals (finish "complete" none 80 s)
    × (total_of attempts_of totals.endpoints ≡ gained attempts_in events)
    × (total_of pages_of totals.endpoints ≡ gained pages_in events)
    × (total_of row_count_of totals.endpoints ≡ gained rows_in events)
summary_is_whole_example =
    summary_is_whole path_itself small 0 80 events "complete" none refl (omega arith)

attempts_are_two : gained attempts_in events ≡ 2
attempts_are_two = refl

normalize_endpoint_template_lem_example :
    (contains collection_paths
        (normalize_endpoint_template path_itself "/api/v1/users/00u1/factors")
      ≡ true)
    ⊎ (contains
          ("other" ∷ map (λ t. t.1) endpoint_templates)
          (normalize_endpoint_template path_itself "/api/v1/users/00u1/factors")
        ≡ true)
normalize_endpoint_template_lem_example =
    normalize_endpoint_template_lem path_itself "/api/v1/users/00u1/factors"

-- Every line has 100 bytes.
abbrev hundred : Line ℕ → ℕ
hundred line = 100

abbrev whole_run : Summary ℕ
whole_run = record {
  collection_state = "complete";
  telemetry_state = "complete";
  failure_category = none;
  application_streams = [];
  endpoints = [];
  export = record { dropped_records = 0; output_truncated = false; exporter_error = false };
}

abbrev clean_flags : Flags
clean_flags = record { dropped_records = 0; output_truncated = false; exporter_error = false }

abbrev queued : List (ExportRecord ℕ)
queued = run_start ∷ interval_record 1 [] [] ∷ []

summary_is_written_example :
    let w =
      (write_all hundred 65536 (queued ++ (run_summary whole_run ∷ [])) (clean_flags, opened)).1 in
    (total hundred w.file ≡ w.bytes_written)
    × (w.bytes_written ≤ 65536)
    × EndsWith hundred 65536 whole_run w
summary_is_written_example =
    summary_is_written hundred 65536 queued whole_run clean_flags (refl, (refl, tt)) (omega arith)
      (omega arith)

run_is_complete :
    any_says_complete
      (write_all hundred 65536
        (queued ++ (run_summary whole_run ∷ []))
        (clean_flags, opened)).1.file
    ≡ true
unfolding write_all string_eq nat_eq
run_is_complete = refl

complete_summary_is_true_example :
    ((write_all hundred 65536 (queued ++ (run_summary whole_run ∷ [])) (clean_flags, opened)).1.file
      ≡ map (to_line hundred 65536) queued
        ++ (full (run_summary (stamped clean_flags whole_run)) ∷ []))
    × (clean_flags.dropped_records ≡ 0)
    × (whole_run.collection_state ≡ "complete")
complete_summary_is_true_example =
    complete_summary_is_true hundred 65536 queued whole_run clean_flags (refl, (refl, tt))
      run_is_complete
