-- ===== src/Telemetry/Export.antt =====
-- The records that telemetry.py exports, and `_writer_loop`, which writes them to a file of bounded size.
-- Opening the file, encoding and writing succeed here: the handler of `_writer_loop` for `OSError`,
-- `ValueError` and `TypeError`, which drains the queue and writes nothing more, is not modelled.
pub mod Bounds
pub mod Complete
use openhound_okta.Base.{
  ℕ, zero, ◌+◌, ◌-◌, ◌*◌, Bool, true, false, ◌&&◌, ◌||◌, not, Option, none, some, String, List, [],
  ◌∷◌, ◌++◌, ltb, ◌==◌, string_eq, nat_eq, if◌then◌else◌,
}
use openhound_okta.Base.Dict.{Dict}
use openhound_okta.Telemetry.Measurements.{EndpointMeasurements}

-- `MIN_MAX_FILE_BYTES`, `SUMMARY_RESERVE_BYTES`
abbrev pub min_max_file_bytes : ℕ
min_max_file_bytes = 64 * 1024

abbrev pub summary_reserve_bytes : ℕ
summary_reserve_bytes = 32 * 1024

-- What threads share: `_dropped_records`, `_output_truncated`, `_exporter_error`.
pub record Flags : Type 0 where
  pub dropped_records : ℕ
  pub output_truncated : Bool
  pub exporter_error : Bool

-- A `run_summary` record; versions, settings and times are left out.
pub record Summary (Q : Type 0) : Type 0 where
  pub collection_state : String
  pub telemetry_state : String
  pub failure_category : Option String
  pub application_streams : Dict String ℕ
  pub endpoints : Dict String (EndpointMeasurements Q)
  pub export : Flags

-- A record of the queue, by its `record_type`.
pub data ExportRecord (Q : Type 0) : Type 0 where
  run_start : ExportRecord Q
  interval_record : ℕ → Dict String ℕ → Dict String (EndpointMeasurements Q) → ExportRecord Q
  run_summary : Summary Q → ExportRecord Q

-- A line of the file: a record, the status that says that the output is truncated, or a summary cut short.
pub data Line (Q : Type 0) : Type 0 where
  full : ExportRecord Q → Line Q
  export_status : Line Q
  short_summary : Summary Q → Line Q

-- The locals of `_writer_loop` and the lines that were written.
pub record Writer (Q : Type 0) : Type 0 where
  pub file : List (Line Q)
  pub bytes_written : ℕ
  pub truncation_written : Bool

abbrev pub opened : {Q : Type 0} → Writer Q
opened = record { file = []; bytes_written = 0; truncation_written = false }

abbrev pub truncated : Flags → Flags
truncated f = record {
  dropped_records = f.dropped_records;
  output_truncated = true;
  exporter_error = f.exporter_error;
}

-- Something kept the export from being complete.
unfoldable pub is_incomplete : String → Flags → Bool
is_incomplete collection_state f =
    not (collection_state == "complete")
    || (not (f.dropped_records == 0) || (f.output_truncated || f.exporter_error))

module _ {Q : Type 0} where
  -- The summary with what is known when it is written.
  unfoldable pub stamped : Flags → Summary Q → Summary Q
  unfolding is_incomplete
  stamped f s = record {
    collection_state = s.collection_state;
    telemetry_state = if is_incomplete s.collection_state f then "incomplete" else "complete";
    failure_category = s.failure_category;
    application_streams = s.application_streams;
    endpoints = s.endpoints;
    export = f;
  }

  -- The summary without its measurements.
  unfoldable pub shortened : Flags → Summary Q → Summary Q
  shortened f s = record {
    collection_state = s.collection_state;
    telemetry_state = "incomplete";
    failure_category = none;
    application_streams = [];
    endpoints = [];
    export = truncated f;
  }

  abbrev pub is_summary : ExportRecord Q → Bool
  is_summary run_start = false
  is_summary (interval_record _ _ _) = false
  is_summary (run_summary _) = true

  -- `size` is the length of a line in the file, `max_file_bytes` the setting.
  module _ (size : Line Q → ℕ) (max_file_bytes : ℕ) where
    unfoldable pub write_line : Line Q → Writer Q → Writer Q
    write_line line w = record {
      file = w.file ++ (line ∷ []);
      bytes_written = w.bytes_written + size line;
      truncation_written = w.truncation_written;
    }

    -- The status, once.
    unfoldable pub write_status : Writer Q → Writer Q
    unfolding write_line
    write_status w = if w.truncation_written then w else record {
      file = (write_line export_status w).file;
      bytes_written = (write_line export_status w).bytes_written;
      truncation_written = true;
    }

    -- A summary: as it is, or cut short, or not at all.
    unfoldable pub write_summary : Summary Q → Flags → Writer Q → Flags × Writer Q
    unfolding write_line stamped shortened
    write_summary s f w =
        if ltb max_file_bytes (w.bytes_written + size (full (run_summary (stamped f s))))
        then (
          truncated f,
          (if ltb max_file_bytes (w.bytes_written + size (short_summary (shortened f s)))
              then w
              else write_line (short_summary (shortened f s)) w),
        )
        else (f, write_line (full (run_summary (stamped f s))) w)

    -- Another record, which leaves room for the summary.
    unfoldable pub write_data : ExportRecord Q → Flags → Writer Q → Flags × Writer Q
    unfolding write_line write_status
    write_data r f w =
        if ltb (max_file_bytes - summary_reserve_bytes) (w.bytes_written + size (full r))
        then (truncated f, write_status w)
        else (if ltb max_file_bytes (w.bytes_written + size (full r))
            then (truncated f, w)
            else (f, write_line (full r) w))

    -- One turn of the loop of `_writer_loop` with a record from the queue.
    unfoldable pub write : ExportRecord Q → Flags × Writer Q → Flags × Writer Q
    unfolding write_summary write_data
    write (run_summary s) (f, w) = write_summary s f w
    write run_start (f, w) = write_data run_start f w
    write (interval_record n apps endpoints) (f, w) =
        write_data (interval_record n apps endpoints) f w

    unfoldable pub write_all : List (ExportRecord Q) → Flags × Writer Q → Flags × Writer Q
    unfolding write
    write_all [] s = s
    write_all (r ∷ rs) s = write_all rs (write r s)
