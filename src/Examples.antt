-- ===== src/Examples.antt =====
-- Concrete runs of the program: a sample platform and sample events, and what the theorems say of
-- them in the children.
mod StoreRuns
mod AlertRuns
mod IngestRuns
mod LiveRuns
mod AuthRuns
mod RedactRuns
mod PageRuns
mod SpoolRuns
mod PeriodRuns
mod EvaluateRuns
mod ListingRuns
mod SignalRuns
mod HookRuns
use traceboard.Prelude.{
  ℕ, String, Bool, true, false, Option, none, some, List, [], ◌∷◌, ◌≡◌, refl, exists_row, find_row,
  update_rows,
}
use traceboard.Event.{Value, null, text, obj, Fields, end, field, Event, Instant}
use traceboard.Event.Maps
use traceboard.Store.Insert.{
  finish, insert_loop, insert_one, insert_prepared, is_stored, encoded, event_row, insert_event,
  insert_new, quarantine_event, quarantine_payload, searchable_text, insert_events,
}
use traceboard.Store.Prepare.{
  prepare_event, prepare_checked, check_event, redacted_json_map, redacted_raw, redacted_event,
  redact_event, redacted_string,
}
use traceboard.Event.Validate.{validate, capture_mode, is_capture_mode, valid_status}
use traceboard.Event.EventType.{contains_text}
use traceboard.Platform.{Platform, redact_default}
use traceboard.Redact.Keys.{next_candidate, unique_map_key}
use traceboard.Redact.{
  apply, apply_string, apply_value, build_map, child_field, marker, pending_entry, reserved_keys,
  rules_or_default, sort_entries, splice,
}
use traceboard.Store.Statements.{
  allocate_run_sequence, allocated, check_row, ensure_run, ensure_source, is_step, new_run,
  new_source, new_step, refresh_source, take_sequence, update_run, update_step,
}
use traceboard.Store.Summary.{
  apply_to_run, apply_to_step, capture_mode_of, earliest, is_before, latest, merge_capture_modes,
  next_status, nullable, run_terminal_status, terminal_status,
}
use traceboard.Store.{Db, empty_db, Result, ok, err}

-- A platform whose patterns match nothing and whose JSON is one fixed text.
abbrev pub platform : Platform
platform = record {
  regexp = record { compiles = λ e. true; quote_meta = λ s. s; find_all = λ e s. [] };
  formats = record { candidate = λ k n. k; index_path = λ k n. k };
  marshal = λ v. some "{}";
  unmarshal = λ s. some (obj end);
  error_text = λ e. "refused";
}

abbrev pub clock : ℕ → Instant
clock n = 100

abbrev pub sample : String → String → Event
sample id type = record {
  schema_version = 1;
  event_id = id;
  source_event_id = id;
  source = "codex";
  source_version = "1.0";
  run_id = "run_1";
  step_id = "";
  parent_step_id = "";
  source_sequence = none;
  occurred_at = 50;
  type = type;
  status = "started";
  capture = none;
  attributes = none;
  content = none;
  raw = null;
}

abbrev pub batch : List Event
batch = sample "evt_1" "run.started" ∷ sample "evt_2" "error.recorded" ∷ []

abbrev pub after : Db
after = (insert_events platform clock batch empty_db).1

unfoldable pub program : ℕ
unfolding Maps.insert Maps.keys Maps.lookup finish insert_loop insert_one insert_prepared is_stored
    encoded event_row insert_event insert_new quarantine_event quarantine_payload searchable_text
    insert_events prepare_event prepare_checked check_event redacted_json_map redacted_raw
    redacted_event redact_event redacted_string validate capture_mode is_capture_mode valid_status
    contains_text redact_default next_candidate unique_map_key apply apply_string apply_value
    build_map child_field marker pending_entry reserved_keys rules_or_default sort_entries splice
    allocate_run_sequence allocated check_row ensure_run ensure_source is_step new_run new_source
    new_step refresh_source take_sequence update_run update_step apply_to_run apply_to_step
    capture_mode_of earliest is_before latest merge_capture_modes next_status nullable
    run_terminal_status terminal_status exists_row find_row update_rows
program = 0
