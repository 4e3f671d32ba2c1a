-- ===== src/Store/Statements.antt =====
-- The SQL statements of `insertEvent` in internal/store/events.go, each as a function on the
-- database with the constraints of migrations/001_*.sql that it can break.
use traceboard.Prelude.{
  ℕ, ◌+◌, Bool, false, Option, none, some, [], ◌∷◌, ◌++◌, ◌==◌, ◌&&◌, ◌||◌, not, eqb, find_row,
  exists_row, update_rows, if◌then◌else◌,
}
use traceboard.Event.Validate.{is_capture_mode}
use traceboard.Store.{
  Db, Result, ok, err, constraint, run_not_found, StoredEvent, SourceRow, RunRow, StepRow, EventRow,
}
use traceboard.Store.Summary.{apply_to_run, apply_to_step, capture_mode_of, nullable}

module _ (stored : StoredEvent) where
  unfoldable pub new_source : SourceRow
  unfolding capture_mode_of
  new_source = record {
    name = stored.source;
    source_version = stored.source_version;
    capture_mode = capture_mode_of stored;
    connected = false;
    last_heartbeat_at = none;
    created_at = stored.received_at;
    updated_at = stored.received_at;
  }

  unfoldable pub refresh_source : SourceRow → SourceRow
  unfolding capture_mode_of
  refresh_source row = record row {
    source_version =
        if stored.source_version == "" then row.source_version else stored.source_version;
    capture_mode = capture_mode_of stored;
    updated_at = stored.received_at;
  }

  -- ensureSource, with the CHECKs on `name` and `capture_mode`.
  unfoldable pub ensure_source : Db → Result Db
  unfolding new_source refresh_source
  ensure_source db =
      if not (is_capture_mode (capture_mode_of stored))
      then err (constraint "sources.capture_mode")
      else if exists_row (λ row. row.name == stored.source) db.sources
      then ok (record db {
        sources = update_rows (λ row. row.name == stored.source) refresh_source db.sources;
      })
      else if stored.source == ""
      then err (constraint "sources.name")
      else ok (record db { sources = db.sources ++ (new_source ∷ []) })

  unfoldable pub new_run : RunRow
  new_run = record {
    id = stored.run_id;
    source = stored.source;
    project_id = none;
    parent_run_id = none;
    title = none;
    status = "unknown";
    started_at = none;
    ended_at = none;
    last_event_at = some stored.occurred_at;
    event_count = 0;
    error_count = 0;
    next_sequence = 1;
    capture_modes = [];
    created_at = stored.received_at;
    updated_at = stored.received_at;
  }

  -- ensureRun, with the CHECK on `id`.
  unfoldable pub ensure_run : Db → Result Db
  unfolding new_run
  ensure_run db =
      if exists_row (λ row. row.id == stored.run_id) db.runs
      then ok db
      else if stored.run_id == ""
      then err (constraint "runs.id")
      else ok (record db { runs = db.runs ++ (new_run ∷ []) })

  unfoldable pub take_sequence : RunRow → RunRow
  take_sequence row = record row {
    next_sequence = row.next_sequence + 1;
    updated_at = stored.received_at;
  }

  unfoldable pub allocated : Db → Option RunRow → Result (ℕ × Db)
  unfolding take_sequence
  allocated db none = err run_not_found
  allocated db (some row) = ok (
    row.next_sequence,
    record db { runs = update_rows (λ r. r.id == stored.run_id) take_sequence db.runs },
  )

  -- allocateRunSequence: RETURNING next_sequence - 1 is the value before the update.
  unfoldable pub allocate_run_sequence : Db → Result (ℕ × Db)
  unfolding allocated
  allocate_run_sequence db = allocated db (find_row (λ r. r.id == stored.run_id) db.runs)

  unfoldable pub is_step : StepRow → Bool
  is_step row = row.run_id == stored.run_id && row.id == stored.step_id

  unfoldable pub new_step : StepRow
  unfolding nullable
  new_step = record {
    run_id = stored.run_id;
    id = stored.step_id;
    parent_step_id = nullable stored.parent_step_id;
    type = stored.type;
    status = stored.status;
    started_at = none;
    ended_at = none;
    created_at = stored.received_at;
    updated_at = stored.received_at;
  }

  -- updateStep: INSERT … ON CONFLICT DO NOTHING, and then the UPDATE.
  unfoldable pub update_step : Db → Db
  unfolding is_step new_step apply_to_step
  update_step db =
      if stored.step_id == ""
      then db
      else if exists_row is_step db.steps
      then record db { steps = update_rows is_step (apply_to_step stored) db.steps }
      else record db {
        steps = update_rows is_step (apply_to_step stored) (db.steps ++ (new_step ∷ []));
      }

  -- updateRun
  unfoldable pub update_run : Db → Db
  update_run db = record db {
    runs = update_rows (λ row. row.id == stored.run_id) (apply_to_run stored) db.runs;
  }

  -- The UNIQUE and CHECK constraints of the table `events`.
  unfoldable pub check_row : Db → EventRow → Result Db
  check_row db row =
      if (row.event_id == "" || row.source_event_id == "") || (row.type == "" || eqb row.sequence 0)
      then err (constraint "events check")
      else if exists_row (λ e. e.event_id == row.event_id) db.events
      then err (constraint "events.event_id")
      else if exists_row (λ e. e.source == row.source && e.source_event_id == row.source_event_id)
          db.events
      then err (constraint "events.source, events.source_event_id")
      else if exists_row (λ e. e.run_id == row.run_id && eqb e.sequence row.sequence) db.events
      then err (constraint "events.run_id, events.sequence")
      else ok (record db { events = db.events ++ (row ∷ []) })
