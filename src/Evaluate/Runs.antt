-- ===== src/Evaluate/Runs.antt =====
-- internal/alerts/evaluator.go: the evaluation of the runs, which opens an alert for every failed run
-- that it lists, ends the silent ones, and resolves what has cleared; and a whole evaluation.
pub mod Untouched
use Prim.Native.String.{len, slice, ◌++◌ as concat}
use traceboard.Prelude.{
  ℕ, ◌-◌, String, Bool, true, false, Option, none, some, List, [], ◌∷◌, ◌++◌, ◌==◌, leb, ltb, not,
  if◌then◌else◌,
}
use traceboard.Event.{Instant}
use traceboard.Event.Status.{started, completed, failed, cancelled, incomplete}
use traceboard.Platform.{Platform}
use traceboard.Store.{Db, AlertRow, RunRow, Result, ok, err, StoreError}
use traceboard.Store.Alerts.{open_alert, resolve_alerts}
use traceboard.Store.Runs.{mark_run_incomplete}
use traceboard.Store.Listing.{Run, RunFilter, RunPage, no_filter, Queries, list_runs}
use traceboard.Evaluate.{Config, Pass, notify, evaluate_sources}

-- TypeRunFailed, TypeRunStalled and TypeRunIncomplete
abbrev pub type_run_failed : String
type_run_failed = "run_failed"

abbrev pub type_run_stalled : String
type_run_stalled = "run_stalled"

abbrev pub type_run_incomplete : String
type_run_incomplete = "run_incomplete"

-- What a pass over runs leaves: its error, the alerts that it notified of, the runs that it announced
-- as incomplete, and the database.
pub record RunPass : Type 0 where
  pub error : Option StoreError
  pub notified : List AlertRow
  pub incomplete : List String
  pub db : Db

abbrev pub quiet : Db → RunPass
quiet db = record { error = none; notified = []; incomplete = []; db = db }

abbrev pub stopped : StoreError → Db → RunPass
stopped e db = record { error = some e; notified = []; incomplete = []; db = db }

-- One part after another; an error ends the pass.
unfoldable pub after_pass : RunPass → (Db → RunPass) → RunPass
after_pass pass rest = elim pass.error [
  | some e ↦ pass
  | none ↦ record {
    error = (rest pass.db).error;
    notified = pass.notified ++ (rest pass.db).notified;
    incomplete = pass.incomplete ++ (rest pass.db).incomplete;
    db = (rest pass.db).db;
  }
]

-- truncate
unfoldable pub truncate : String → ℕ → String
truncate value limit = if leb (len value) limit then value else concat (slice value 0 limit) "…"

-- `rfc3339` is the text of an instant.
module _ (rfc3339 : Instant → String) (config : Config) (stalled_after : ℕ) where
  titled : Option String → String → Instant → String
  unfolding truncate
  titled none id now = concat "run " (concat id (concat " failed at " (rfc3339 now)))
  titled (some title) id now =
      if title == ""
      then concat "run " (concat id (concat " failed at " (rfc3339 now)))
      else concat "run " (concat id (concat " failed: " (truncate title 80)))

  -- failureMessage
  unfoldable pub failure_message : Run → Instant → String
  unfolding titled
  failure_message run now = titled run.title run.row.id now

  abbrev pub run_alert : String → String → String → AlertRow
  run_alert type id message = record {
    id = "";
    run_id = some id;
    source = none;
    type = type;
    message = message;
    created_at = 0;
    acknowledged_at = none;
    resolved_at = none;
  }

  -- OpenAlert, and the notification of what it opened.
  unfoldable pub opened_run_pass : Db → Result ((AlertRow × Bool) × Db) → RunPass
  unfolding notify
  opened_run_pass db (err e) = stopped e db
  opened_run_pass db (ok ((alert, created), after)) = record {
    error = none;
    notified = notify config alert created;
    incomplete = [];
    db = after;
  }

  unfoldable pub resolved_for : String → String → Instant → Db → Db
  resolved_for type id now db = (resolve_alerts type (some id) none now db).1

  -- One round over the runs of a terminal status; `store_now` is the clock of the store.
  unfoldable pub evaluate_terminal : Instant → Instant → String → Run → Db → RunPass
  unfolding opened_run_pass resolved_for failure_message after_pass
  evaluate_terminal now store_now status run db =
      let id = run.row.id in
      let opened =
        if status == failed
        then opened_run_pass db
            (open_alert store_now (run_alert type_run_failed id (failure_message run now)) db)
        else quiet db in
      after_pass opened (λ seen.
        let ended = resolved_for type_run_stalled id now seen in
        quiet (if status == failed then ended else resolved_for type_run_incomplete id now ended))

  -- The end of a round over a silent run, once its alert is opened.
  unfoldable pub marked_pass : Bool → String → Instant → Db → RunPass
  unfolding resolved_for
  marked_pass false id now db = quiet db
  marked_pass true id now db = record {
    error = none;
    notified = [];
    incomplete = id ∷ [];
    db = resolved_for type_run_incomplete id now db;
  }

  unfoldable pub evaluate_silent : Instant → Instant → Run → Instant → Db → RunPass
  unfolding opened_run_pass marked_pass after_pass
  evaluate_silent now store_now run last db =
      let id = run.row.id in
      let (marked, after) = mark_run_incomplete id now db in
      let message =
        concat "run " (concat id (concat " has received no event since " (rfc3339 last))) in
      after_pass
        (opened_run_pass after (open_alert store_now (run_alert type_run_stalled id message) after))
        (marked_pass marked id now)

  abbrev pub is_heard : Instant → Instant → Bool
  is_heard now last = ltb (now - stalled_after) last

  unfoldable pub evaluate_last : Instant → Instant → Run → Option Instant → Db → RunPass
  unfolding evaluate_silent
  evaluate_last now store_now run none db = quiet db
  evaluate_last now store_now run (some last) db =
      if is_heard now last then quiet db else evaluate_silent now store_now run last db

  -- The loop over the runs of a page.
  unfoldable pub evaluate_each : (Run → Db → RunPass) → List Run → Db → RunPass
  unfolding after_pass
  evaluate_each step [] db = quiet db
  evaluate_each step (run ∷ rest) db = after_pass (step run db) (evaluate_each step rest)

  unfoldable pub evaluate_page : (Run → Db → RunPass) → Result RunPage → Db → RunPass
  unfolding evaluate_each
  evaluate_page step (err e) db = stopped e db
  evaluate_page step (ok page) db = evaluate_each step page.runs db

  module _ (platform : Platform) (queries : Queries) where
    abbrev pub with_status : String → RunFilter
    with_status status = record no_filter { status = status }

    -- evaluateStalled
    unfoldable pub evaluate_stalled : Instant → Instant → Db → RunPass
    unfolding evaluate_page evaluate_last
    evaluate_stalled now store_now db =
        evaluate_page (λ run. evaluate_last now store_now run run.row.last_event_at)
          (list_runs platform queries (with_status started) "" 500 db) db

    -- The loop over the terminal statuses.
    unfoldable pub evaluate_statuses : Instant → Instant → List String → Db → RunPass
    unfolding evaluate_page evaluate_terminal after_pass
    evaluate_statuses now store_now [] db = quiet db
    evaluate_statuses now store_now (status ∷ rest) db =
        after_pass
          (evaluate_page (evaluate_terminal now store_now status)
            (list_runs platform queries (with_status status) "" 500 db) db)
          (evaluate_statuses now store_now rest)

    -- evaluateRuns
    unfoldable pub evaluate_runs : Instant → Instant → Db → RunPass
    unfolding evaluate_statuses evaluate_stalled after_pass
    evaluate_runs now store_now db =
        after_pass
          (evaluate_statuses now store_now (completed ∷ failed ∷ cancelled ∷ incomplete ∷ []) db)
          (evaluate_stalled now store_now)

    as_run_pass : Pass → RunPass
    as_run_pass pass = record {
      error = pass.error;
      notified = pass.notified;
      incomplete = [];
      db = pass.db;
    }

    -- Evaluate
    unfoldable pub evaluate : (String → ℕ → String) → Instant → Instant → Db → RunPass
    unfolding evaluate_runs as_run_pass after_pass
    evaluate message now store_now db =
        after_pass (evaluate_runs now store_now db)
          (λ after. as_run_pass (evaluate_sources message config now store_now after))
