-- ===== src/Store/Runs.antt =====
-- internal/store/runs.go: the summary fields computed for a run, the end of a silent run, the
-- deletion of a run, and the selection of runs for retention.
pub mod Deleting
use Prim.Native.String.{compare}
use package.text.Mathlib.Text.{is_lt}
use traceboard.Prelude.{
  ℕ, ◌+◌, ◌-◌, ◌*◌, ◌/◌, String, Bool, true, false, Option, none, some, List, [], ◌∷◌, ◌==◌, ◌&&◌,
  ◌||◌, not, eqb, ltb, leb, is_none, or_else, select, exists_row, count_rows, update_rows,
  delete_rows, if◌then◌else◌,
}
use traceboard.Event.{Instant}
use traceboard.Event.Status.{started, incomplete}
use traceboard.Store.{Db, RunRow, AlertRow, Result, ok, err, ◌>>=◌, run_not_found}

-- COALESCE(started_at, last_event_at, created_at), and `runSortAt`.
unfoldable pub run_sort_at : RunRow → Instant
run_sort_at run = or_else run.started_at (or_else run.last_event_at run.created_at)

-- The milliseconds from `from` to `to`, rounded towards zero, with `none` for a negative number.
span_ms : Instant → Instant → Option ℕ
span_ms from to =
    if leb from to
    then some ((to - from) / 1000000)
    else if ltb (from - to) 1000000
    then some 0
    else none

span_from : Option Instant → Option Instant → Option ℕ
unfolding span_ms
span_from none end = none
span_from (some from) none = none
span_from (some from) (some to) = span_ms from to

-- durationMS
unfoldable pub duration_ms : RunRow → Option ℕ
unfolding span_from
duration_ms run =
    span_from run.started_at (elim run.ended_at [ none ↦ run.last_event_at | some e ↦ some e ])

-- The WHERE and the SET of `MarkRunIncomplete`.
unfoldable pub is_silent : String → RunRow → Bool
is_silent id run = run.id == id && run.status == started

unfoldable pub mark_row : Instant → RunRow → RunRow
mark_row at run = record run {
  status = incomplete;
  ended_at = some (or_else run.ended_at at);
  updated_at = at;
}

-- MarkRunIncomplete: whether one row changed, and the database.
unfoldable pub mark_run_incomplete : String → Instant → Db → Bool × Db
mark_run_incomplete id at db = (
  eqb (count_rows (is_silent id) db.runs) 1,
  record db { runs = update_rows (is_silent id) (mark_row at) db.runs },
)

pub record DeleteResult : Type 0 where
  pub run_id : String
  pub events : ℕ
  pub steps : ℕ
  pub alerts : ℕ

abbrev pub alert_of_run : String → AlertRow → Bool
alert_of_run id a = or_else a.run_id "" == id && not (is_none a.run_id)

-- The four COUNT queries of `DeleteRun`, less that of the full-text table.
unfoldable pub deletion_counts : String → Db → DeleteResult
deletion_counts id db = record {
  run_id = id;
  events = count_rows (λ e. e.run_id == id) db.events;
  steps = count_rows (λ s. s.run_id == id) db.steps;
  alerts = count_rows (alert_of_run id) db.alerts;
}

-- The four DELETE statements. No statement of the program writes `parent_run_id`, so the cascade
-- from a run to its child runs has nothing to delete.
unfoldable pub without_run : String → Db → Db
without_run id db = record db {
  runs = delete_rows (λ r. r.id == id) db.runs;
  steps = delete_rows (λ s. s.run_id == id) db.steps;
  events = delete_rows (λ e. e.run_id == id) db.events;
  alerts = delete_rows (alert_of_run id) db.alerts;
}

-- DeleteRun
unfoldable pub delete_run : String → Db → Result (DeleteResult × Db)
delete_run id db =
    if not (exists_row (λ r. r.id == id) db.runs)
    then err run_not_found
    else ok (deletion_counts id db, without_run id db)

-- RetentionPolicy, with 0 for a rule that is off.
pub record RetentionPolicy : Type 0 where
  pub days : ℕ
  pub keep_newest_per_project : ℕ

abbrev pub day : ℕ
day = 86400000000000

-- sort < now - days, written without the subtraction.
unfoldable pub is_aged : ℕ → Instant → RunRow → Bool
is_aged days now run = not (eqb days 0) && ltb (run_sort_at run + days * day) now

-- Is `a` before `b` in ORDER BY sort DESC, id DESC?
unfoldable pub is_newer : RunRow → RunRow → Bool
is_newer a b =
    ltb (run_sort_at b) (run_sort_at a)
    || (eqb (run_sort_at a) (run_sort_at b) && is_lt (compare b.id a.id))

same_project : Option String → Option String → Bool
same_project (some a) (some b) = a == b
same_project _ _ = false

-- ROW_NUMBER() OVER (PARTITION BY project_id ORDER BY …) > keep: `keep` or more runs of the
-- project are newer.
unfoldable pub is_surplus : ℕ → List RunRow → RunRow → Bool
unfolding same_project
is_surplus keep runs run =
    not (eqb keep 0)
    && (not (is_none run.project_id)
        && leb keep
            (count_rows (λ r. same_project r.project_id run.project_id && is_newer r run) runs))

unfoldable pub is_candidate : RetentionPolicy → Instant → List RunRow → RunRow → Bool
is_candidate policy now runs run =
    not (is_none run.ended_at)
    && (is_aged policy.days now run || is_surplus policy.keep_newest_per_project runs run)

-- ORDER BY sort, id
unfoldable pub insert_oldest : RunRow → List RunRow → List RunRow
insert_oldest r [] = r ∷ []
insert_oldest r (s ∷ rest) =
    let later = insert_oldest r rest in if is_newer r s then s ∷ later else r ∷ s ∷ rest

unfoldable pub oldest_first : List RunRow → List RunRow
oldest_first [] = []
oldest_first (r ∷ rest) = insert_oldest r (oldest_first rest)

-- SelectRetentionCandidates. With both rules off no run is selected.
unfoldable pub select_retention_candidates : RetentionPolicy → Instant → Db → List RunRow
select_retention_candidates policy now db =
    oldest_first (select (is_candidate policy now db.runs) db.runs)
