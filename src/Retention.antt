-- ===== src/Retention.antt =====
-- internal/retention/retention.go: the preview of a policy and its application. A policy's numbers are natural: a negative one is off, as 0 is.
pub mod Totals
pub mod Periods
pub mod Active
use Prim.Native.String.{compare}
use traceboard.Prelude.{
  ℕ, ◌+◌, ◌*◌, ◌/◌, ◌-◌, String, Bool, true, false, Option, none, some, List, [], ◌∷◌, ◌==◌, ◌&&◌,
  ◌||◌, eqb, ltb, length, if◌then◌else◌,
}
use traceboard.Event.{Instant}
use traceboard.Store.{Db, RunRow, Result, ok, err, StoreError}
use traceboard.Store.Runs.{RetentionPolicy, DeleteResult, delete_run, select_retention_candidates}

-- Policy.IsNoop
unfoldable pub is_noop : RetentionPolicy → Bool
is_noop policy = eqb policy.days 0 && eqb policy.keep_newest_per_project 0

pub record DeletionPreview : Type 0 where
  pub policy : RetentionPolicy
  pub runs : List RunRow
  pub events : ℕ

pub record DeletionResult : Type 0 where
  pub policy : RetentionPolicy
  pub runs : ℕ
  pub events : ℕ
  pub steps : ℕ
  pub alerts : ℕ
  pub applied : Instant

unfoldable pub sum_events : List RunRow → ℕ
sum_events [] = 0
sum_events (run ∷ rest) = run.event_count + sum_events rest

-- Preview
unfoldable pub preview : RetentionPolicy → Instant → Db → DeletionPreview
preview policy now db =
    if is_noop policy
    then record { policy = policy; runs = []; events = 0 }
    else let runs = select_retention_candidates policy now db in
      record { policy = policy; runs = runs; events = sum_events runs }

unfoldable pub add_deleted : DeletionResult → DeleteResult → DeletionResult
add_deleted result deleted = record result {
  runs = result.runs + 1;
  events = result.events + deleted.events;
  steps = result.steps + deleted.steps;
  alerts = result.alerts + deleted.alerts;
}

-- What `Apply` returns: the result so far, and the error that stopped it.
pub record Applied : Type 0 where
  pub result : DeletionResult
  pub error : Option StoreError
  pub db : Db

-- The loop of `Apply`.
unfoldable pub apply_loop : List RunRow → DeletionResult → Db → Applied
apply_loop [] result db = record { result = result; error = none; db = db }
apply_loop (run ∷ rest) result db = elim (delete_run run.id db) [
  | ok (deleted, after) ↦ apply_loop rest (add_deleted result deleted) after
  | err e ↦ record { result = result; error = some e; db = db }
]

-- Apply
unfoldable pub apply : RetentionPolicy → Instant → Db → Applied
apply policy now db =
    apply_loop (preview policy now db).runs
      (record { policy = policy; runs = 0; events = 0; steps = 0; alerts = 0; applied = now }) db
