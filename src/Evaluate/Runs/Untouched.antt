-- ===== src/Evaluate/Runs/Untouched.antt =====
-- Which runs the evaluation of internal/alerts/evaluator.go ends, and which it does not look at.
use traceboard.Prelude.{
  ℕ, String, Bool, true, false, Option, none, some, List, [], ◌∷◌, ◌==◌, ◌≡◌, refl, sym, ap, ◌∙◌,
  arith, eq_iff, All, find_row, update_rows, Bool-cases, Option-cases, ◌⊎◌, inl, inr,
}
use traceboard.Event.{Instant}
use traceboard.Event.Status.{started}
use traceboard.Platform.{Platform}
use traceboard.Store.{Db, AlertRow, RunRow, Result, ok, err, >>=-eq-ok}
use traceboard.Store.Alerts.{
  open_alert, resolve_alerts, insert_alert, get_alert_by_key, with_defaults,
}
use traceboard.Store.Runs.{mark_run_incomplete, is_silent, mark_row}
use traceboard.Store.Listing.{Run, RunPage, Queries, list_runs}
use traceboard.Evaluate.{Config}
use traceboard.Evaluate.Runs.{
  RunPass, after_pass, opened_run_pass, marked_pass, resolved_for, evaluate_silent, evaluate_last,
  evaluate_each, evaluate_page, evaluate_stalled, is_heard, with_status,
}

-- The row of a run.
abbrev row_of : String → Db → Option RunRow
row_of x db = find_row (λ r. RunRow.id r == x) db.runs

find_row-mark :
    (x id : String) (at : Instant) (runs : List RunRow)
    → (id == x) ≡ false
    → find_row (λ r. RunRow.id r == x) (update_rows (is_silent id) (mark_row at) runs)
      ≡ find_row (λ r. RunRow.id r == x) runs
unfolding find_row update_rows is_silent mark_row
find_row-mark x id at [] h = refl
find_row-mark x id at (r ∷ rest) h =
    ground (arith, h, eq_iff r.id x, eq_iff r.id id, eq_iff id x, find_row-mark x id at rest h)

insert_alert-runs :
    (a : AlertRow) (db after : Db) → insert_alert a db ≡ ok after → after.runs ≡ db.runs
unfolding insert_alert
insert_alert-runs a db after e = ground (arith, e)

open_alert-runs :
    (now : Instant) (alert found : AlertRow) (created : Bool) (db after : Db)
    → open_alert now alert db ≡ ok ((found, created), after)
    → after.runs ≡ db.runs
unfolding open_alert
open_alert-runs now alert found created db after e =
    let (inserted, e1, r1) = >>=-eq-ok (insert_alert (with_defaults now alert) db) _ e in
    let (existing, e2, r2) = >>=-eq-ok (get_alert_by_key (with_defaults now alert) inserted) _ r1 in
    let same : inserted ≡ after = ground arith in
    ap Db.runs (sym same) ∙ insert_alert-runs (with_defaults now alert) db inserted e1

module _ (rfc3339 : Instant → String) (config : Config) (stalled_after : ℕ) (x : String) where
  -- The pass leaves the row of the run as it was.
  abbrev Spares : Option RunRow → RunPass → Type 0
  Spares row pass = row_of x pass.db ≡ row

  after_pass-Spares :
      (row : Option RunRow) (pass : RunPass) (rest : Db → RunPass)
      → Spares row pass
      → ((db : Db) → row_of x db ≡ row → Spares row (rest db))
      → Spares row (after_pass pass rest)
  unfolding after_pass
  after_pass-Spares row pass rest h f = elim (Option-cases pass.error) [
    | inl e ↦ ground (arith, e, f pass.db h)
    | inr (error, e) ↦ ground (arith, e, h)
  ]

  opened_run_pass-Spares :
      (now : Instant) (alert : AlertRow) (db : Db)
      → Spares
          (row_of x db)
          (opened_run_pass rfc3339 config stalled_after db (open_alert now alert db))
  unfolding opened_run_pass
  opened_run_pass-Spares now alert db = split (open_alert now alert db) refl
    where
      split :
          (answer : Result ((AlertRow × Bool) × Db))
          → open_alert now alert db ≡ answer
          → Spares (row_of x db) (opened_run_pass rfc3339 config stalled_after db answer)
      split (err e) h = refl
      split (ok ((found, created), after)) h =
          ap (find_row (λ r. RunRow.id r == x)) (open_alert-runs now alert found created db after h)

  marked_pass-Spares :
      (marked : Bool) (id : String) (now : Instant) (db : Db)
      → Spares (row_of x db) (marked_pass rfc3339 config stalled_after marked id now db)
  unfolding marked_pass resolved_for resolve_alerts
  marked_pass-Spares false id now db = refl
  marked_pass-Spares true id now db = refl

  evaluate_silent-Spares :
      (now store_now : Instant) (run : Run) (last : Instant) (db : Db)
      → (run.row.id == x) ≡ false
      → Spares
          (row_of x db)
          (evaluate_silent rfc3339 config stalled_after now store_now run last db)
  unfolding evaluate_silent mark_run_incomplete
  evaluate_silent-Spares now store_now run last db other =
      let id = run.row.id in
      let (marked, after) = mark_run_incomplete id now db in
      let kept : row_of x after ≡ row_of x db = find_row-mark x id now db.runs other in
      after_pass-Spares (row_of x db) _ (marked_pass rfc3339 config stalled_after marked id now)
        (opened_run_pass-Spares store_now _ after ∙ kept)
        (λ seen h. marked_pass-Spares marked id now seen ∙ h)

  -- A run that the evaluation has no reason to end: another one, or one that was heard of since the
  -- cutoff or has no event.
  abbrev pub IsSpared : Instant → Run → Type 0
  IsSpared now run =
      ((run.row.id == x) ≡ false)
      ⊎ ((run.row.last_event_at ≡ none)
          ⊎ ((last : Instant) × (run.row.last_event_at ≡ some last)
              × (is_heard rfc3339 config stalled_after now last ≡ true)))

  evaluate_last-Spares :
      (now store_now : Instant) (run : Run) (db : Db)
      → IsSpared now run
      → Spares
          (row_of x db)
          (evaluate_last rfc3339 config stalled_after now store_now run run.row.last_event_at db)
  unfolding evaluate_last
  evaluate_last-Spares now store_now run db (inr (inl e)) = rw e refl
  evaluate_last-Spares now store_now run db (inr (inr (last, e, heard))) = rw e (rw heard refl)
  evaluate_last-Spares now store_now run db (inl other) = split run.row.last_event_at
    where
      split :
          (last : Option Instant)
          → Spares
              (row_of x db)
              (evaluate_last rfc3339 config stalled_after now store_now run last db)
      split none = refl
      split (some last) = elim (Bool-cases (is_heard rfc3339 config stalled_after now last)) [
        | inl heard ↦ rw heard refl
        | inr silent ↦ rw silent (evaluate_silent-Spares now store_now run last db other)
      ]

  abbrev last_step : Instant → Instant → Run → Db → RunPass
  last_step now store_now run =
      evaluate_last rfc3339 config stalled_after now store_now run run.row.last_event_at

  evaluate_each-Spares :
      (now store_now : Instant) (runs : List Run) (db : Db)
      → All (IsSpared now) runs
      → Spares
          (row_of x db)
          (evaluate_each rfc3339 config stalled_after (last_step now store_now) runs db)
  unfolding evaluate_each
  evaluate_each-Spares now store_now [] db h = refl
  evaluate_each-Spares now store_now (run ∷ rest) db h =
      after_pass-Spares (row_of x db) (last_step now store_now run db)
        (evaluate_each rfc3339 config stalled_after (last_step now store_now) rest)
        (evaluate_last-Spares now store_now run db h.0)
        (λ after same. evaluate_each-Spares now store_now rest after h.1 ∙ same)

  -- The evaluation of the stalled runs leaves the row of a run as it is, where each run on the page of
  -- the 500 newest active runs is another one, was heard of since the cutoff, or has no event.
  pub evaluate_stalled-Spares :
      (platform : Platform) (queries : Queries) (now store_now : Instant) (db : Db) (page : RunPage)
      → list_runs platform queries
          (with_status rfc3339 config stalled_after platform queries started)
          ""
          500
          db
        ≡ ok page
      → All (IsSpared now) page.runs
      → find_row
          (λ r. RunRow.id r == x)
          (evaluate_stalled rfc3339 config stalled_after platform queries now store_now db).db.runs
        ≡ find_row (λ r. RunRow.id r == x) db.runs
  unfolding evaluate_stalled evaluate_page
  evaluate_stalled-Spares platform queries now store_now db page listed h =
      rw listed (evaluate_each-Spares now store_now page.runs db h)
