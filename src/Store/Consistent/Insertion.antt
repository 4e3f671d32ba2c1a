-- ===== src/Store/Consistent/Insertion.antt =====
-- The statements of `insertEvent` in sequence, and the loop and the transaction around them.
use traceboard.Prelude.{
  ℕ, ◌+◌, String, true, [], ◌∷◌, ◌++◌, ◌≡◌, refl, ap, subst, ◌∙◌, not, arith, inl, inr, exists_row,
  exists_row-append, eq_refl, ◌==◌, ◌&&◌, update_rows, Bool-cases,
}
use traceboard.Event.{Event, Instant}
use traceboard.Platform.{Platform, PrepareError}
use traceboard.Store.{Db, EventRow, StoredEvent, ok, >>=-eq-ok}
use traceboard.Store.Prepare.{Prepared, ready, refused}
use traceboard.Store.Statements.{
  new_run, take_sequence, ensure_source, ensure_run, allocate_run_sequence, update_step, update_run,
  check_row,
}
use traceboard.Store.Summary.{apply_to_run}
use traceboard.Store.Insert.{
  event_row, insert_event, quarantine_event, encoded, InsertResult, insert_new, insert_prepared,
  is_stored,
}
use traceboard.Store.Consistent.{
  Staged, IsConsistent, is_run, ensure_source-keeps, ensure_run_cases, RunAdded, allocate_cases,
  update_step-keeps, check_row_cases,
}
use traceboard.Store.Consistent.Preserved.{
  Staged-new_run, Staged-take, Staged-apply, Staged-append, allocated-next, present-update,
  Staged-rebase,
}

module _ (platform : Platform) (stored : StoredEvent) where
  abbrev x : String
  x = stored.run_id

  event_row_fields :
      (n : ℕ) (row : EventRow)
      → event_row platform stored n ≡ ok row
      → (row.run_id ≡ x) × (row.type ≡ stored.type) × (row.sequence ≡ n)
  unfolding event_row
  event_row_fields n row e = ground arith

  -- After `ensureRun` the run is there, with counters that fit.
  ensured :
      (db d : Db)
      → Staged x 0 0 0 db.runs db.events
      → RunAdded stored db d
      → Staged x 0 0 0 d.runs d.events × (exists_row (is_run x) d.runs ≡ true)
  unfolding new_run exists_row
  ensured db d h (same, inl (present, runs)) = rw (same, runs) (h, present)
  ensured db d h (same, inr (absent, runs)) =
      rw (same, runs)
        (
          Staged-new_run stored db.runs db.events h absent,
          rw exists_row-append (ground (arith, eq_refl x)),
        )

  -- The tables of runs and events before the row goes in.
  updated_tables :
      (db d : Db) (n : ℕ)
      → allocate_run_sequence stored db ≡ ok (n, d)
      → ((update_run stored (update_step stored d)).runs
          ≡ update_rows
              (is_run x)
              (apply_to_run stored)
              (update_rows (is_run x) (take_sequence stored) db.runs))
        × ((update_run stored (update_step stored d)).events ≡ db.events)
  unfolding update_run
  updated_tables db d n allocated =
      let (same, runs, found) = allocate_cases stored db d n allocated in
      let (kept_runs, kept_events) = update_step-keeps stored d d in
      (ap (update_rows (is_run x) (apply_to_run stored)) (kept_runs ∙ runs), kept_events ∙ same)

  -- From `allocateRunSequence` on.
  numbered :
      (db d : Db) (n : ℕ) (row : EventRow) (after : Db)
      → Staged x 0 0 0 db.runs db.events
      → exists_row (is_run x) db.runs ≡ true
      → allocate_run_sequence stored db ≡ ok (n, d)
      → event_row platform stored n ≡ ok row
      → check_row stored (update_run stored (update_step stored d)) row ≡ ok after
      → IsConsistent after
  unfolding take_sequence apply_to_run
  numbered db d n row after h present allocated built checked =
      let (same, runs, (r, found, next)) = allocate_cases stored db d n allocated in
      let (of_x, of_type, as_n) = event_row_fields n row built in
      let ready_db = update_run stored (update_step stored d) in
      let (ready_runs, ready_events) = updated_tables db d n allocated in
      let (end_runs, end_events) = check_row_cases stored ready_db after row checked in
      let taken_runs = update_rows (is_run x) (take_sequence stored) db.runs in
      let applied_runs = update_rows (is_run x) (apply_to_run stored) taken_runs in
      let taken = Staged-take stored db.runs db.events h in
      let applied = Staged-apply stored taken_runs db.events taken in
      let there =
        present-update stored taken_runs db.events (apply_to_run stored) (λ r. refl)
          (present-update stored db.runs db.events (take_sequence stored) (λ r. refl) present) in
      let number = as_n ∙ (next ∙ allocated-next stored db.runs db.events r h found) in
      let done =
        Staged-append stored applied_runs db.events row of_x of_type number there applied in
      rw (end_runs ∙ ready_runs, end_events ∙ ap (λ es. es ++ (row ∷ [])) ready_events)
        (Staged-rebase x "" applied_runs (db.events ++ (row ∷ [])) done)

  pub insert_event-IsConsistent :
      (db after : Db)
      → insert_event platform stored db ≡ ok after
      → IsConsistent db
      → IsConsistent after
  unfolding insert_event
  insert_event-IsConsistent db after e h =
      let (sourced, e1, r1) = >>=-eq-ok (ensure_source stored db) _ e in
      let (with_run, e2, r2) = >>=-eq-ok (ensure_run stored sourced) _ r1 in
      let ((n, taken), e3, r3) = >>=-eq-ok (allocate_run_sequence stored with_run) _ r2 in
      let (row, e4, checked) = >>=-eq-ok (event_row platform stored n) _ r3 in
      let (runs, events) = ensure_source-keeps stored db sourced e1 in
      let base : Staged x 0 0 0 sourced.runs sourced.events =
        rw (runs, events) (Staged-rebase "" x db.runs db.events h) in
      let (staged, present) =
        ensured sourced with_run base (ensure_run_cases stored sourced with_run e2) in
      numbered with_run taken n row after staged present e3 e4 checked

module _ (platform : Platform) where
  pub quarantine_event-keeps :
      (now : Instant) (input : Event) (reason : PrepareError) (db after : Db)
      → quarantine_event platform now input reason db ≡ ok after
      → (after.runs ≡ db.runs) × (after.events ≡ db.events)
  unfolding quarantine_event encoded
  quarantine_event-keeps now input reason db after e = ground arith

  abbrev pub total : InsertResult → ℕ
  total r = r.accepted + r.duplicate + r.quarantined

  -- What a round of the loop promises of the result and the database that it leaves.
  pub record Advances (r : InsertResult) (db : Db) (r' : InsertResult) (db' : Db) : Type 0 where
    pub counts : total r' ≡ total r + 1
    pub consistent : IsConsistent db → IsConsistent db'

  pub insert_prepared-Advances :
      (now : Instant) (input : Event) (r : InsertResult) (db : Db) (p : Prepared StoredEvent)
      (r' : InsertResult) (db' : Db)
      → insert_prepared platform now input r db p ≡ ok (r', db')
      → Advances r db r' db'
  unfolding insert_prepared insert_new
  insert_prepared-Advances now input r db (refused reason) r' db' e =
      let (after, e1, e2) = >>=-eq-ok (quarantine_event platform now input reason db) _ e in
      let (runs, events) = quarantine_event-keeps now input reason db after e1 in
      let same : after ≡ db' = ground arith in
      record {
        counts = ground arith;
        consistent = λ h. subst IsConsistent same (rw (runs, events) h);
      }
  insert_prepared-Advances now input r db (ready stored) r' db' e =
      elim (Bool-cases (not (stored.source_event_id == "") && is_stored stored db)) [
        | inl known ↦
            let same : db ≡ db' = ground arith in
            record { counts = ground arith; consistent = subst IsConsistent same }
        | inr new ↦
            let inserted : insert_new platform r stored db ≡ ok (r', db') = rw new at e in
            let (after, e1, e2) = >>=-eq-ok (insert_event platform stored db) _ inserted in
            let same : after ≡ db' = ground arith in
            record {
              counts = ground arith;
              consistent = λ h.
                  subst IsConsistent same (insert_event-IsConsistent platform stored db after e1 h);
            }
      ]
