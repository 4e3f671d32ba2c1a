-- ===== src/Store/Redelivery.antt =====
-- A batch that arrives twice: the duplicate test of `InsertEvents`.
pub mod Twice
pub mod Log
use traceboard.Prelude.{
  ℕ, true, false, List, [], ◌∷◌, ◌++◌, ◌≡◌, ap, ◌∙◌, arith, not, ◌&&◌, ◌==◌, eq_iff, exists_row,
  exists_row-append,
}
use traceboard.Event.{Event, Instant}
use traceboard.Platform.{Platform}
use traceboard.Store.{Db, ok, >>=-eq-ok, StoredEvent, EventRow}
use traceboard.Store.Prepare.{ready, prepare_event, redact_event, prepare_checked}
use traceboard.Store.Statements.{
  ensure_source, ensure_run, allocate_run_sequence, update_step, update_run, check_row,
}
use traceboard.Store.Insert.{event_row, insert_event, is_stored}
use traceboard.Store.Consistent.{
  ensure_source-keeps, ensure_run_cases, allocate_cases, update_step-keeps, check_row_cases,
}

module _ (platform : Platform) where
  redact_event_again :
      (now later : Instant) (input : Event) (s : StoredEvent)
      → redact_event platform now input ≡ ready s
      → redact_event platform later input ≡ ready (record s { received_at = later })
  unfolding redact_event
  redact_event_again now later input s e = ground arith

  -- `prepareEvent` puts the time into `received_at` alone.
  pub prepare_event_again :
      (now later : Instant) (input : Event) (s : StoredEvent)
      → prepare_event platform now input ≡ ready s
      → prepare_event platform later input ≡ ready (record s { received_at = later })
  unfolding prepare_event prepare_checked
  prepare_event_again now later input s e = ground (arith, redact_event_again now later input s)

  event_row_key :
      (stored : StoredEvent) (n : ℕ) (row : EventRow)
      → event_row platform stored n ≡ ok row
      → (row.run_id ≡ stored.run_id)
        × (row.source ≡ stored.source)
        × (row.source_event_id ≡ stored.source_event_id)
  unfolding event_row
  event_row_key stored n row e = ground arith

  check_row_key :
      (stored : StoredEvent) (db after : Db) (row : EventRow)
      → check_row stored db row ≡ ok after
      → (row.source_event_id == "") ≡ false
  unfolding check_row
  check_row_key stored db after row e = ground arith

  stored_at_end :
      (stored : StoredEvent) (es : List EventRow) (row : EventRow)
      → row.source ≡ stored.source
      → row.source_event_id ≡ stored.source_event_id
      → exists_row
          (λ e. e.source == stored.source && e.source_event_id == stored.source_event_id)
          (es ++ (row ∷ []))
        ≡ true
  unfolding exists_row
  stored_at_end stored es row p q = rw exists_row-append (
      ground
        (arith, eq_iff row.source stored.source, eq_iff row.source_event_id stored.source_event_id))

  -- The row that an insertion puts behind those that were there.
  pub insert_event-row :
      (stored : StoredEvent) (db after : Db)
      → insert_event platform stored db ≡ ok after
      → (row : EventRow) × (after.events ≡ db.events ++ (row ∷ []))
        × (row.run_id ≡ stored.run_id)
        × (row.source ≡ stored.source)
        × (row.source_event_id ≡ stored.source_event_id)
        × ((row.source_event_id == "") ≡ false)
  unfolding insert_event update_run
  insert_event-row stored db after e =
      let (sourced, e1, r1) = >>=-eq-ok (ensure_source stored db) _ e in
      let (with_run, e2, r2) = >>=-eq-ok (ensure_run stored sourced) _ r1 in
      let ((n, taken), e3, r3) = >>=-eq-ok (allocate_run_sequence stored with_run) _ r2 in
      let (row, e4, checked) = >>=-eq-ok (event_row platform stored n) _ r3 in
      let ready_db = update_run stored (update_step stored taken) in
      let stepped = (update_step-keeps stored taken taken).1 in
      let taken_events = (allocate_cases stored with_run taken n e3).0 in
      let run_events = (ensure_run_cases stored sourced with_run e2).0 in
      let source_events = (ensure_source-keeps stored db sourced e1).1 in
      let end_events = (check_row_cases stored ready_db after row checked).1 in
      let (run, key, id) = event_row_key stored n row e4 in
      let some_id = check_row_key stored ready_db after row checked in
      let same = stepped ∙ (taken_events ∙ (run_events ∙ source_events)) in
      let events : after.events ≡ db.events ++ (row ∷ []) =
        end_events ∙ ap (λ es. es ++ (row ∷ [])) same in
      (row, events, run, key, id, some_id)

  -- An inserted event is stored, behind the events that were there.
  pub insert_event_stored :
      (stored : StoredEvent) (db after : Db)
      → insert_event platform stored db ≡ ok after
      → ((row : EventRow) × (after.events ≡ db.events ++ (row ∷ [])) × (row.run_id ≡ stored.run_id))
        × ((not (stored.source_event_id == "") && is_stored stored after) ≡ true)
  unfolding is_stored
  insert_event_stored stored db after e =
      let (row, events, run, key, id, some_id) = insert_event-row stored db after e in
      (
        (row, events, run),
        rw events (rw (stored_at_end stored db.events row key id) (rw (← id) (rw some_id))),
      )
