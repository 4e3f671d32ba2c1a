-- ===== src/Examples/StoreRuns.antt =====
-- Runs of the store and of retention: a batch of two events of one run, sent twice and read back.
use traceboard.Prelude.{
  All, ℕ, ◌+◌, ◌*◌, ◌-◌, String, true, false, none, [], ◌∷◌, ◌≡◌, refl, arith, select, count_rows,
  length,
}
use traceboard.Store.{RunRow, Db, empty_db, Result, ok, err, EventRow, StoredEvent}
use traceboard.Store.Insert.{InsertResult, insert_events, insert_event}
use traceboard.Store.Consistent.{IsConsistent}
use traceboard.Store.Consistent.Batches.{insert_events-IsConsistent, insert_events_total}
use traceboard.Store.Redelivery.Twice.{redelivery}
use traceboard.Store.Redelivery.Log.{keys_of, log_batch, insert_events-log_batch}
use traceboard.Store.Timeline.{
  EventPage, list_events, scan_event, scan_events, decode_content_text, timeline_after, clamp_limit,
  make_page, page_of, highest,
}
use traceboard.Store.Timeline.Sorting.{timeline_before, insert_sorted, sort_timeline}
use traceboard.Store.Timeline.Pages.{caught_up_cursor_misses}
use traceboard.Store.Runs.{RetentionPolicy, day}
use traceboard.Store.Runs.Deleting.{HasUniqueIds}
use traceboard.Retention.{preview, apply}
use traceboard.Retention.Totals.{Gone, apply-preview}
use traceboard.Retention.Active.{IsActive, SameRun, apply-SameRun}
use traceboard.Examples.{platform, clock, sample, batch, after, program}

abbrev stored_two : InsertResult
stored_two = record { accepted = 2; duplicate = 0; quarantined = 0 }

batch_stored : insert_events platform clock batch empty_db ≡ (ok stored_two, after)
unfolding program
batch_stored = refl

empty-IsConsistent : IsConsistent empty_db
unfolding count_rows
empty-IsConsistent = record { counted = tt; known = tt; numbering = λ y n. ground arith }

insert_events-IsConsistent_example : IsConsistent (insert_events platform clock batch empty_db).1
insert_events-IsConsistent_example =
    insert_events-IsConsistent platform clock batch empty_db empty-IsConsistent

insert_events_total_example : 2 + 0 + 0 ≡ length batch
unfolding program
insert_events_total_example = insert_events_total platform clock batch empty_db stored_two refl

redelivery_example :
    insert_events platform clock batch after
    ≡ (ok (record { accepted = 0; duplicate = 2; quarantined = 0 }), after)
redelivery_example =
    redelivery platform clock clock batch empty_db after stored_two batch_stored refl

insert_events-log_batch_example :
    (keys_of after ≡ log_batch platform clock 0 batch (keys_of empty_db))
    × (2 + length (keys_of empty_db) ≡ length (keys_of after))
insert_events-log_batch_example =
    insert_events-log_batch platform clock batch empty_db after stored_two batch_stored

-- Reading

abbrev row : String → ℕ → EventRow
row id at = record {
  event_id = id;
  source_event_id = id;
  source = "codex";
  source_version = "";
  run_id = "run_1";
  step_id = none;
  parent_step_id = none;
  source_sequence = none;
  sequence = at;
  occurred_at = 10 - at;
  received_at = 100;
  type = "run.started";
  status = "started";
  capture = "{}";
  attributes = "{}";
  content = none;
  raw = none;
  search_text = "";
}

abbrev page_in : Result EventPage → EventPage
page_in (ok page) = page
page_in (err e) = record {
  events = [];
  next_sequence = 0;
  run_sequence = 0;
  has_more = false;
  run_status = "";
}

abbrev first_page : EventPage
first_page = page_in (list_events platform after "run_1" 0 1)

abbrev whole_page : EventPage
whole_page = page_in (list_events platform after "run_1" 0 0)

reading : ℕ
unfolding program decode_content_text scan_event scan_events select timeline_after highest
    clamp_limit make_page page_of list_events timeline_before insert_sorted sort_timeline
reading = 0

first_read : list_events platform after "run_1" 0 1 ≡ ok first_page
unfolding reading
first_read = refl

whole_read : list_events platform after "run_1" 0 0 ≡ ok whole_page
unfolding reading
whole_read = refl

first_has_more : first_page.has_more ≡ true
unfolding reading
first_has_more = refl

whole_has_all : whole_page.has_more ≡ false
unfolding reading
whole_has_all = refl

abbrev third : StoredEvent
third = record { event = sample "evt_3" "tool.started"; received_at = 100 }

abbrev db_in : Result Db → Db
db_in (ok db) = db
db_in (err e) = empty_db

abbrev later : Db
later = db_in (insert_event platform third after)

third_stored : insert_event platform third after ≡ ok later
unfolding program
third_stored = refl

caught_up_cursor_misses_example :
    (page' : EventPage) × (list_events platform later "run_1" whole_page.next_sequence 0 ≡ ok page')
    × (page'.events ≡ [])
caught_up_cursor_misses_example =
    caught_up_cursor_misses platform after later third 0 0 0 whole_page
      insert_events-IsConsistent_example whole_read whole_has_all third_stored

-- Retention

abbrev policy : RetentionPolicy
policy = record { days = 1; keep_newest_per_project = 0 }

run_1-IsActive : IsActive "run_1" after
unfolding program
run_1-IsActive = (λ e. refl, tt)

apply-SameRun_example : SameRun "run_1" (apply policy (10 * day) after).db after
apply-SameRun_example = apply-SameRun policy (10 * day) "run_1" after run_1-IsActive

abbrev ended : Db
ended =
    (insert_events platform clock
      (sample "evt_1" "run.started" ∷ sample "evt_2" "run.completed" ∷ []) empty_db).1

ended-IsConsistent : IsConsistent ended
ended-IsConsistent = insert_events-IsConsistent platform clock _ empty_db empty-IsConsistent

ended-HasUniqueIds : HasUniqueIds ended.runs
unfolding program count_rows
ended-HasUniqueIds x = ground arith

apply-preview_example :
    ((apply policy (10 * day) ended).error ≡ none)
    × ((apply policy (10 * day) ended).result.runs ≡ length (preview policy (10 * day) ended).runs)
    × ((apply policy (10 * day) ended).result.events ≡ (preview policy (10 * day) ended).events)
    × All
        (λ r. Gone (apply policy (10 * day) ended).db (RunRow.id r))
        (preview policy (10 * day) ended).runs
apply-preview_example = apply-preview policy (10 * day) ended ended-IsConsistent ended-HasUniqueIds
