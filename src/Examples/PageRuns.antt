-- ===== src/Examples/PageRuns.antt =====
-- Reading a run whose first stored event occurred last, one event at a time and as a whole.
use traceboard.Prelude.{
  ℕ, ◌≤◌, ◌<◌, ◌≢◌, true, false, some, none, List, [], ◌∷◌, ◌≡◌, ◌==◌, refl, arith, select, length,
  All, find_row,
}
use traceboard.Event.{Event}
use traceboard.Store.{Db, empty_db, Result, ok, err, RunRow, EventRow}
use traceboard.Store.Insert.{insert_events}
use traceboard.Store.Timeline.{
  EventPage, EventRecord, list_events, scan_event, scan_events, decode_content_text, timeline_after,
  clamp_limit, make_page, page_of, highest,
}
use traceboard.Store.Timeline.Sorting.{timeline_before, insert_sorted, sort_timeline}
use traceboard.Store.Timeline.Cursors.{is_after}
use traceboard.Store.Timeline.Passed.{passed_over}
use traceboard.Store.Timeline.Export.{
  list_all_events, collect_pages, is_last_page, list_all_events_total,
}
use traceboard.Examples.{platform, clock, sample, program}

-- The event that is stored first occurs last.
abbrev late_first : List Event
late_first =
    record (sample "evt_1" "run.started") { occurred_at = 60 }
    ∷ sample "evt_2" "error.recorded"
    ∷ []

abbrev run_db : Db
run_db = (insert_events platform clock late_first empty_db).1

abbrev page_in : Result EventPage → EventPage
page_in (ok page) = page
page_in (err e) = record {
  events = [];
  next_sequence = 0;
  run_sequence = 0;
  has_more = false;
  run_status = "";
}

reading : ℕ
unfolding program decode_content_text scan_event scan_events select timeline_after highest
    clamp_limit make_page page_of list_events timeline_before insert_sorted sort_timeline
    list_all_events collect_pages is_last_page find_row
reading = 0

abbrev page_1 : EventPage
page_1 = page_in (list_events platform run_db "run_1" 0 1)

page_1_read : list_events platform run_db "run_1" 0 1 ≡ ok page_1
unfolding reading
page_1_read = refl

page_1_has_more : page_1.has_more ≡ true
unfolding reading
page_1_has_more = refl

page_1_cursor : page_1.next_sequence ≡ 2
unfolding reading
page_1_cursor = refl

abbrev page_2 : EventPage
page_2 = page_in (list_events platform run_db "run_1" page_1.next_sequence 1)

page_2_read : list_events platform run_db "run_1" page_1.next_sequence 1 ≡ ok page_2
unfolding reading
page_2_read = refl

abbrev first_of : EventRow → List EventRow → EventRow
first_of default [] = default
first_of default (e ∷ rest) = e

abbrev rest_of : List EventRow → List EventRow
rest_of [] = []
rest_of (e ∷ rest) = rest

abbrev blank : EventRow
blank = record {
  event_id = "";
  source_event_id = "";
  source = "";
  source_version = "";
  run_id = "";
  step_id = none;
  parent_step_id = none;
  source_sequence = none;
  sequence = 0;
  occurred_at = 0;
  received_at = 0;
  type = "";
  status = "";
  capture = "";
  attributes = "";
  content = none;
  raw = none;
  search_text = "";
}

abbrev late : EventRow
late = first_of blank run_db.events

abbrev others : List EventRow
others = rest_of run_db.events

rows_after : select (is_after "run_1" 0) run_db.events ≡ late ∷ others
unfolding reading
rows_after = refl

others_before : All (λ r. EventRow.occurred_at r < late.occurred_at) others
unfolding reading
others_before = (omega arith, tt)

others_behind : All (λ r. late.sequence < EventRow.sequence r) others
unfolding reading
others_behind = (omega arith, tt)

others_fill : length others ≡ clamp_limit 1
unfolding reading
others_fill = refl

one_below : page_1.next_sequence ≤ page_1.next_sequence
unfolding reading
one_below = omega arith

-- The event with number 1 is not on the first page, and not on the second.
passed_over_example :
    (page_1.has_more ≡ true)
    × All (λ e. late.sequence ≢ EventRecord.sequence e) page_1.events
    × All (λ e. late.sequence ≢ EventRecord.sequence e) page_2.events
passed_over_example =
    passed_over platform run_db "run_1" 0 1 page_1.next_sequence 1 late others page_1 page_2
      rows_after others_before others_behind others_fill page_1_read one_below page_2_read

list_all_events_total_example :
    (result : Result (List EventRecord)) × (list_all_events platform run_db "run_1" ≡ some result)
list_all_events_total_example = list_all_events_total platform run_db "run_1"

abbrev whole : EventPage
whole = page_in (list_events platform run_db "run_1" 0 1000)

whole_scanned : scan_events platform (timeline_after "run_1" 0 run_db.events) ≡ ok whole.events
unfolding reading
whole_scanned = refl

whole_short : length whole.events ≤ 1000
unfolding reading
whole_short = omega arith

whole_known : (run : RunRow) × (find_row (λ r. RunRow.id r == "run_1") run_db.runs ≡ some run)
unfolding reading
whole_known = (_, refl)
