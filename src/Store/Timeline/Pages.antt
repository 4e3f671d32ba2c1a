-- ===== src/Store/Timeline/Pages.antt =====
-- What a page of the timeline holds, and where its cursor points.
use traceboard.Prelude.{
  ℕ, zero, suc, ◌+◌, ◌≤◌, ◌<◌, String, true, false, Option, none, some, List, [], ◌∷◌, ◌≡◌, refl,
  sym, ap, subst, ◌∙◌, arith, length, length-take, take, ◌&&◌, ◌==◌, ltb, select, count_rows,
  count_rows-append, find_row, find_row_of_exists, exists_row, All, All-last, eq_iff,
}
use traceboard.Platform.{Platform}
use traceboard.Store.{Db, RunRow, EventRow, StoredEvent, ok, >>=-eq-ok}
use traceboard.Store.Insert.{insert_event}
use traceboard.Store.Counting.{of_run}
use traceboard.Store.Consistent.{IsConsistent, numbered_as, is_run}
use traceboard.Store.Consistent.Preserved.{allocated-next, Staged-rebase}
use traceboard.Store.Consistent.Insertion.{insert_event-IsConsistent}
use traceboard.Store.Redelivery.{insert_event_stored}
use traceboard.Store.Timeline.{
  EventPage, EventRecord, list_events, page_of, make_page, scan_event, scan_events, timeline_after,
  clamp_limit,
}
use traceboard.Store.Timeline.Sorting.{sort_timeline}

-- No row of the run has a number beyond `c`: then none is found there.
select_beyond :
    (x : String) (c : ℕ) (es : List EventRow)
    → ((n : ℕ) → c < n → count_rows (numbered_as x n) es ≡ 0)
    → select (λ e. e.run_id == x && ltb c e.sequence) es ≡ []
unfolding select count_rows
select_beyond x c [] h = refl
select_beyond x c (e ∷ rest) h =
    let later = select_beyond x c rest (λ n lt. ground (arith, h n lt)) in
    ground (arith, h e.sequence)

module _ (platform : Platform) where
  pub length-scan_events :
      (rows : List EventRow) (events : List EventRecord)
      → scan_events platform rows ≡ ok events
      → length events ≡ length rows
  unfolding scan_events
  length-scan_events [] events e = ground arith
  length-scan_events (row ∷ rest) events e =
      let (event, e1, r1) = >>=-eq-ok (scan_event platform row) _ e in
      let (later, e2, r2) = >>=-eq-ok (scan_events platform rest) _ r1 in
      let same : event ∷ later ≡ events = ground arith in
      ap length (sym same) ∙ ap suc (length-scan_events rest later e2)

  pub page_parts :
      (db : Db) (run_id : String) (after limit : ℕ) (page : EventPage)
      → list_events platform db run_id after limit ≡ ok page
      → (run : RunRow) × (events : List EventRecord) × (find_row (λ r. r.id == run_id) db.runs
          ≡ some run)
        × (scan_events platform
              (take (suc (clamp_limit limit)) (timeline_after run_id after db.events))
            ≡ ok events)
        × (page ≡ make_page run after (clamp_limit limit) events)
  unfolding list_events page_of
  page_parts db run_id after limit page e = split (find_row (λ r. r.id == run_id) db.runs) refl e
    where
      split :
          (found : Option RunRow)
          → find_row (λ r. r.id == run_id) db.runs ≡ found
          → page_of platform db run_id after (clamp_limit limit) found ≡ ok page
          → (run : RunRow) × (events : List EventRecord) × (find_row (λ r. r.id == run_id) db.runs
              ≡ some run)
            × (scan_events platform
                  (take (suc (clamp_limit limit)) (timeline_after run_id after db.events))
                ≡ ok events)
            × (page ≡ make_page run after (clamp_limit limit) events)
      split none q r = absurd (cc)
      split (some run) q r =
          let (events, e1, r1) =
            >>=-eq-ok
              (scan_events platform
                (take (suc (clamp_limit limit)) (timeline_after run_id after db.events)))
              _ r in
          (run, events, q, e1, ground arith)

  -- A page never holds more events than the limit, which is 200 where the request names none or
  -- one above 1000.
  pub page_bounds :
      (db : Db) (run_id : String) (after limit : ℕ) (page : EventPage)
      → list_events platform db run_id after limit ≡ ok page
      → (length page.events ≤ clamp_limit limit) × (clamp_limit limit ≤ 1000)
  unfolding make_page clamp_limit
  page_bounds db run_id after limit page e =
      let (run, events, x1, x2, same) = page_parts db run_id after limit page e in
      ground (arith, length-take (clamp_limit limit) events)

  -- A page that says that there are more holds exactly as many events as the limit, and at least one.
  pub full_page :
      (db : Db) (run_id : String) (after limit : ℕ) (page : EventPage)
      → list_events platform db run_id after limit ≡ ok page
      → page.has_more ≡ true
      → (length page.events ≡ clamp_limit limit) × (1 ≤ length page.events)
  unfolding make_page clamp_limit
  full_page db run_id after limit page e more =
      let (run, events, x1, x2, same) = page_parts db run_id after limit page e in
      ground (arith, length-take (clamp_limit limit) events)

  no_rows_page : (run : RunRow) (after limit : ℕ) → (make_page run after limit []).events ≡ []
  unfolding make_page
  no_rows_page run after zero = ground arith
  no_rows_page run after (suc limit) = ground arith

  -- The cursor is the next sequence number of the run, one beyond the last that it has.
  caught_up :
      (db : Db) (run_id : String) (from limit : ℕ) (page : EventPage) (run : RunRow)
      (events : List EventRecord)
      → page ≡ make_page run from (clamp_limit limit) events
      → page.has_more ≡ false
      → page.next_sequence ≡ run.next_sequence
  unfolding make_page
  caught_up db run_id from limit page run events same done = ground arith

  nothing_after :
      (db after : Db) (stored : StoredEvent) (cursor : ℕ)
      → IsConsistent db
      → insert_event platform stored db ≡ ok after
      → cursor ≡ count_rows (of_run stored.run_id) db.events + 1
      → (timeline_after stored.run_id cursor after.events ≡ [])
        × ((run : RunRow) × (find_row (λ r. r.id == stored.run_id) after.runs ≡ some run))
  unfolding timeline_after sort_timeline count_rows
  nothing_after db after stored cursor h e c =
      let x = stored.run_id in
      let h' = insert_event-IsConsistent platform stored db after e h in
      let ((row, events, of_x), known) = insert_event_stored platform stored db after e in
      let counted : count_rows (of_run x) after.events ≡ cursor =
        rw events (
          ground (arith, count_rows-append (of_run x) db.events (row ∷ []), eq_iff row.run_id x)) in
      let none_beyond =
        select_beyond x cursor after.events (λ n lt. ground (arith, h'.numbering x n)) in
      let all_known =
        subst (All (λ e'. exists_row (is_run e'.run_id) after.runs ≡ true)) events h'.known in
      let last = All-last _ db.events row all_known in
      (
        ap sort_timeline none_beyond,
        find_row_of_exists _ after.runs
            (subst (λ z. exists_row (is_run z) after.runs ≡ true) of_x last),
      )

  -- The cursor of a page that reaches the end of its run passes over the next event: when a client
  -- has read a page with no more events behind it, and one more event of that run is then stored,
  -- the request with the page's `next_sequence` succeeds and returns no event at all.
  pub caught_up_cursor_misses :
      (db after : Db) (stored : StoredEvent) (from limit limit' : ℕ) (page : EventPage)
      → IsConsistent db
      → list_events platform db stored.run_id from limit ≡ ok page
      → page.has_more ≡ false
      → insert_event platform stored db ≡ ok after
      → (page' : EventPage) × (list_events platform after stored.run_id page.next_sequence limit'
          ≡ ok page')
        × (page'.events ≡ [])
  unfolding list_events page_of scan_events
  caught_up_cursor_misses db after stored from limit limit' page h e done stored_ok =
      let x = stored.run_id in
      let (run, events, found, x2, same) = page_parts db x from limit page e in
      let next =
        caught_up db x from limit page run events same done
        ∙ allocated-next stored db.runs db.events run (Staged-rebase "" x db.runs db.events h)
            found in
      let (nothing, (run', found')) =
        nothing_after db after stored page.next_sequence h stored_ok next in
      (
        make_page run' page.next_sequence (clamp_limit limit') [],
        rw (found', nothing),
        no_rows_page run' page.next_sequence (clamp_limit limit'),
      )
