-- ===== src/Store/Timeline/Passed.antt =====
-- The events that the pages of `ListEvents` (internal/store/timeline.go) pass over.
use traceboard.Prelude.{
  ℕ, suc, ◌≤◌, ◌<◌, ◌≢◌, String, true, List, [], ◌∷◌, ◌++◌, ◌≡◌, refl, sym, ap, subst, ◌∙◌, arith,
  length, length-append, take, take-all, select, All, All-imp, Bool-cases, inl, inr, ltb,
}
use traceboard.Platform.{Platform}
use traceboard.Store.{Db, RunRow, EventRow, ok, >>=-eq-ok}
use traceboard.Store.Timeline.{
  EventPage, EventRecord, list_events, make_page, scan_event, scan_events, timeline_after,
  clamp_limit,
}
use traceboard.Store.Timeline.Sorting.{
  timeline_before, insert_sorted, sort_timeline, sort_timeline-All,
}
use traceboard.Store.Timeline.Pages.{page_parts, full_page, length-scan_events}
use traceboard.Store.Timeline.Cursors.{
  is_after, select_after, page-All, events_below, between, scan_event-sequence,
}

-- A row that all others occur before is sorted behind them.
insert_sorted-last :
    (e : EventRow) (l : List EventRow)
    → All (λ d. EventRow.occurred_at d < e.occurred_at) l
    → insert_sorted e l ≡ l ++ (e ∷ [])
unfolding insert_sorted timeline_before
insert_sorted-last e [] h = refl
insert_sorted-last e (d ∷ rest) h =
    let later = insert_sorted-last e rest h.1 in
    let before : timeline_before d e ≡ true = ground (arith, h.0) in rw (before, later) refl

length-insert_sorted :
    (e : EventRow) (l : List EventRow) → length (insert_sorted e l) ≡ suc (length l)
unfolding insert_sorted
length-insert_sorted e [] = refl
length-insert_sorted e (d ∷ rest) = elim (Bool-cases (timeline_before d e)) [
  | inl before ↦ rw before (ap suc (length-insert_sorted e rest))
  | inr other ↦ rw other refl
]

length-sort_timeline : (l : List EventRow) → length (sort_timeline l) ≡ length l
unfolding sort_timeline
length-sort_timeline [] = refl
length-sort_timeline (e ∷ rest) =
    length-insert_sorted e (sort_timeline rest) ∙ ap suc (length-sort_timeline rest)

module _ (platform : Platform) where
  -- What is known of the first rows is known of as many events.
  scan_events-first :
      (c : ℕ) (xs ys : List EventRow) (events : List EventRecord)
      → scan_events platform (xs ++ ys) ≡ ok events
      → All (λ r. c < EventRow.sequence r) xs
      → All (λ e. c < EventRecord.sequence e) (take (length xs) events)
  unfolding scan_events
  scan_events-first c [] ys events e h = tt
  scan_events-first c (row ∷ rest) ys events e h =
      let (event, e1, r1) = >>=-eq-ok (scan_event platform row) _ e in
      let (later, e2, r2) = >>=-eq-ok (scan_events platform (rest ++ ys)) _ r1 in
      let same : event ∷ later ≡ events = ground arith in
      subst (λ es. All (λ e'. c < EventRecord.sequence e') (take (suc (length rest)) es)) same
        (
          omega (arith, scan_event-sequence platform row event e1, h.0),
          scan_events-first c rest ys later e2 h.1,
        )

  full_make_page :
      (run : RunRow) (after limit : ℕ) (events : List EventRecord)
      → length events ≡ suc limit
      → ((make_page run after limit events).has_more ≡ true)
        × ((make_page run after limit events).events ≡ take limit events)
  unfolding make_page
  full_make_page run after limit events n =
      let more : ltb limit (length events) ≡ true = ground (arith, n) in (more, rw more refl)

  -- The rows of the first page: the row that occurred last stands behind the page.
  sorted_rows :
      (db : Db) (run_id : String) (after : ℕ) (a : EventRow) (rest : List EventRow)
      → select (is_after run_id after) db.events ≡ a ∷ rest
      → All (λ r. EventRow.occurred_at r < a.occurred_at) rest
      → timeline_after run_id after db.events ≡ sort_timeline rest ++ (a ∷ [])
  unfolding timeline_after sort_timeline
  sorted_rows db run_id after a rest rows before =
      ap sort_timeline rows
      ∙ insert_sorted-last a (sort_timeline rest) (sort_timeline-All _ rest before)

  first_page :
      (db : Db) (run_id : String) (after limit : ℕ) (a : EventRow) (rest : List EventRow)
      (page : EventPage)
      → select (is_after run_id after) db.events ≡ a ∷ rest
      → All (λ r. EventRow.occurred_at r < a.occurred_at) rest
      → All (λ r. a.sequence < EventRow.sequence r) rest
      → length rest ≡ clamp_limit limit
      → list_events platform db run_id after limit ≡ ok page
      → (page.has_more ≡ true) × All (λ e. a.sequence < EventRecord.sequence e) page.events
  first_page db run_id after limit a rest page rows before beyond n shown =
      let (run, events, x1, scanned, same) = page_parts platform db run_id after limit page shown in
      let sorted = sort_timeline rest in
      let long : length sorted ≡ clamp_limit limit = length-sort_timeline rest ∙ n in
      let whole : take (suc (clamp_limit limit)) (timeline_after run_id after db.events)
          ≡ sorted ++ (a ∷ []) =
        ap (take (suc (clamp_limit limit))) (sorted_rows db run_id after a rest rows before)
        ∙ take-all (suc (clamp_limit limit)) (sorted ++ (a ∷ []))
            (omega (arith, long, length-append sorted (a ∷ []))) in
      let read : scan_events platform (sorted ++ (a ∷ [])) ≡ ok events =
        ap (scan_events platform) (sym whole) ∙ scanned in
      let count : length events ≡ suc (clamp_limit limit) =
        omega
          (arith, length-scan_events platform _ events read, long, length-append sorted (a ∷ [])) in
      let (more, kept) = full_make_page run after (clamp_limit limit) events count in
      (
        ap EventPage.has_more same ∙ more,
        subst (All (λ e. a.sequence < EventRecord.sequence e))
            (ap (λ k. take k events) long ∙ sym kept ∙ sym (ap EventPage.events same))
            (scan_events-first a.sequence sorted (a ∷ []) events read
              (sort_timeline-All _ rest beyond)),
      )

  -- An event is passed over for good: where the rows behind a cursor are one that was stored first and
  -- occurred last and as many others as the page holds, the page says that there are more and does not
  -- show that one, and no page that is read from the page's cursor, or from a later one, shows it.
  pub passed_over :
      (db : Db) (run_id : String) (after limit cursor limit' : ℕ) (a : EventRow)
      (rest : List EventRow) (page page' : EventPage)
      → select (is_after run_id after) db.events ≡ a ∷ rest
      → All (λ r. EventRow.occurred_at r < a.occurred_at) rest
      → All (λ r. a.sequence < EventRow.sequence r) rest
      → length rest ≡ clamp_limit limit
      → list_events platform db run_id after limit ≡ ok page
      → page.next_sequence ≤ cursor
      → list_events platform db run_id cursor limit' ≡ ok page'
      → (page.has_more ≡ true)
        × All (λ e. a.sequence ≢ EventRecord.sequence e) page.events
        × All (λ e. a.sequence ≢ EventRecord.sequence e) page'.events
  passed_over db run_id after limit cursor limit' a rest page page' rows before beyond n shown low
        later =
      let (more, above) = first_page db run_id after limit a rest page rows before beyond n shown in
      let (run, events, x1, x2, same) = page_parts platform db run_id after limit page shown in
      let below : All (λ e. EventRecord.sequence e ≤ page.next_sequence) page.events =
        subst
          (λ p. All (λ e. EventRecord.sequence e ≤ EventPage.next_sequence p) (EventPage.events p))
          (sym same)
          (events_below platform run after (clamp_limit limit) events
            (ap EventPage.has_more (sym same) ∙ more)) in
      let behind : a.sequence < page.next_sequence =
        between platform a.sequence page.next_sequence page.events
          (full_page platform db run_id after limit page shown more).1 above below in
      (
        more,
        All-imp _ _ page.events (λ e h s. absurd (omega (arith, h, s))) above,
        All-imp _ _ page'.events (λ e h s. absurd (omega (arith, h, s, low, behind)))
            (page-All platform db run_id cursor limit' page' cursor later
              (select_after run_id cursor db.events)),
      )
