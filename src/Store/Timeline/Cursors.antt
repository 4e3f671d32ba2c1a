-- ===== src/Store/Timeline/Cursors.antt =====
-- The sequence numbers on a page of `ListEvents` (internal/store/timeline.go) against the cursors
-- before and after it.
use traceboard.Prelude.{
  ℕ, Bool, zero, suc, ◌≤◌, ◌<◌, String, true, List, [], ◌∷◌, ◌≡◌, sym, ap, subst, ◌∙◌, arith,
  length, take, ◌&&◌, ◌==◌, ltb, select, All, All-both, Bool-cases, inl, inr, if◌then◌else◌,
}
use traceboard.Platform.{Platform}
use traceboard.Store.{Db, RunRow, EventRow, ok, err, >>=-eq-ok}
use traceboard.Store.Timeline.{
  EventPage, EventRecord, list_events, make_page, scan_event, scan_events, timeline_after,
  clamp_limit, highest, map_column, content_column,
}
use traceboard.Store.Timeline.Sorting.{sort_timeline-All}
use traceboard.Store.Timeline.Pages.{page_parts, full_page}

pub take-All : {A : Type 0} (P : A → Type 0) (n : ℕ) (xs : List A) → All P xs → All P (take n xs)
take-All P zero xs h = tt
take-All P (suc n) [] h = tt
take-All P (suc n) (x ∷ xs) h = (h.0, take-All P n xs h.1)

abbrev pub is_after : String → ℕ → EventRow → Bool
is_after x c e = e.run_id == x && ltb c e.sequence

pub select_after :
    (x : String) (c : ℕ) (es : List EventRow)
    → All (λ e. c < EventRow.sequence e) (select (is_after x c) es)
unfolding select
select_after x c [] = tt
select_after x c (e ∷ rest) = elim (Bool-cases (e.run_id == x && ltb c e.sequence)) [
  | inl found ↦ rw found (ground (arith, found), select_after x c rest)
  | inr other ↦ rw other (select_after x c rest)
]

-- The cursor is raised over everything that it passes.
highest_above :
    (c : ℕ) (es : List EventRecord)
    → (c ≤ highest c es) × All (λ e. EventRecord.sequence e ≤ highest c es) es
unfolding highest
highest_above c [] = (omega arith, tt)
highest_above c (e ∷ rest) =
    let above = highest_above (if ltb c e.sequence then e.sequence else c) rest in
    (ground (arith, above.0), (ground (arith, above.0), above.1))

module _ (platform : Platform) where
  pub scan_event-sequence :
      (row : EventRow) (event : EventRecord)
      → scan_event platform row ≡ ok event
      → event.sequence ≡ row.sequence
  unfolding scan_event
  scan_event-sequence row event e =
      let (a, x1, e1) =
        >>=-eq-ok (map_column "event capture" (platform.unmarshal row.capture)) _ e in
      let (b, x2, e2) =
        >>=-eq-ok (map_column "event attributes" (platform.unmarshal row.attributes)) _ e1 in
      let (c, x3, e3) = >>=-eq-ok (content_column platform row.content) _ e2 in
      ap (λ r. elim r [ ok v ↦ EventRecord.sequence v | err x ↦ 0 ]) (sym e3)

  scan_events-All :
      (c : ℕ) (rows : List EventRow) (events : List EventRecord)
      → scan_events platform rows ≡ ok events
      → All (λ r. c < EventRow.sequence r) rows
      → All (λ e. c < EventRecord.sequence e) events
  unfolding scan_events
  scan_events-All c [] events e h =
      let same : [] ≡ events = ground arith in
      subst (All (λ e'. c < EventRecord.sequence e')) same tt
  scan_events-All c (row ∷ rest) events e h =
      let (event, e1, r1) = >>=-eq-ok (scan_event platform row) _ e in
      let (later, e2, r2) = >>=-eq-ok (scan_events platform rest) _ r1 in
      let same : event ∷ later ≡ events = ground arith in
      subst (All _) same
        (omega (arith, scan_event-sequence row event e1, h.0), scan_events-All c rest later e2 h.1)

  events_beyond :
      (run : RunRow) (after limit bound : ℕ) (events : List EventRecord)
      → All (λ e. bound < EventRecord.sequence e) events
      → All (λ e. bound < EventRecord.sequence e) (make_page run after limit events).events
  unfolding make_page
  events_beyond run after limit bound events h = elim (Bool-cases (ltb limit (length events))) [
    | inl more ↦ rw more (take-All _ limit events h)
    | inr all ↦ rw all h
  ]

  -- What the rows after a cursor are all beyond, the events of the page are.
  pub page-All :
      (db : Db) (run_id : String) (after limit : ℕ) (page : EventPage) (bound : ℕ)
      → list_events platform db run_id after limit ≡ ok page
      → All (λ e. bound < EventRow.sequence e) (select (is_after run_id after) db.events)
      → All (λ e. bound < EventRecord.sequence e) page.events
  unfolding timeline_after
  page-All db run_id after limit page bound e h =
      let (run, events, x1, scanned, same) = page_parts platform db run_id after limit page e in
      let beyond =
        scan_events-All bound _ events scanned
          (take-All _ (suc (clamp_limit limit)) _ (sort_timeline-All _ _ h)) in
      subst (λ p. All (λ e'. bound < EventRecord.sequence e') (EventPage.events p)) (sym same)
        (events_beyond run after (clamp_limit limit) bound events beyond)

  pub events_below :
      (run : RunRow) (after limit : ℕ) (events : List EventRecord)
      → (make_page run after limit events).has_more ≡ true
      → All
          (λ e. EventRecord.sequence e ≤ (make_page run after limit events).next_sequence)
          (make_page run after limit events).events
  unfolding make_page
  events_below run after limit events more = rw more ((highest_above after (take limit events)).1)

  pub between :
      (low high : ℕ) (events : List EventRecord)
      → 1 ≤ length events
      → All (λ e. low < EventRecord.sequence e) events
      → All (λ e. EventRecord.sequence e ≤ high) events
      → low < high
  between low high [] n h k = omega (arith, n)
  between low high (e ∷ rest) n h k = omega (arith, h.0, k.0)

  -- A page that says that there are more moves the cursor forward, and every event on it has a
  -- sequence number beyond the cursor of the request and not beyond the new one.
  pub cursor_bounds :
      (db : Db) (run_id : String) (after limit : ℕ) (page : EventPage)
      → list_events platform db run_id after limit ≡ ok page
      → page.has_more ≡ true
      → (after < page.next_sequence)
        × All
            (λ e. (after < EventRecord.sequence e) × (EventRecord.sequence e ≤ page.next_sequence))
            page.events
  cursor_bounds db run_id after limit page e more =
      let (run, events, x1, x2, same) = page_parts platform db run_id after limit page e in
      let above =
        page-All db run_id after limit page after e (select_after run_id after db.events) in
      let below : All (λ e'. EventRecord.sequence e' ≤ page.next_sequence) page.events =
        subst
          (λ p.
            All (λ e'. EventRecord.sequence e' ≤ EventPage.next_sequence p) (EventPage.events p))
          (sym same)
          (events_below run after (clamp_limit limit) events
            (ap EventPage.has_more (sym same) ∙ more)) in
      let full = full_page platform db run_id after limit page e more in
      (
        between after page.next_sequence page.events full.1 above below,
        All-both _ _ page.events above below,
      )
