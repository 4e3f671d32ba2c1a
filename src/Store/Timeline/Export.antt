-- ===== src/Store/Timeline/Export.antt =====
-- `ListAllEvents` of internal/store/timeline.go: the loop over the pages of a run. Its rounds are
-- bounded by fuel here.
use traceboard.Prelude.{
  refl, ap, ◌∙◌, take, find_row, ◌==◌, le→ltb, ℕ, zero, suc, ◌≤◌, ◌<◌, String, Bool, true, false,
  Option, none, some, List, [], ◌∷◌, ◌++◌, ◌≡◌, arith, Bool-cases, inl, inr, ltb→lt, count_rows,
  select, All, All-imp, ◌||◌, not, eqb, ltb, length,
}
use traceboard.Platform.{Platform}
use traceboard.Store.{EventRow, RunRow, Db, Result, ok, err}
use traceboard.Store.Timeline.{
  EventPage, EventRecord, list_events, page_of, make_page, clamp_limit, scan_events, timeline_after,
}
use traceboard.Store.Timeline.Pages.{full_page, length-scan_events}
use traceboard.Store.Timeline.Cursors.{is_after, between, page-All, cursor_bounds}

-- What the loop does after a page.
module _ (platform : Platform) (db : Db) (run_id : String) where
  unfoldable pub is_last_page : EventPage → Bool
  is_last_page page = not page.has_more || eqb (length page.events) 0

  -- The loop of `ListAllEvents`; `none` means that the fuel ran out.
  unfoldable pub collect_pages : ℕ → List EventRecord → ℕ → Option (Result (List EventRecord))
  collect_pages zero collected cursor = none
  collect_pages (suc fuel) collected cursor = elim (list_events platform db run_id cursor 1000) [
    | err e ↦ some (err e)
    | ok page ↦ elim (is_last_page page) [
      | true ↦ some (ok (collected ++ page.events))
      | false ↦ collect_pages fuel (collected ++ page.events) page.next_sequence
    ]
  ]

  -- ListAllEvents
  unfoldable pub list_all_events : Option (Result (List EventRecord))
  unfolding collect_pages
  list_all_events = collect_pages (suc (length db.events)) [] 0

take-all : {A : Type 0} (n : ℕ) (xs : List A) → length xs ≤ n → take n xs ≡ xs
take-all zero [] h = refl
take-all zero (x ∷ xs) h = absurd (omega (arith, h))
take-all (suc n) [] h = refl
take-all (suc n) (x ∷ xs) h = ap (λ l. x ∷ l) (take-all n xs (omega (arith, h)))

-- Fewer rows are beyond a later cursor.
count_after :
    (x : String) (c d : ℕ) (es : List EventRow)
    → c ≤ d
    → count_rows (is_after x d) es ≤ count_rows (is_after x c) es
unfolding count_rows
count_after x c d [] h = omega arith
count_after x c d (e ∷ rest) h = ground (arith, count_after x c d rest h)

-- If they are not fewer, then all rows beyond the earlier cursor are beyond the later one.
select_after_same :
    (x : String) (c d : ℕ) (es : List EventRow)
    → c ≤ d
    → count_rows (is_after x c) es ≤ count_rows (is_after x d) es
    → All (λ e. d < EventRow.sequence e) (select (is_after x c) es)
unfolding count_rows select
select_after_same x c d [] h k = tt
select_after_same x c d (e ∷ rest) h k = elim (Bool-cases (is_after x c e)) [
  | inl found ↦ rw found (
    ground (arith, found, k, count_after x c d rest h),
    select_after_same x c d rest h (ground (arith, found, k, count_after x c d rest h)),
  )
  | inr other ↦ rw other (select_after_same x c d rest h (ground (arith, other, k)))
]

module _ (platform : Platform) (db : Db) (run_id : String) where
  -- Every page with more behind it leaves fewer rows beyond its cursor.
  fewer_left :
      (after limit : ℕ) (page : EventPage)
      → list_events platform db run_id after limit ≡ ok page
      → page.has_more ≡ true
      → count_rows (is_after run_id page.next_sequence) db.events
        < count_rows (is_after run_id after) db.events
  fewer_left after limit page e more =
      let (forward, bounds) = cursor_bounds platform db run_id after limit page e more in
      let full = full_page platform db run_id after limit page e more in
      let next = page.next_sequence in
      let left = count_rows (is_after run_id next) db.events in
      let before = count_rows (is_after run_id after) db.events in
      elim (Bool-cases (ltb left before)) [
        | inl less ↦ ltb→lt left before less
        | inr other ↦ absurd (
            omega (
              arith,
              between platform next next page.events full.1
                  (page-All platform db run_id after limit page next e (
                    select_after_same run_id after next db.events (omega (arith, forward))
                      (ground (arith, other))))
                  (All-imp _ _ page.events (λ e' p. p.1) bounds),
            ))
      ]

  more_pages :
      (page : EventPage) → is_last_page platform db run_id page ≡ false → page.has_more ≡ true
  unfolding is_last_page
  more_pages page h = ground (arith, h)

  collect_total :
      (fuel : ℕ) (collected : List EventRecord) (cursor : ℕ)
      → count_rows (is_after run_id cursor) db.events < fuel
      → (result : Result (List EventRecord)) × (collect_pages platform db run_id fuel collected
            cursor
          ≡ some result)
  unfolding collect_pages
  collect_total zero collected cursor h = absurd (omega (arith, h))
  collect_total (suc fuel) collected cursor h =
      split (list_events platform db run_id cursor 1000) refl (collect_total fuel)
    where
      split :
          (answer : Result EventPage)
          → list_events platform db run_id cursor 1000 ≡ answer
          → ((later : List EventRecord) (next : ℕ)
              → count_rows (is_after run_id next) db.events < fuel
              → (result : Result (List EventRecord)) × (collect_pages platform db run_id fuel later
                    next
                  ≡ some result))
          → (result : Result (List EventRecord)) × (collect_pages platform db run_id
                (suc fuel)
                collected
                cursor
              ≡ some result)
      split (err e) q again = (err e, ground (arith, q))
      split (ok page) q again = elim (Bool-cases (is_last_page platform db run_id page)) [
        | inl last ↦ (ok (collected ++ page.events), ground (arith, q, last))
        | inr more ↦
            let less = fewer_left cursor 1000 page q (more_pages page more) in
            let later =
              again (collected ++ page.events) page.next_sequence (omega (arith, less, h)) in
            (later.0, ground (arith, q, more, later.1))
      ]

  count_all : (p : EventRow → Bool) (es : List EventRow) → count_rows p es ≤ length es
  unfolding count_rows
  count_all p [] = omega arith
  count_all p (e ∷ rest) = ground (arith, count_all p rest)

  one_page :
      (run : RunRow) (events : List EventRecord)
      → find_row (λ r. RunRow.id r == run_id) db.runs ≡ some run
      → scan_events platform (take 1001 (timeline_after run_id 0 db.events)) ≡ ok events
      → length events ≤ 1000
      → (page : EventPage) × (list_events platform db run_id 0 1000 ≡ ok page)
        × (is_last_page platform db run_id page ≡ true)
        × (page.events ≡ events)
  unfolding list_events page_of clamp_limit make_page is_last_page
  one_page run events known scanned short = (
    make_page run 0 1000 events,
    rw (known, scanned) refl,
    rw (le→ltb 1000 (length events) short) refl,
    rw (le→ltb 1000 (length events) short) refl,
  )

  -- `ListAllEvents` ends: it asks for at most one page more than the table has events, whatever
  -- the table holds, and returns the events or the error of a page.
  pub list_all_events_total :
      (result : Result (List EventRecord)) × (list_all_events platform db run_id ≡ some result)
  unfolding list_all_events
  list_all_events_total =
      collect_total (suc (length db.events)) [] 0
        (omega (arith, count_all (is_after run_id 0) db.events))

  -- What `ListAllEvents` returns for a run of at most 1000 events that can all be read: exactly these
  -- events, in the order of the timeline.
  pub list_all_events_short :
      (run : RunRow) (events : List EventRecord)
      → find_row (λ r. RunRow.id r == run_id) db.runs ≡ some run
      → scan_events platform (timeline_after run_id 0 db.events) ≡ ok events
      → length events ≤ 1000
      → list_all_events platform db run_id ≡ some (ok events)
  unfolding list_all_events collect_pages
  list_all_events_short run events known scanned short =
      let all =
        take-all 1001 (timeline_after run_id 0 db.events)
          (omega (arith, length-scan_events platform _ events scanned, short)) in
      let answer = one_page run events known (ap (scan_events platform) all ∙ scanned) short in
      let (page, asked, last, same) = answer in ground (arith, asked, last, same)
