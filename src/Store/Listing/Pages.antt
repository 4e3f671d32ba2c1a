-- ===== src/Store/Listing/Pages.antt =====
-- A client of `ListRuns` (internal/store/runs.go) that reads page after page.
use traceboard.Prelude.{
  ℕ, suc, ◌≤◌, ◌<◌, String, false, Option, none, some, List, [], ◌∷◌, ◌++◌, ◌==◌, ◌≡◌, refl, ap,
  ◌∙◌, arith, map, length, take, take-all, drop, take-append-drop, ltb, le→ltb, lt→ltb, length-take,
  zero, Bool-cases, inl, inr,
}
use traceboard.Store.Listing.Paging.{matching-drop}
use traceboard.Platform.{Platform}
use traceboard.Store.{Db, RunRow, Result, ok, err}
use traceboard.Store.Runs.Deleting.{HasUniqueIds}
use traceboard.Store.Listing.{
  RunFilter, RunCursor, Run, RunPage, Queries, matching, clamp_runs, last_run, cursor_of,
  cursor_after, run_page, read_cursor, encode_run_cursor, decode_run_cursor, list_runs_from,
  list_runs, load_run,
}

module _ {A : Type 0} where
  take-take-suc : (n : ℕ) (l : List A) → take n (take (suc n) l) ≡ take n l
  take-take-suc zero l = refl
  take-take-suc (suc n) [] = refl
  take-take-suc (suc n) (x ∷ l) = ap (λ t. x ∷ t) (take-take-suc n l)

  length-drop-lt : (n : ℕ) (x : A) (l : List A) → length (drop n l) < length (x ∷ l)
  length-drop-lt zero x l = omega arith
  length-drop-lt (suc n) x [] = omega arith
  length-drop-lt (suc n) x (y ∷ l) = omega (arith, length-drop-lt n y l)

-- What a client of the listing does: it asks for page after page, with the cursor that the last one
-- gave, until there is none.
prepend_runs : List Run → Option (Result (List Run)) → Option (Result (List Run))
prepend_runs runs none = none
prepend_runs runs (some (err e)) = some (err e)
prepend_runs runs (some (ok later)) = some (ok (runs ++ later))

follow_cursor :
    List Run → Option String → (String → Option (Result (List Run))) → Option (Result (List Run))
unfolding prepend_runs
follow_cursor runs none rest = some (ok runs)
follow_cursor runs (some next) rest = prepend_runs runs (rest next)

follow_page : Result RunPage → (String → Option (Result (List Run))) → Option (Result (List Run))
unfolding follow_cursor
follow_page (err e) rest = some (err e)
follow_page (ok page) rest = follow_cursor page.runs page.next_cursor rest

module _ (platform : Platform) (queries : Queries) where
  -- `none` where the number of pages is not enough.
  unfoldable pub read_pages : RunFilter → ℕ → Db → ℕ → String → Option (Result (List Run))
  unfolding follow_page
  read_pages filter limit db zero cursor = none
  read_pages filter limit db (suc pages) cursor =
      follow_page (list_runs platform queries filter cursor limit db)
        (read_pages filter limit db pages)

  page_whole :
      (db : Db) (m : ℕ) (l : List RunRow)
      → length l ≤ m
      → run_page platform queries db m (take (suc m) l)
        ≡ record { runs = map (load_run platform queries db) l; next_cursor = none }
  unfolding run_page
  page_whole db m l h =
      let whole = take-all (suc m) l (omega (arith, h)) in
      let no_more = le→ltb m (length l) h in rw (whole, no_more) refl

  page_first :
      (db : Db) (m : ℕ) (l : List RunRow)
      → m < length l
      → run_page platform queries db m (take (suc m) l) ≡ record {
        runs = map (load_run platform queries db) (take m l);
        next_cursor = cursor_after platform queries (take m l);
      }
  unfolding run_page
  page_first db m l h =
      let more = lt→ltb m (length (take (suc m) l)) (omega (arith, h, length-take (suc m) l)) in
      rw (more, take-take-suc m l) refl

map-append : {A B : Type 0} (f : A → B) (xs ys : List A) → map f xs ++ map f ys ≡ map f (xs ++ ys)
map-append f [] ys = refl
map-append f (x ∷ xs) ys = ap (λ l. f x ∷ l) (map-append f xs ys)

clamp_runs-suc : (limit : ℕ) → (n : ℕ) × (clamp_runs limit ≡ suc n)
clamp_runs-suc zero = (99, refl)
clamp_runs-suc (suc n) = elim (Bool-cases (ltb 500 (suc n))) [
  | inl e ↦ (99, ground (arith, e))
  | inr e ↦ (n, ground (arith, e))
]

module _ (platform : Platform) (queries : Queries)
    (marshals : (k : RunCursor) → (t : String) × (queries.marshal_cursor k ≡ some t))
    (unmarshals : (k : RunCursor) (t : String)
      → queries.marshal_cursor k ≡ some t
      → queries.unmarshal_cursor t ≡ some k)
    (decodes : (t : String) → queries.base64_decode (queries.base64_encode t) ≡ some t)
    (not_empty : (k : RunCursor) (t : String)
      → queries.marshal_cursor k ≡ some t
      → (queries.base64_encode t == "") ≡ false)
    (filter : RunFilter) (limit : ℕ) (db : Db) (unique : HasUniqueIds db.runs) where
  -- The text of a cursor that the listing made is read as that cursor.
  read_made :
      (k : RunCursor)
      → read_cursor platform queries (encode_run_cursor platform queries k) ≡ ok (some k)
  unfolding read_cursor decode_run_cursor encode_run_cursor
  read_made k =
      let (t, made) = marshals k in
      ground (arith, made, not_empty k t made, decodes t, unmarshals k t made)

  module _ (n : ℕ) (text : String) (cursor : Option RunCursor) (l : List RunRow)
      (clamped : clamp_runs limit ≡ suc n)
      (text_read : read_cursor platform queries text ≡ ok cursor)
      (found : matching platform queries filter cursor db ≡ l) where
    list_runs-run_page :
        list_runs platform queries filter text limit db
        ≡ ok (run_page platform queries db (suc n) (take (suc (suc n)) l))
    unfolding list_runs list_runs_from
    list_runs-run_page = rw (clamped, text_read, found) refl

    last_page :
        (pages : ℕ)
        → length l ≤ suc n
        → read_pages platform queries filter limit db (suc pages) text
          ≡ some (ok (map (load_run platform queries db) l))
    unfolding read_pages
    last_page pages h =
        let rest = read_pages platform queries filter limit db pages in
        ap (λ page. follow_page page rest) list_runs-run_page
        ∙ ap (λ page. follow_page (ok page) rest) (page_whole platform queries db (suc n) l h)

    more_pages :
        (pages : ℕ)
        → suc n < length l
        → read_pages platform queries filter limit db (suc pages) text
          ≡ follow_cursor
              (map (load_run platform queries db) (take (suc n) l))
              (cursor_after platform queries (take (suc n) l))
              (read_pages platform queries filter limit db pages)
    unfolding read_pages
    more_pages pages h =
        let rest = read_pages platform queries filter limit db pages in
        ap (λ page. follow_page page rest) list_runs-run_page
        ∙ ap (λ page. follow_page (ok page) rest) (page_first platform queries db (suc n) l h)

  read_rest :
      (pages n : ℕ) (text : String) (cursor : Option RunCursor) (l : List RunRow)
      → clamp_runs limit ≡ suc n
      → read_cursor platform queries text ≡ ok cursor
      → matching platform queries filter cursor db ≡ l
      → length l < pages
      → read_pages platform queries filter limit db pages text
        ≡ some (ok (map (load_run platform queries db) l))
  unfolding follow_cursor cursor_after
  read_rest zero n text cursor l m t e h = absurd (omega (arith, h))
  read_rest (suc pages) n text cursor [] m t e h =
      last_page n text cursor [] m t e pages (omega arith)
  read_rest (suc pages) n text cursor (r ∷ rest) m t e h = elim (Bool-cases (ltb n (length rest))) [
    | inl more ↦
        let load = load_run platform queries db in
        let k = cursor_of (last_run r (take n rest)) in
        let later = matching-drop platform queries filter db cursor n r rest unique e in
        let read_later =
          read_rest pages n (encode_run_cursor platform queries k) (some k) (drop n rest) m
            (read_made k) later (omega (arith, h, length-drop-lt n r rest)) in
        more_pages n text cursor (r ∷ rest) m t e pages (ground (arith, more))
        ∙ (ap (prepend_runs (map load (take (suc n) (r ∷ rest)))) read_later
            ∙ ap (λ all. some (ok (load r ∷ all)))
                (map-append load (take n rest) (drop n rest)
                  ∙ ap (map load) (take-append-drop n rest)))
    | inr whole ↦ last_page n text cursor (r ∷ rest) m t e pages (ground (arith, whole))
  ]

  -- A client that starts without a cursor and follows the cursors that the pages give, for any
  -- limit, reads each run that passes the filter once and in the order of the listing, and it is
  -- done after at most one page for each such run and one more. Where the ids of the runs are unique,
  -- a cursor is encoded to JSON that decodes to it, and to base64 that is not empty and decodes to
  -- that JSON.
  pub read_pages-matching :
      read_pages platform queries filter limit db
        (suc (length (matching platform queries filter none db)))
        ""
      ≡ some (ok (map (load_run platform queries db) (matching platform queries filter none db)))
  unfolding read_cursor
  read_pages-matching =
      let (n, clamped) = clamp_runs-suc limit in
      read_rest (suc (length (matching platform queries filter none db))) n "" none
        (matching platform queries filter none db) clamped refl refl (omega arith)
