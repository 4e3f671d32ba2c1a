-- ===== src/Examples/ListingRuns.antt =====
-- Runs of the listing: two runs read in pages of one, an evaluation that spares a run, and a search.
use Prim.Native.Char.{code}
use Prim.Native.String.{[] as empty_text, ◌∷◌ as put}
use Prim.Native.String.compare
use text.Mathlib.Text.{is_eq}
use traceboard.Prelude.{
  ℕ, zero, suc, String, true, false, Option, none, some, [], ◌∷◌, ◌≡◌, refl, ap, subst, ◌==◌, arith,
  eqb, eq_iff, map, length, All, inl, inr, find_row, select, exists_row, count_rows, if◌then◌else◌,
}
use traceboard.Prelude.Sorting.{sort_by, insert_by}
use traceboard.Store.{Db, RunRow, Result, ok, err}
use traceboard.Store.Runs.{is_newer, run_sort_at}
use traceboard.Store.Runs.Deleting.{HasUniqueIds}
use traceboard.Store.Listing.{
  no_filter, RunCursor, Queries, RunPage, list_runs, load_run, matching, run_page, list_runs_from,
  read_cursor, passes, is_after_key, alert_test, usage_of, first_captured_title, title_in,
}
use traceboard.Store.Listing.Pages.{read_pages, read_pages-matching}
use traceboard.Store.Search.{fts_query, trimmed_terms, words_of}
use traceboard.Store.Search.Phrases.{read_phrases, phrases_of, read_phrases-fts_query}
use traceboard.Evaluate.{Config}
use traceboard.Evaluate.Runs.{evaluate_stalled, with_status}
use traceboard.Evaluate.Runs.Untouched.{IsSpared, evaluate_stalled-Spares}
use traceboard.Examples.{platform, after, program}

-- A cursor as a text: as many times `a` as its instant says, a `b`, and the id.
unary : ℕ → String → String
unary zero id = put "b" id
unary (suc n) id = put "a" (unary n id)

one_more : Option RunCursor → Option RunCursor
one_more none = none
one_more (some c) = some (record { sort_at = suc c.sort_at; id = c.id })

read_unary : String → Option RunCursor
unfolding one_more
read_unary empty_text = none
read_unary (put c s) =
    let rest = read_unary s in
    if eqb (code c) 97 then one_more rest else some (record { sort_at = 0; id = s })

read_unary-unary :
    (n : ℕ) (id : String) → read_unary (unary n id) ≡ some (record { sort_at = n; id = id })
unfolding unary read_unary one_more
read_unary-unary zero id = refl
read_unary-unary (suc n) id = ap one_more (read_unary-unary n id)

unary-not_empty : (n : ℕ) (id : String) → (unary n id == "") ≡ false
unfolding unary
unary-not_empty zero id = ap is_eq (compare.cons-nil "b" id)
unary-not_empty (suc n) id = ap is_eq (compare.cons-nil "a" (unary n id))

abbrev queries : Queries
queries = record {
  like_mode = λ mode modes. true;
  matches = λ expression db id. true;
  is_usage_type = λ type. false;
  marshal_cursor = λ k. some (unary k.sort_at k.id);
  unmarshal_cursor = read_unary;
  base64_encode = λ s. s;
  base64_decode = λ s. some s;
  to_int = λ s. 0;
  trim_space = λ s. s;
  is_letter_or_digit = λ c. eqb (code c) 97;
}

unmarshals :
    (k : RunCursor) (t : String)
    → queries.marshal_cursor k ≡ some t
    → queries.unmarshal_cursor t ≡ some k
unmarshals k t h =
    let same : unary k.sort_at k.id ≡ t = cc in
    subst (λ s. read_unary s ≡ some k) same (read_unary-unary k.sort_at k.id)

not_empty :
    (k : RunCursor) (t : String)
    → queries.marshal_cursor k ≡ some t
    → (queries.base64_encode t == "") ≡ false
not_empty k t h =
    let same : unary k.sort_at k.id ≡ t = cc in
    subst (λ s. (s == "") ≡ false) same (unary-not_empty k.sort_at k.id)

abbrev run : String → ℕ → RunRow
run id at = record {
  id = id;
  source = "codex";
  project_id = none;
  parent_run_id = none;
  title = some "a title";
  status = "started";
  started_at = some at;
  ended_at = none;
  last_event_at = some at;
  event_count = 0;
  error_count = 0;
  next_sequence = 1;
  capture_modes = [];
  created_at = at;
  updated_at = at;
}

abbrev two_runs : Db
two_runs = record after { runs = run "run_1" 3 ∷ run "run_2" 9 ∷ []; events = [] }

two-HasUniqueIds : HasUniqueIds two_runs.runs
unfolding count_rows
two-HasUniqueIds x = ground (arith, eq_iff "run_1" x, eq_iff "run_2" x, eq_iff "run_1" "run_2")

read_pages-matching_example :
    read_pages platform queries no_filter 1 two_runs
      (suc (length (matching platform queries no_filter none two_runs)))
      ""
    ≡ some (
        ok (
          map
            (load_run platform queries two_runs)
            (matching platform queries no_filter none two_runs)))
read_pages-matching_example =
    read_pages-matching platform queries (λ k. (_, refl)) unmarshals (λ t. refl) not_empty no_filter
      1 two_runs two-HasUniqueIds

-- Search

read_phrases-fts_query_example :
    read_phrases (fts_query queries.is_letter_or_digit "aa OR a\"a")
    ≡ some (phrases_of (trimmed_terms (words_of queries.is_letter_or_digit "aa OR a\"a")))
read_phrases-fts_query_example = read_phrases-fts_query queries.is_letter_or_digit "aa OR a\"a"

-- An evaluation at the time 20 with a timeout of 15: the second run is heard of.

abbrev config : Config
config = record {
  heartbeat_interval = 10;
  missed_heartbeats = 3;
  notifiable = true;
  has_notifier = true;
}

listing : ℕ
unfolding program select exists_row count_rows find_row sort_by insert_by is_newer run_sort_at
    list_runs run_page list_runs_from read_cursor passes is_after_key alert_test load_run usage_of
    first_captured_title title_in matching fts_query
listing = 0

abbrev page_in : Result RunPage → RunPage
page_in (ok p) = p
page_in (err e) = record { runs = []; next_cursor = none }

abbrev listed : Result RunPage
listed =
    list_runs platform queries (with_status (λ t. "") config 15 platform queries "started") "" 500
      two_runs

page_listed : listed ≡ ok (page_in listed)
unfolding listing
page_listed = refl

page-IsSpared : All (IsSpared (λ t. "") config 15 "run_2" 20) (page_in listed).runs
unfolding listing
page-IsSpared = (inr (inr (9, refl, refl)), (inl refl, tt))

evaluate_stalled-Spares_example :
    find_row
      (λ r. RunRow.id r == "run_2")
      (evaluate_stalled (λ t. "") config 15 platform queries 20 20 two_runs).db.runs
    ≡ find_row (λ r. RunRow.id r == "run_2") two_runs.runs
evaluate_stalled-Spares_example =
    evaluate_stalled-Spares (λ t. "") config 15 "run_2" platform queries 20 20 two_runs
      (page_in listed) page_listed page-IsSpared
