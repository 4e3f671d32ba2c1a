-- ===== src/Store/Listing.antt =====
-- The listings of internal/store/runs.go: ListRuns with its filter and cursor, GetRun, ListSteps and
-- the fields that `loadRunDerived` adds.
pub mod Paging
pub mod Pages
use Prim.Native.Char.{Char}
use traceboard.Prelude.{
  ℕ, suc, ◌+◌, String, Bool, true, false, Option, none, some, List, [], ◌∷◌, ◌++◌, ◌==◌, ◌&&◌, ◌||◌,
  not, map, length, take, eqb, ltb, leb, is_none, or_else, select, find_row, exists_row, count_rows,
  if◌then◌else◌,
}
use traceboard.Prelude.Sorting.{sort_by}
use traceboard.Prelude.TextOrder.{text_before}
use traceboard.Event.{Value, null, number, count, text, Fields, end, Instant}
use traceboard.Event.Maps
use traceboard.Event.EventType.{contains_text}
use traceboard.Platform.{Platform}
use traceboard.Store.{
  Db, RunRow, StepRow, EventRow, AlertRow, ProjectRow, Result, ok, err, invalid_cursor,
  run_not_found,
}
use traceboard.Store.Runs.{run_sort_at, is_newer, duration_ms}
use traceboard.Store.Search.{fts_query}
use traceboard.Store.Timeline.{decode_content_text, map_column}

pub record RunFilter : Type 0 where
  pub query : String
  pub source : String
  pub project_id : String
  pub status : String
  pub capture_mode : String
  pub alert_state : String
  pub started_after : Option Instant
  pub started_before : Option Instant
  pub parent_run_id : String
  pub subagent_only : Option Bool

-- No condition at all.
abbrev pub no_filter : RunFilter
no_filter = record {
  query = "";
  source = "";
  project_id = "";
  status = "";
  capture_mode = "";
  alert_state = "";
  started_after = none;
  started_before = none;
  parent_run_id = "";
  subagent_only = none;
}

pub record RunCursor : Type 0 where
  pub sort_at : Instant
  pub id : String

pub record Run : Type 0 where
  pub row : RunRow
  pub project_name : Option String
  pub title : Option String
  pub duration_ms : Option ℕ
  pub models : List String
  pub input_tokens : Option ℕ
  pub output_tokens : Option ℕ
  pub open_alerts : ℕ
  pub subagent_runs : ℕ

pub record RunPage : Type 0 where
  pub runs : List Run
  pub next_cursor : Option String

-- What the listing calls of SQLite and of Go's library: LIKE on the column of capture modes, MATCH on
-- the full-text table (is the run among the matches of this expression?), LIKE on an event type,
-- json.Marshal and json.Unmarshal of a cursor, base64.RawURLEncoding, the int64 of a decoded JSON
-- number, strings.TrimSpace, and unicode.IsLetter or unicode.IsDigit.
pub record Queries : Type 0 where
  pub like_mode : String → List String → Bool
  pub matches : String → Db → String → Bool
  pub is_usage_type : String → Bool
  pub marshal_cursor : RunCursor → Option String
  pub unmarshal_cursor : String → Option RunCursor
  pub base64_encode : String → String
  pub base64_decode : String → Option String
  pub to_int : String → ℕ
  pub trim_space : String → String
  pub is_letter_or_digit : Char → Bool

abbrev pub is_open_of : String → AlertRow → Bool
is_open_of id alert = elim alert.run_id [
  | none ↦ false
  | some r ↦ r == id && is_none alert.resolved_at
]

-- A condition that the filter asks for only where its text is not empty.
abbrev asked : String → Bool → Bool
asked given test = given == "" || test

abbrev same_text : Option String → String → Bool
same_text none s = false
same_text (some t) s = t == s

abbrev from_time : Option Instant → Instant → Bool
from_time none t = true
from_time (some from) t = leb from t

abbrev until_time : Option Instant → Instant → Bool
until_time none t = true
until_time (some to) t = ltb t to

abbrev subagent_test : Option Bool → Option String → Bool
subagent_test none parent = true
subagent_test (some true) parent = not (is_none parent)
subagent_test (some false) parent = is_none parent

unfoldable pub alert_test : String → Db → String → Bool
alert_test state db id =
    let open_alert = exists_row (is_open_of id) db.alerts in
    if state == "open" then open_alert else if state == "none" then not open_alert else true

-- The counts and names that the SELECT of a run joins to its row.
module _ (db : Db) where
  abbrev pub open_alerts_of : String → ℕ
  open_alerts_of id = count_rows (is_open_of id) db.alerts

  abbrev pub subagents_of : String → ℕ
  subagents_of id = count_rows (λ child. same_text (RunRow.parent_run_id child) id) db.runs

  abbrev project_name_of : Option String → Option String
  project_name_of none = none
  project_name_of (some p) = elim (find_row (λ project. ProjectRow.id project == p) db.projects) [
    | none ↦ none
    | some project ↦ project.name
  ]

-- The models in the order of their first appearance, and the sums of the tokens, if there are any.
pub record Usage : Type 0 where
  pub models : List String
  pub has_tokens : Bool
  pub input : ℕ
  pub output : ℕ

abbrev no_usage : Usage
no_usage = record { models = []; has_tokens = false; input = 0; output = 0 }

unfoldable pub add_model : Option Value → List String → List String
add_model (some (text model)) models =
    if model == "" || contains_text model models then models else models ++ (model ∷ [])
add_model _ models = models

-- (sort, id) < (cursor.sort_at, cursor.id)
unfoldable pub is_after_key : Instant → String → RunRow → Bool
is_after_key at id run =
    ltb (run_sort_at run) at || (eqb at (run_sort_at run) && text_before run.id id)

abbrev pub is_after_cursor : Option RunCursor → RunRow → Bool
is_after_cursor none run = true
is_after_cursor (some c) run = is_after_key c.sort_at c.id run

abbrev pub clamp_runs : ℕ → ℕ
clamp_runs limit = if eqb limit 0 || ltb 500 limit then 100 else limit

unfoldable pub last_run : RunRow → List RunRow → RunRow
last_run r [] = r
last_run r (s ∷ rest) = last_run s rest

abbrev pub cursor_of : RunRow → RunCursor
cursor_of r = record { sort_at = run_sort_at r; id = r.id }

module _ (platform : Platform) (queries : Queries) where
  -- numberAttribute
  unfoldable pub number_attribute : Option Value → Option ℕ
  number_attribute (some (number s)) = some (queries.to_int s)
  number_attribute (some (count n)) = some n
  number_attribute _ = none

  unfoldable pub add_usage : Usage → Fields → Usage
  unfolding add_model number_attribute
  add_usage usage attributes =
      let input = number_attribute (Maps.lookup "input_tokens" attributes) in
      let output = number_attribute (Maps.lookup "output_tokens" attributes) in
      record {
        models = add_model (Maps.lookup "model" attributes) usage.models;
        has_tokens = usage.has_tokens || not (is_none input && is_none output);
        input = usage.input + or_else input 0;
        output = usage.output + or_else output 0;
      }

  -- The loop of `loadRunDerived` over the rows in the order of their sequence numbers.
  unfoldable pub usage_of : Usage → List EventRow → Usage
  unfolding map_column add_usage
  usage_of usage [] = usage
  usage_of usage (e ∷ rest) = elim (map_column "" (platform.unmarshal e.attributes)) [
    | err x ↦ usage_of usage rest
    | ok attributes ↦ usage_of (add_usage usage attributes) rest
  ]

  abbrev by_sequence : EventRow → EventRow → Bool
  by_sequence a b = ltb a.sequence b.sequence

  abbrev has_text : Option String → Bool
  has_text none = false
  has_text (some s) = not (s == "")

  -- firstCapturedTitle
  unfoldable pub title_in : List EventRow → Option String
  unfolding decode_content_text
  title_in [] = none
  title_in (e ∷ rest) = elim (decode_content_text platform (or_else e.content "")) [
    | err x ↦ none
    | ok t ↦ if t == "" then none else some t
  ]

  unfoldable pub first_captured_title : String → Db → Option String
  unfolding title_in
  first_captured_title id db = title_in (
      sort_by by_sequence
        (select (λ e. EventRow.run_id e == id && has_text (EventRow.content e)) db.events))

  -- scanRun and loadRunDerived
  unfoldable pub load_run : Db → RunRow → Run
  unfolding usage_of first_captured_title
  load_run db row =
      let events = sort_by by_sequence (
        select (λ e. EventRow.run_id e == row.id && queries.is_usage_type (EventRow.type e))
          db.events) in
      let usage = usage_of no_usage events in
      record {
        row = row;
        project_name = project_name_of db row.project_id;
        title = elim row.title [ some t ↦ some t | none ↦ first_captured_title row.id db ];
        duration_ms = duration_ms row;
        models = usage.models;
        input_tokens = if usage.has_tokens then some usage.input else none;
        output_tokens = if usage.has_tokens then some usage.output else none;
        open_alerts = open_alerts_of db row.id;
        subagent_runs = subagents_of db row.id;
      }

  -- The conditions that the filter adds to the query.
  unfoldable pub passes : RunFilter → Db → RunRow → Bool
  unfolding alert_test fts_query
  passes filter db run =
      asked filter.source (run.source == filter.source)
      && (asked filter.project_id (same_text run.project_id filter.project_id)
          && (asked filter.status (run.status == filter.status)
              && (asked filter.capture_mode
                    (queries.like_mode filter.capture_mode run.capture_modes)
                  && (from_time filter.started_after (run_sort_at run)
                      && (until_time filter.started_before (run_sort_at run)
                          && (asked filter.parent_run_id
                                (same_text run.parent_run_id filter.parent_run_id)
                              && (subagent_test filter.subagent_only run.parent_run_id
                                  && (alert_test filter.alert_state db run.id
                                      && asked (queries.trim_space filter.query) (
                                          queries.matches
                                            (fts_query queries.is_letter_or_digit
                                              (queries.trim_space filter.query))
                                            db run.id)))))))))

  -- The rows of the query without its LIMIT, newest first.
  unfoldable pub matching : RunFilter → Option RunCursor → Db → List RunRow
  unfolding passes is_after_key
  matching filter cursor db =
      sort_by is_newer (select (λ r. passes filter db r && is_after_cursor cursor r) db.runs)

  -- encodeRunCursor
  unfoldable pub encode_run_cursor : RunCursor → String
  encode_run_cursor cursor = elim (queries.marshal_cursor cursor) [
    | none ↦ ""
    | some s ↦ queries.base64_encode s
  ]

  -- decodeRunCursor
  unfoldable pub decode_run_cursor : String → Result RunCursor
  decode_run_cursor value = elim (queries.base64_decode value) [
    | none ↦ err invalid_cursor
    | some s ↦ elim (queries.unmarshal_cursor s) [ none ↦ err invalid_cursor | some c ↦ ok c ]
  ]

  unfoldable pub cursor_after : List RunRow → Option String
  unfolding last_run encode_run_cursor
  cursor_after [] = none
  cursor_after (r ∷ rest) = some (encode_run_cursor (cursor_of (last_run r rest)))

  -- The page from the rows that LIMIT limit + 1 returned.
  unfoldable pub run_page : Db → ℕ → List RunRow → RunPage
  unfolding cursor_after load_run
  run_page db limit rows =
      let has_more = ltb limit (length rows) in
      record {
        runs = map (load_run db) (if has_more then take limit rows else rows);
        next_cursor = if has_more then cursor_after (take limit rows) else none;
      }

  -- The cursor of a page, which may be left out.
  unfoldable pub read_cursor : String → Result (Option RunCursor)
  unfolding decode_run_cursor
  read_cursor cursor =
      if cursor == ""
      then ok none
      else elim (decode_run_cursor cursor) [ err e ↦ err e | ok c ↦ ok (some c) ]

  unfoldable pub list_runs_from : RunFilter → ℕ → Db → Result (Option RunCursor) → Result RunPage
  unfolding run_page matching
  list_runs_from filter limit db (err e) = err e
  list_runs_from filter limit db (ok cursor) =
      ok (run_page db limit (take (suc limit) (matching filter cursor db)))

  -- ListRuns
  unfoldable pub list_runs : RunFilter → String → ℕ → Db → Result RunPage
  unfolding read_cursor list_runs_from
  list_runs filter cursor limit db =
      list_runs_from filter (clamp_runs limit) db (read_cursor cursor)

  -- ListSubagentRuns
  unfoldable pub list_subagent_runs : String → Db → Result RunPage
  unfolding list_runs
  list_subagent_runs parent db = list_runs (record no_filter { parent_run_id = parent }) "" 200 db

  loaded : Db → Option RunRow → Result Run
  loaded db none = err run_not_found
  loaded db (some row) = ok (load_run db row)

  -- GetRun
  unfoldable pub get_run : String → Db → Result Run
  unfolding loaded load_run
  get_run id db = loaded db (find_row (λ r. RunRow.id r == id) db.runs)

-- A step with the number of its events.
pub record StepView : Type 0 where
  pub row : StepRow
  pub event_count : ℕ

abbrev step_before : StepRow → StepRow → Bool
step_before a b =
    ltb a.created_at b.created_at || (eqb a.created_at b.created_at && text_before a.id b.id)

abbrev step_view : Db → StepRow → StepView
step_view db row = record {
  row = row;
  event_count =
      count_rows (λ e. EventRow.run_id e == row.run_id && same_text (EventRow.step_id e) row.id)
        db.events;
}

-- ListSteps
unfoldable pub list_steps : String → Db → List StepView
list_steps id db =
    map (step_view db) (sort_by step_before (select (λ s. StepRow.run_id s == id) db.steps))

-- CountRuns
abbrev pub count_runs : Db → ℕ
count_runs db = length db.runs
