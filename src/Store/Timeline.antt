-- ===== src/Store/Timeline.antt =====
-- internal/store/timeline.go: the pages of a run's timeline. `limit` ranges over the natural
-- numbers: a negative one is treated as 0 is.
pub mod Sorting
pub mod Pages
pub mod Cursors
pub mod Passed
pub mod Export
use traceboard.Prelude.{
  ℕ, suc, ◌+◌, String, Bool, true, false, Option, none, some, List, [], ◌∷◌, ◌==◌, ◌&&◌, ◌||◌, not,
  ltb, eqb, is_none, length, take, select, find_row, if◌then◌else◌,
}
use mathlib.Core.List.{◌++◌ as append}
use traceboard.Event.{Value, null, text, obj, Fields, end, field, Instant}
use traceboard.Event.Maps
use traceboard.Event.Maps.{or_empty}
use traceboard.Platform.{Platform}
use traceboard.Store.{
  Db, RunRow, EventRow, Result, ok, err, ◌>>=◌, encoding, run_not_found, event_not_found,
}
use traceboard.Store.Timeline.Sorting.{sort_timeline}

pub record EventRecord : Type 0 where
  pub event_id : String
  pub source_event_id : String
  pub source : String
  pub source_version : String
  pub run_id : String
  pub step_id : Option String
  pub parent_step_id : Option String
  pub source_sequence : Option ℕ
  pub sequence : ℕ
  pub occurred_at : Instant
  pub received_at : Instant
  pub type : String
  pub status : String
  pub capture : Fields
  pub attributes : Fields
  pub content : Option Fields
  pub raw : Value
  pub searchable : Bool

pub record EventPage : Type 0 where
  pub events : List EventRecord
  pub next_sequence : ℕ
  pub run_sequence : ℕ
  pub has_more : Bool
  pub run_status : String

-- json.Unmarshal into a map, and an empty map for nil.
unfoldable pub map_column : String → Option Value → Result Fields
map_column what (some (obj m)) = ok m
map_column what (some null) = ok end
map_column what _ = err (encoding what)

-- The loop of `decodeContentText`.
first_text : Fields → List String → String
first_text m [] = ""
first_text m (key ∷ rest) =
    let later = first_text m rest in
    elim (Maps.lookup key m) [ some (text s) ↦ if s == "" then later else s | _ ↦ later ]

abbrev content_keys : List String
content_keys = "text" ∷ "prompt" ∷ "output" ∷ "input" ∷ "error" ∷ "response" ∷ []

abbrev raw_or_null : Option Value → Value
raw_or_null none = null
raw_or_null (some v) = v

abbrev is_null : Value → Bool
is_null null = true
is_null _ = false

module _ (platform : Platform) where
  -- decodeContentText
  unfoldable pub decode_content_text : String → Result String
  unfolding map_column first_text
  decode_content_text encoded = do
    decoded ← map_column "content" (platform.unmarshal encoded)
    ok (first_text decoded content_keys)

  pub content_column : Option String → Result (Option Fields)
  unfolding decode_content_text
  content_column none = ok none
  content_column (some encoded) =
      if encoded == ""
      then ok none
      else do decoded ← decode_content_text encoded; ok (some (field "text" (text decoded) end))

  raw_column : Option String → Value
  raw_column none = null
  raw_column (some encoded) =
      if encoded == "" then null else raw_or_null (platform.unmarshal encoded)

  -- scanEventRecord, on a row that the query returned.
  unfoldable pub scan_event : EventRow → Result EventRecord
  unfolding map_column content_column raw_column
  scan_event row = do
    capture ← map_column "event capture" (platform.unmarshal row.capture)
    attributes ← map_column "event attributes" (platform.unmarshal row.attributes)
    content ← content_column row.content
    let raw = raw_column row.raw
    ok (record {
      event_id = row.event_id;
      source_event_id = row.source_event_id;
      source = row.source;
      source_version = row.source_version;
      run_id = row.run_id;
      step_id = row.step_id;
      parent_step_id = row.parent_step_id;
      source_sequence = row.source_sequence;
      sequence = row.sequence;
      occurred_at = row.occurred_at;
      received_at = row.received_at;
      type = row.type;
      status = row.status;
      capture = capture;
      attributes = attributes;
      content = content;
      raw = raw;
      searchable = not (is_none content) || not (is_null raw);
    })

  unfoldable pub scan_events : List EventRow → Result (List EventRecord)
  scan_events [] = ok []
  scan_events (row ∷ rest) = do
    event ← scan_event row
    events ← scan_events rest
    ok (event ∷ events)

-- The rows after a cursor, in the order of the timeline.
unfoldable pub timeline_after : String → ℕ → List EventRow → List EventRow
timeline_after run_id after events =
    sort_timeline (select (λ e. e.run_id == run_id && ltb after e.sequence) events)

-- The loop that raises the cursor to the highest sequence of the page.
unfoldable pub highest : ℕ → List EventRecord → ℕ
highest cursor [] = cursor
highest cursor (e ∷ rest) = highest (if ltb cursor e.sequence then e.sequence else cursor) rest

unfoldable pub clamp_limit : ℕ → ℕ
clamp_limit limit = if eqb limit 0 || ltb 1000 limit then 200 else limit

-- The page from the rows that LIMIT limit + 1 returned.
unfoldable pub make_page : RunRow → ℕ → ℕ → List EventRecord → EventPage
unfolding highest
make_page run after limit events =
    let has_more = ltb limit (length events) in
    let kept = if has_more then take limit events else events in
    record {
      events = kept;
      next_sequence = if has_more then highest after kept else run.next_sequence;
      run_sequence = run.next_sequence;
      has_more = has_more;
      run_status = run.status;
    }

module _ (platform : Platform) where
  unfoldable pub page_of : Db → String → ℕ → ℕ → Option RunRow → Result EventPage
  page_of db run_id after limit none = err run_not_found
  page_of db run_id after limit (some run) = do
    events ← scan_events platform (take (suc limit) (timeline_after run_id after db.events))
    ok (make_page run after limit events)

  -- ListEvents
  unfoldable pub list_events : Db → String → ℕ → ℕ → Result EventPage
  unfolding page_of
  list_events db run_id after limit =
      page_of db run_id after (clamp_limit limit) (find_row (λ r. r.id == run_id) db.runs)

  row_record : Option EventRow → Result EventRecord
  row_record none = err event_not_found
  row_record (some row) = scan_event platform row

  -- GetEvent
  unfoldable pub get_event : Db → String → String → Result EventRecord
  unfolding row_record
  get_event db run_id event_id =
      row_record (find_row (λ e. e.run_id == run_id && e.event_id == event_id) db.events)
