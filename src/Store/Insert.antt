-- ===== src/Store/Insert.antt =====
-- `insertEvent`, `quarantineEvent` and `InsertEvents` of internal/store/events.go: the
-- transaction that stores a batch. An error leaves the database as it was, the deferred Rollback.
use Prim.Native.String.{◌++◌ as concat}
use traceboard.Prelude.{
  ℕ, ◌+◌, String, Bool, Option, none, some, List, [], ◌∷◌, ◌++◌, ◌==◌, ◌&&◌, not, exists_row,
  if◌then◌else◌,
}
use traceboard.Event.{Value, null, text, obj, Fields, end, field, Event, Instant}
use traceboard.Platform.{Platform, PrepareError, redact_default}
use traceboard.Store.{Db, Result, ok, err, ◌>>=◌, encoding, StoredEvent, EventRow}
use traceboard.Store.Prepare.{Prepared, ready, refused, redacted_string, prepare_event}
use traceboard.Store.Summary.{nullable}
use traceboard.Store.Statements.{
  ensure_source, ensure_run, allocate_run_sequence, update_step, update_run, check_row,
}

-- A map as a JSON value: a nil map is null.
abbrev map_value : Option Fields → Value
map_value none = null
map_value (some m) = obj m

module _ (platform : Platform) where
  unfoldable pub encoded : String → Value → Result String
  encoded what v = elim (platform.marshal v) [ none ↦ err (encoding what) | some s ↦ ok s ]

  -- A column that is NULL where the value is nil.
  encoded_map : String → Option Fields → Result (Option String)
  unfolding encoded
  encoded_map what none = ok none
  encoded_map what (some m) = do s ← encoded what (obj m); ok (some s)

  encoded_raw : Value → Result (Option String)
  unfolding encoded
  encoded_raw null = ok none
  encoded_raw v = do s ← encoded "raw" v; ok (some s)

  text_part : Value → String → String
  text_part v rest = elim (platform.marshal v) [
    | none ↦ rest
    | some s ↦ concat s (concat "\n" rest)
  ]

  raw_part : Value → String → String
  unfolding text_part
  raw_part null rest = rest
  raw_part v rest = text_part v rest

  -- searchableText
  unfoldable pub searchable_text : StoredEvent → String
  unfolding text_part raw_part
  searchable_text stored = text_part (map_value stored.capture) (
      text_part (map_value stored.attributes) (
        text_part (map_value stored.content)
          (raw_part stored.raw (concat stored.type (concat "\n" stored.status)))))

  unfoldable pub event_row : StoredEvent → ℕ → Result EventRow
  unfolding encoded_map encoded_raw searchable_text nullable
  event_row stored sequence = do
    capture ← encoded "capture" (map_value stored.capture)
    attributes ← encoded "attributes" (map_value stored.attributes)
    content ← encoded_map "content" stored.content
    raw ← encoded_raw stored.raw
    ok (record {
      event_id = stored.event_id;
      source_event_id = stored.source_event_id;
      source = stored.source;
      source_version = stored.source_version;
      run_id = stored.run_id;
      step_id = nullable stored.step_id;
      parent_step_id = nullable stored.parent_step_id;
      source_sequence = stored.source_sequence;
      sequence = sequence;
      occurred_at = stored.occurred_at;
      received_at = stored.received_at;
      type = stored.type;
      status = stored.status;
      capture = capture;
      attributes = attributes;
      content = content;
      raw = raw;
      search_text = searchable_text stored;
    })

  -- insertEvent
  unfoldable pub insert_event : StoredEvent → Db → Result Db
  unfolding ensure_source ensure_run allocate_run_sequence update_step update_run event_row
      check_row
  insert_event stored db = do
    sourced ← ensure_source stored db
    present ← ensure_run stored sourced
    (sequence, numbered) ← allocate_run_sequence stored present
    row ← event_row stored sequence
    check_row stored (update_run stored (update_step stored numbered)) row

  add_raw : Value → Fields → Fields
  add_raw null payload = payload
  add_raw v payload = elim (platform.marshal v) [ none ↦ payload | some s ↦ field "raw" v payload ]

  -- The payload of `quarantineEvent`.
  unfoldable pub quarantine_payload : Event → Fields
  unfolding add_raw redacted_string
  quarantine_payload input = add_raw (redact_default platform input.raw) (
      field "event_id" (text (redacted_string platform input.event_id)) (
        field "source_event_id" (text (redacted_string platform input.source_event_id)) (
          field "source" (text (redacted_string platform input.source))
            (field "run_id" (text (redacted_string platform input.run_id)) end))))

  -- quarantineEvent
  unfoldable pub quarantine_event : Instant → Event → PrepareError → Db → Result Db
  quarantine_event now input reason db = do
    payload ← encoded "quarantine payload" (obj (quarantine_payload input))
    ok (record db {
      quarantine =
          db.quarantine
          ++ (record {
            source = nullable input.source;
            source_event_id = nullable input.source_event_id;
            payload = payload;
            reason = redacted_string platform (platform.error_text reason);
            created_at = now;
          }
              ∷ []);
    })

-- InsertResult
pub record InsertResult : Type 0 where
  pub accepted : ℕ
  pub duplicate : ℕ
  pub quarantined : ℕ

abbrev pub no_result : InsertResult
no_result = record { accepted = 0; duplicate = 0; quarantined = 0 }

abbrev pub Progress : Type 0
Progress = Result (InsertResult × Db)

-- The EXISTS query of the loop.
unfoldable pub is_stored : StoredEvent → Db → Bool
is_stored stored db =
    exists_row (λ e. e.source == stored.source && e.source_event_id == stored.source_event_id)
      db.events

module _ (platform : Platform) where
  unfoldable pub insert_new : InsertResult → StoredEvent → Db → Progress
  insert_new result stored db = do
    after ← insert_event platform stored db
    ok (record result { accepted = result.accepted + 1 }, after)

  -- One round of the loop, from the result of `prepareEvent`. The test of `source_event_id` is
  -- written out though `prepareEvent` refuses an event without one.
  unfoldable pub insert_prepared :
      Instant → Event → InsertResult → Db → Prepared StoredEvent → Progress
  insert_prepared now input result db (refused reason) = do
    after ← quarantine_event platform now input reason db
    ok (record result { quarantined = result.quarantined + 1 }, after)
  insert_prepared now input result db (ready stored) =
      if not (stored.source_event_id == "") && is_stored stored db
      then ok (record result { duplicate = result.duplicate + 1 }, db)
      else insert_new result stored db

  unfoldable pub insert_one : Instant → Event → InsertResult → Db → Progress
  insert_one now input result db =
      insert_prepared now input result db (prepare_event platform now input)

  -- The loop of `InsertEvents`. The n-th round of a batch reads the clock at `clock n`.
  unfoldable pub insert_loop : (ℕ → Instant) → ℕ → List Event → InsertResult → Db → Progress
  insert_loop clock n [] result db = ok (result, db)
  insert_loop clock n (input ∷ rest) result db = do
    (result', db') ← insert_one (clock n) input result db
    insert_loop clock (n + 1) rest result' db'

  -- The transaction: the outcome, and the database after Commit or Rollback.
  unfoldable pub finish : Db → Progress → Result InsertResult × Db
  finish before (ok (result, after)) = (ok result, after)
  finish before (err e) = (err e, before)

  -- InsertEvents
  unfoldable pub insert_events : (ℕ → Instant) → List Event → Db → Result InsertResult × Db
  insert_events clock inputs db = finish db (insert_loop clock 0 inputs no_result db)
