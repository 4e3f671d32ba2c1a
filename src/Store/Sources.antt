-- ===== src/Store/Sources.antt =====
-- The statements of internal/store/sources.go on sources and on the quarantine. The time of the
-- store's clock is the argument `now`.
pub mod Kept
use Prim.Native.String.{compare}
use package.text.Mathlib.Text.{is_lt}
use traceboard.Prelude.{
  ℕ, String, Bool, true, false, Option, none, some, List, [], ◌∷◌, ◌++◌, ◌==◌, not, map, length,
  find_row, exists_row, count_rows, update_rows, if◌then◌else◌,
}
use traceboard.Event.{Instant}
use traceboard.Event.Mode.{metadata}
use traceboard.Event.Validate.{is_capture_mode}
use traceboard.Store.{
  Db, SourceRow, RunRow, QuarantineRow, Result, ok, err, constraint, invalid_capture_mode,
}

pub record Source : Type 0 where
  pub name : String
  pub source_version : String
  pub capture_mode : String
  pub connected : Bool
  pub last_heartbeat_at : Option Instant
  pub run_count : ℕ
  pub quarantine_count : ℕ
  pub created_at : Instant
  pub updated_at : Instant

-- A quarantined event without a source counts for no source.
unfoldable pub quarantined_for : String → QuarantineRow → Bool
quarantined_for name q = elim q.source [ none ↦ false | some s ↦ s == name ]

abbrev pub source_view : Db → SourceRow → Source
source_view db row = record {
  name = row.name;
  source_version = row.source_version;
  capture_mode = row.capture_mode;
  connected = row.connected;
  last_heartbeat_at = row.last_heartbeat_at;
  run_count = count_rows (λ r. RunRow.source r == row.name) db.runs;
  quarantine_count = count_rows (quarantined_for row.name) db.quarantine;
  created_at = row.created_at;
  updated_at = row.updated_at;
}

-- ORDER BY name
insert_source : Source → List Source → List Source
insert_source s [] = s ∷ []
insert_source s (t ∷ rest) =
    let later = insert_source s rest in
    if is_lt (compare t.name s.name) then t ∷ later else s ∷ t ∷ rest

unfoldable pub sort_sources : List Source → List Source
unfolding insert_source
sort_sources [] = []
sort_sources (s ∷ rest) = insert_source s (sort_sources rest)

-- ListSources
unfoldable pub list_sources : Db → List Source
unfolding sort_sources quarantined_for
list_sources db = sort_sources (map (source_view db) db.sources)

-- GetSource, with `none` for ErrSourceNotFound
unfoldable pub get_source : String → Db → Option Source
unfolding list_sources
get_source name db = find_row (λ s. Source.name s == name) (list_sources db)

abbrev pub named : String → SourceRow → Bool
named name row = row.name == name

abbrev pub source_row : Instant → String → String → SourceRow
source_row now name mode = record {
  name = name;
  source_version = "";
  capture_mode = mode;
  connected = false;
  last_heartbeat_at = none;
  created_at = now;
  updated_at = now;
}

-- INSERT INTO sources … ON CONFLICT(name) DO UPDATE, with the CHECKs of the new row.
unfoldable pub upsert_source : SourceRow → (SourceRow → SourceRow) → Db → Result Db
upsert_source row change db =
    if row.name == ""
    then err (constraint "sources.name")
    else if not (is_capture_mode row.capture_mode)
    then err (constraint "sources.capture_mode")
    else if exists_row (named row.name) db.sources
    then ok (record db { sources = update_rows (named row.name) change db.sources })
    else ok (record db { sources = db.sources ++ (row ∷ []) })

-- EnsureSource
unfoldable pub ensure_source_exists : Instant → String → String → Db → Result Db
unfolding upsert_source
ensure_source_exists now name mode db = upsert_source (source_row now name mode) (λ row. row) db

-- SetSourceCaptureMode
unfoldable pub set_source_capture_mode : Instant → String → String → Db → Result Db
unfolding upsert_source
set_source_capture_mode now name mode db =
    if is_capture_mode mode
    then upsert_source (source_row now name mode)
        (λ row. record row { capture_mode = mode; updated_at = now }) db
    else err invalid_capture_mode

-- RecordHeartbeat
unfoldable pub record_heartbeat : String → Instant → Db → Result Db
unfolding upsert_source
record_heartbeat name at db =
    upsert_source
      (record (source_row at name metadata) { connected = true; last_heartbeat_at = some at })
      (λ row. record row { connected = true; last_heartbeat_at = some at; updated_at = at }) db

-- SetSourceConnected
unfoldable pub set_source_connected : Instant → String → Bool → Db → Result Db
unfolding upsert_source
set_source_connected now name connected db =
    upsert_source (record (source_row now name metadata) { connected = connected })
      (λ row. record row { connected = connected; updated_at = now }) db

-- QuarantineCount
abbrev pub quarantine_count : Db → ℕ
quarantine_count db = length db.quarantine

-- ClearQuarantine
unfoldable pub clear_quarantine : Db → ℕ × Db
clear_quarantine db = (length db.quarantine, record db { quarantine = [] })
