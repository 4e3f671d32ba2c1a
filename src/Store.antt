-- ===== src/Store.antt =====
-- The database of internal/store and migrations/*.sql: a record of tables, a table a list of rows.
-- An INSERT appends. A statement fails on a constraint of the schema; a full disk, a lost
-- connection and a cancelled context are not modelled. The full-text table is not modelled.
pub mod Prepare
pub mod Summary
pub mod Statements
pub mod Insert
pub mod Counting
pub mod Consistent
pub mod Redelivery
pub mod Timeline
pub mod Alerts
pub mod Runs
pub mod Sessions
pub mod Sources
pub mod Search
pub mod Listing
pub mod Projects
use traceboard.Prelude.{ℕ, String, Bool, Option, List, [], ◌≡◌, refl}
use traceboard.Event.{Event, Instant}

pub record SourceRow : Type 0 where
  pub name : String
  pub source_version : String
  pub capture_mode : String
  pub connected : Bool
  pub last_heartbeat_at : Option Instant
  pub created_at : Instant
  pub updated_at : Instant

-- `capture_modes` holds the list that the column holds as JSON.
pub record RunRow : Type 0 where
  pub id : String
  pub source : String
  pub project_id : Option String
  pub parent_run_id : Option String
  pub title : Option String
  pub status : String
  pub started_at : Option Instant
  pub ended_at : Option Instant
  pub last_event_at : Option Instant
  pub event_count : ℕ
  pub error_count : ℕ
  pub next_sequence : ℕ
  pub capture_modes : List String
  pub created_at : Instant
  pub updated_at : Instant

pub record StepRow : Type 0 where
  pub run_id : String
  pub id : String
  pub parent_step_id : Option String
  pub type : String
  pub status : String
  pub started_at : Option Instant
  pub ended_at : Option Instant
  pub created_at : Instant
  pub updated_at : Instant

pub record EventRow : Type 0 where
  pub event_id : String
  pub source_event_id : String
  pub source : String
  pub source_version : String
  pub run_id : String
  pub step_id : Option String
  pub parent_step_id : Option String
  pub source_sequence : Option ℕ
  pub sequence : ℕ
  pub occurred_at : Instant
  pub received_at : Instant
  pub type : String
  pub status : String
  pub capture : String
  pub attributes : String
  pub content : Option String
  pub raw : Option String
  pub search_text : String

pub record AlertRow : Type 0 where
  pub id : String
  pub run_id : Option String
  pub source : Option String
  pub type : String
  pub message : String
  pub created_at : Instant
  pub acknowledged_at : Option Instant
  pub resolved_at : Option Instant

pub record QuarantineRow : Type 0 where
  pub source : Option String
  pub source_event_id : Option String
  pub payload : String
  pub reason : String
  pub created_at : Instant

pub record SessionRow : Type 0 where
  pub id : String
  pub token_hash : String
  pub created_at : Instant
  pub expires_at : Instant
  pub consumed_at : Option Instant

pub record ProjectRow : Type 0 where
  pub id : String
  pub name : Option String
  pub path : Option String
  pub created_at : Instant
  pub updated_at : Instant

pub record Db : Type 0 where
  pub sources : List SourceRow
  pub runs : List RunRow
  pub steps : List StepRow
  pub events : List EventRow
  pub alerts : List AlertRow
  pub quarantine : List QuarantineRow
  pub sessions : List SessionRow
  pub projects : List ProjectRow

abbrev pub empty_db : Db
empty_db = record {
  sources = [];
  runs = [];
  steps = [];
  events = [];
  alerts = [];
  quarantine = [];
  sessions = [];
  projects = [];
}

-- storedEvent: the redacted event and when it was received.
pub record StoredEvent : Type 0 where
  pub event : Event
  pub open event use *
  pub received_at : Instant

pub data StoreError : Type 0 where
  constraint : String → StoreError
  encoding : String → StoreError
  run_not_found : StoreError
  event_not_found : StoreError
  alert_not_found : StoreError
  session_not_found : StoreError
  invalid_capture_mode : StoreError
  invalid_cursor : StoreError
  project_id_required : StoreError

pub data Result {ℓ} (A : Type ℓ) : Type ℓ where
  ok : A → Result A
  err : StoreError → Result A

infixl 5 ◌>>=◌
abbrev pub ◌>>=◌ {ℓ κ} :
    {Value : Type ℓ} {Next : Type κ} → Result Value → (Value → Result Next) → Result Next
ok value >>= step = step value
err failure >>= step = err failure

-- Both steps of a chain that succeeds have succeeded.
pub >>=-eq-ok {ℓ κ} :
    {Value : Type ℓ} {Next : Type κ} (first : Result Value) (step : Value → Result Next)
    {result : Next}
    → (first >>= step) ≡ ok result
    → (value : Value) × (first ≡ ok value) × (step value ≡ ok result)
>>=-eq-ok (err failure) step h = cc
>>=-eq-ok (ok value) step h = (value, refl, h)
