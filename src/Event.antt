-- ===== src/Event.antt =====
-- The event contract: internal/event/event.go and internal/event/validate.go.
-- Go's string types (`Status`, `CaptureMode`, event types) are texts here too, with the source's
-- constants, so that a value outside the constants can occur and must be refused.
-- An instant is the number of nanoseconds since Go's zero time; `UnixNano` is a shift of it.
-- `Value` is a decoded JSON value (`any`): a number that the source decoded is kept by its text,
-- since no code here computes with it, and a number that the program writes is `count`.
pub mod Mode
pub mod Status
pub mod EventType
pub mod Maps
pub mod Validate
use traceboard.Prelude.{ℕ, String, Bool, true, false, Option, List, [], ◌∷◌, ◌≡◌, refl, ◌==◌, ◌||◌}

abbrev pub Instant : Type 0
Instant = ℕ

mutual
  pub data Value : Type 0 where
    null : Value
    bool : Bool → Value
    number : String → Value
    count : ℕ → Value
    text : String → Value
    arr : Items → Value
    obj : Fields → Value

  pub data Fields : Type 0 where
    end : Fields
    field : String → Value → Fields → Fields

  pub data Items : Type 0 where
    nil : Items
    cons : Value → Items → Items

-- A map is `none` where it is nil.
pub record Event : Type 0 where
  pub schema_version : ℕ
  pub event_id : String
  pub source_event_id : String
  pub source : String
  pub source_version : String
  pub run_id : String
  pub step_id : String
  pub parent_step_id : String
  pub source_sequence : Option ℕ
  pub occurred_at : Instant
  pub type : String
  pub status : String
  pub capture : Option Fields
  pub attributes : Option Fields
  pub content : Option Fields
  pub raw : Value

abbrev pub schema_version_1 : ℕ
schema_version_1 = 1
