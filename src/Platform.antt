-- ===== src/Platform.antt =====
-- What the program calls of Go's standard library and does not implement: encoding/json, regexp,
-- fmt and the texts of error values. Every definition that needs them takes one `Platform`.
use traceboard.Prelude.{String, Option}
use traceboard.Event.{Value}
use traceboard.Event.Validate.{ValidationError}
use traceboard.Redact.{Regexp, Formats, apply, default_rules}

-- The errors of `prepareEvent` (internal/store/events.go).
pub data PrepareError : Type 0 where
  invalid_event : ValidationError → PrepareError
  missing_event_id : PrepareError
  missing_source_event_id : PrepareError
  capture_encoding : PrepareError
  attributes_encoding : PrepareError
  content_encoding : PrepareError
  raw_encoding : PrepareError

-- `marshal` is json.Marshal of a value and `unmarshal` json.Unmarshal into a variable of type
-- `any`; `none` is an error. `error_text` is the error's `Error()`.
pub record Platform : Type 0 where
  pub regexp : Regexp
  pub formats : Formats
  pub marshal : Value → Option String
  pub unmarshal : String → Option Value
  pub error_text : PrepareError → String

-- redact.Default().Apply(value), without the matches.
unfoldable pub redact_default : Platform → Value → Value
unfolding apply
redact_default platform value =
    (apply platform.regexp platform.formats default_rules default_rules value).0
