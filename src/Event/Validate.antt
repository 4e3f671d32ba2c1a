-- ===== src/Event/Validate.antt =====
-- internal/event/validate.go: the checks that decide whether an event may be stored.
use Prim.Native.String.{len}
use traceboard.Prelude.{
  ℕ, String, Bool, Option, none, some, ◌==◌, ◌||◌, ◌&&◌, not, ltb, eqb, is_none, if◌then◌else◌,
}
use traceboard.Event.{Value, text, Fields, Event}
use traceboard.Event.Mode.{off, metadata, detailed}
use traceboard.Event.Maps
use traceboard.Event.Maps.{or_empty}

-- `Validate` returns an error or nil: one constructor for each message that it builds.
pub data ValidationError : Type 0 where
  unsupported_schema_version : ℕ → ValidationError
  missing_required_identity : ValidationError
  invalid_status : String → ValidationError
  capture_mode_not_string : ValidationError
  invalid_capture_mode : String → ValidationError
  content_not_allowed : ValidationError
  marshal_raw_payload : ValidationError
  raw_payload_too_large : ValidationError

pub data CaptureResult : Type 0 where
  mode : String → CaptureResult
  invalid : ValidationError → CaptureResult

abbrev pub max_raw_payload_bytes : ℕ
max_raw_payload_bytes = 1048576

unfoldable pub valid_status : String → Bool
valid_status s =
    s == "started"
    || (s == "completed"
        || (s == "failed" || (s == "cancelled" || (s == "incomplete" || s == "unknown"))))

unfoldable pub is_capture_mode : String → Bool
is_capture_mode m = m == off || (m == metadata || m == detailed)

mode_of_value : Option Value → CaptureResult
unfolding is_capture_mode
mode_of_value none = mode metadata
mode_of_value (some (text m)) =
    if is_capture_mode m then mode m else invalid (invalid_capture_mode m)
mode_of_value (some _) = invalid capture_mode_not_string

unfoldable pub capture_mode : Option Fields → CaptureResult
unfolding mode_of_value
capture_mode capture = mode_of_value (Maps.lookup "mode" (or_empty capture))

-- `json.Marshal`, with `none` for an error.
module _ (marshal : Value → Option String) where
  check_raw : Option String → Option ValidationError
  check_raw none = some marshal_raw_payload
  check_raw (some encoded) =
      if ltb max_raw_payload_bytes (len encoded) then some raw_payload_too_large else none

  check_mode : Event → CaptureResult → Option ValidationError
  unfolding check_raw
  check_mode e (invalid err) = some err
  check_mode e (mode m) =
      if m == off && not (is_none e.content)
      then some content_not_allowed
      else check_raw (marshal e.raw)

  -- `none` is a nil error.
  unfoldable pub validate : Event → Option ValidationError
  unfolding valid_status check_mode
  validate e =
      if not (eqb e.schema_version 1)
      then some (unsupported_schema_version e.schema_version)
      else if (e.source == "" || e.run_id == "") || (eqb e.occurred_at 0 || e.type == "")
      then some missing_required_identity
      else if not (valid_status e.status)
      then some (invalid_status e.status)
      else check_mode e (capture_mode e.capture)
