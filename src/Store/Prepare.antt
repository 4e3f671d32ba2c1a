-- ===== src/Store/Prepare.antt =====
-- `prepareEvent` of internal/store/events.go: validation, and redaction of every field.
use traceboard.Prelude.{String, Option, none, some, ◌==◌, if◌then◌else◌}
use traceboard.Event.{Value, null, text, obj, Fields, Event, Instant}
use traceboard.Event.Validate.{ValidationError, validate}
use traceboard.Platform.{
  Platform, PrepareError, invalid_event, missing_event_id, missing_source_event_id,
  capture_encoding, attributes_encoding, content_encoding, raw_encoding, redact_default,
}
use traceboard.Store.{StoredEvent}

pub data Prepared {ℓ} (A : Type ℓ) : Type ℓ where
  ready : A → Prepared A
  refused : PrepareError → Prepared A

infixl 5 ◌>>=◌
abbrev pub ◌>>=◌ {ℓ κ} :
    {Value : Type ℓ} {Next : Type κ} → Prepared Value → (Value → Prepared Next) → Prepared Next
ready value >>= step = step value
refused failure >>= step = refused failure

-- `text, _ := redacted.(string)`
abbrev as_text : Value → String
as_text (text s) = s
as_text _ = ""

-- json.Unmarshal into a map: null leaves it nil.
abbrev as_map : PrepareError → Option Value → Prepared (Option Fields)
as_map e (some (obj m)) = ready (some m)
as_map e (some null) = ready none
as_map e _ = refused e

module _ (platform : Platform) where
  unfoldable pub redacted_string : String → String
  redacted_string s = if s == "" then "" else as_text (redact_default platform (text s))

  decode_map : PrepareError → Option String → Prepared (Option Fields)
  decode_map e none = refused e
  decode_map e (some encoded) = as_map e (platform.unmarshal encoded)

  unfoldable pub redacted_json_map : PrepareError → Option Fields → Prepared (Option Fields)
  unfolding decode_map
  redacted_json_map e none = ready none
  redacted_json_map e (some m) = decode_map e (platform.marshal (redact_default platform (obj m)))

  marshalled : Value → Option String → Prepared Value
  marshalled v none = refused raw_encoding
  marshalled v (some encoded) = ready v

  unfoldable pub redacted_raw : Value → Prepared Value
  unfolding marshalled
  redacted_raw null = ready null
  redacted_raw v =
      let redacted = redact_default platform v in marshalled redacted (platform.marshal redacted)

  unfoldable pub redacted_event : Event → Event
  unfolding redacted_string
  redacted_event input = record input {
    event_id = redacted_string input.event_id;
    source_event_id = redacted_string input.source_event_id;
    source = redacted_string input.source;
    source_version = redacted_string input.source_version;
    run_id = redacted_string input.run_id;
    step_id = redacted_string input.step_id;
    parent_step_id = redacted_string input.parent_step_id;
    type = redacted_string input.type;
  }

  unfoldable pub redact_event : Instant → Event → Prepared StoredEvent
  redact_event now input = do
    capture ← redacted_json_map capture_encoding input.capture
    attributes ← redacted_json_map attributes_encoding input.attributes
    content ← redacted_json_map content_encoding input.content
    raw ← redacted_raw input.raw
    ready (record {
      event = record (redacted_event input) {
        capture = capture;
        attributes = attributes;
        content = content;
        raw = raw;
      };
      received_at = now;
    })

  unfoldable pub check_event : Option ValidationError → Event → Option PrepareError
  check_event (some e) input = some (invalid_event e)
  check_event none input =
      if input.event_id == ""
      then some missing_event_id
      else if input.source_event_id == ""
      then some missing_source_event_id
      else none

  unfoldable pub prepare_checked : Instant → Event → Option PrepareError → Prepared StoredEvent
  prepare_checked now input none = redact_event now input
  prepare_checked now input (some e) = refused e

  -- prepareEvent, at the time `now`.
  unfoldable pub prepare_event : Instant → Event → Prepared StoredEvent
  prepare_event now input =
      prepare_checked now input (check_event (validate platform.marshal input) input)
