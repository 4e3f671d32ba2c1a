-- ===== src/Otlp/Records.antt =====
-- The event of one log record and of one metric (internal/otlp/normalize.go).
use Prim.Native.String.{len, slice, ◌++◌ as concat}
use package.text.Mathlib.Text.{starts_with}
use traceboard.Prelude.{
  ℕ, String, Bool, Option, none, some, ◌==◌, ◌&&◌, ◌||◌, not, leb, if◌then◌else◌,
}
use traceboard.Event.{null, text, obj, Fields, end, field, Event, Instant, schema_version_1}
use traceboard.Event.EventType.{error_recorded, source_extension}
use traceboard.Event.Status.{failed, unknown}
use traceboard.Event.Mode.{detailed}
use traceboard.Otlp.{LogRecord, Metric, SourceContext, Codec}
use traceboard.Otlp.Attributes.{attributes_to_map, text_at, copy_prefixed}
use traceboard.Otlp.Times.{record_time_nano, run_identifier_from_attributes, is_blank}

-- SEVERITY_NUMBER_ERROR
abbrev pub is_severe : LogRecord → Bool
is_severe log = leb 17 log.severity_number

-- The type that a name of an event stands for.
unfoldable pub type_of_name : String → Option String
type_of_name name =
    if name == "ai.user.message" || (name == "user_prompt" || name == "prompt")
    then some "prompt.received"
    else if name == "exception" || name == "error"
    then some error_recorded
    else if name == "tool.call" || name == "function_call"
    then some "tool.started"
    else none

unfoldable pub type_by_severity : LogRecord → Option String → String
type_by_severity log none = if is_severe log then error_recorded else source_extension
type_by_severity log (some type) = type

unfoldable pub type_by_name : LogRecord → Option String → String
unfolding type_of_name type_by_severity
type_by_name log none = type_by_severity log none
type_by_name log (some name) = type_by_severity log (type_of_name name)

-- logEventType
unfoldable pub log_event_type : LogRecord → Fields → String
unfolding type_by_name text_at
log_event_type log attributes = type_by_name log (text_at "event.name" attributes)

-- logStatus
abbrev pub log_status : LogRecord → String
log_status log = if is_severe log then failed else unknown

-- strings.TrimPrefix
trim_prefix : String → String → String
trim_prefix prefix s = if starts_with s prefix then slice s (len prefix) (len s) else s

module _ (codec : Codec) where
  -- severityName
  unfoldable pub severity_name : ℕ → String
  unfolding trim_prefix
  severity_name n = codec.to_lower (trim_prefix "SEVERITY_NUMBER_" (codec.severity_text n))

  -- The round of the loop of `normalizeLogs` for one record.
  unfoldable pub log_event :
      Instant → String → String → String → Fields → LogRecord → SourceContext → Event
  unfolding log_event_type copy_prefixed severity_name
  log_event now source version scope resource log context =
      let attributes = attributes_to_map log.attributes in
      record {
        schema_version = schema_version_1;
        event_id = "";
        source_event_id = "";
        source = source;
        source_version = version;
        run_id = run_identifier_from_attributes attributes context;
        step_id = if is_blank log.trace_id then "" else concat "span:" (codec.hex log.trace_id);
        parent_step_id = "";
        source_sequence = none;
        occurred_at = record_time_nano now log;
        type = log_event_type log attributes;
        status = log_status log;
        capture = none;
        attributes = some (
            copy_prefixed attributes (
              field "source_service" (text source) (
                field "scope" (text scope) (
                  field "severity" (text (severity_name log.severity_number)) (
                    field "source_resource" (obj resource)
                      (field "extension_kind" (text "log") end))))));
        content =
            if not (log.body == "") && context.capture_mode == detailed
            then some (field "text" (text log.body) end)
            else none;
        raw = null;
      }

-- The round of the loop of `normalizeMetrics` for one metric.
unfoldable pub metric_event : Instant → String → String → String → Metric → SourceContext → Event
metric_event now source version scope metric context = record {
  schema_version = schema_version_1;
  event_id = "";
  source_event_id = "";
  source = source;
  source_version = version;
  run_id = concat context.source ":metrics";
  step_id = "";
  parent_step_id = "";
  source_sequence = none;
  occurred_at = now;
  type = source_extension;
  status = unknown;
  capture = none;
  attributes = some (
      field "extension_kind" (text "metric") (
        field "scope" (text scope) (
          field "metric_name" (text metric.name) (
            field "metric_unit" (text metric.unit)
              (field "metric_description" (text metric.description) end)))));
  content = none;
  raw = null;
}
