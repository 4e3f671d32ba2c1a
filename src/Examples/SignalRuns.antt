-- ===== src/Examples/SignalRuns.antt =====
-- Runs of the OpenTelemetry path: a root span with an error and two log records, decoded, normalized
-- and ingested for a source that is off.
use traceboard.Prelude.{
  ℕ, ◌≤◌, ◌≢◌, String, true, false, none, some, List, [], ◌∷◌, ◌≡◌, refl, ◌==◌, arith, All, length,
  count_rows, ltb, eqb, ◌&&◌, if◌then◌else◌,
}
use traceboard.Event.{end, Event}
use traceboard.Event.Maps
use traceboard.Event.EventType.{run_started, contains_text}
use traceboard.Store.{empty_db}
use traceboard.Ingest.Setup.{capture_mode, find_mode}
use traceboard.Ingest.Prepare.{output_event, prepare}
use traceboard.Ingest.Signals.{resolve_source_name, signal_events, ingest_decoded}
use traceboard.Ingest.Signals.Off.{all_dropped, ingest_decoded-off}
use traceboard.Otlp.{
  string_value, no_pairs, pair, code_error, Span, LogRecord, Resource, traces, SourceContext, Codec,
}
use traceboard.Otlp.Attributes.{
  attributes_to_map, pairs_to_map, any_value_to_map, scalar, resource_attributes, first_text_of,
  text_at, or_later,
}
use traceboard.Otlp.Times.{run_identifier, span_time, is_root_span}
use traceboard.Otlp.Spans.{trace_span_events}
use traceboard.Otlp.Records.{log_event}
use traceboard.Otlp.Normalize.{normalize, otlp_source_names}
use traceboard.Otlp.Contract.{IsSound}
use traceboard.Otlp.Contract.Whole.{normalize-IsSound}
use traceboard.Otlp.Identity.{trace_span_events-IsPart}
use traceboard.Otlp.Decode.{
  kind_traces, other_kind, decoded, failed, payload_too_large, malformed, GzipStream, Parsers,
  max_decompressed_bytes, clamp_bytes, decode_signal, read_limited, parse, decompress, within,
  inflate, names_gzip, looks_like_gzip, looks_like_json, split_at, contains, parameter_of,
  unmarshalled,
}
use traceboard.Otlp.Decode.Limits.{IsParsed, decode_signal-IsParsed, read_limited-whole}
use traceboard.Examples.{platform, clock}
use traceboard.Examples.IngestRuns.{tools, service}

abbrev codec : Codec
codec = record {
  hex = λ bytes. "ff";
  short_digest = λ s. "0123";
  time_text = λ at. "now";
  severity_text = λ n. "SEVERITY_NUMBER_INFO";
  to_lower = λ s. s;
}

abbrev context : SourceContext
context = record {
  source = "codex";
  source_version = "";
  capture_mode = "metadata";
  project_id = "";
  parent_run_id = "";
  conversation_id = "";
}

-- A root span that names a conversation and ends with an error.
abbrev span : Span
span = record {
  trace_id = 1 ∷ [];
  span_id = 2 ∷ [];
  parent_span_id = [];
  name = "chat";
  kind = "SPAN_KIND_CLIENT";
  start_time_unix_nano = 5;
  end_time_unix_nano = 9;
  attributes =
      pair "gen_ai.operation.name" (string_value "chat")
        (pair "session.id" (string_value "s1") no_pairs);
  status_code = code_error;
  status_message = "failed";
}

abbrev resources : List (Resource Span)
resources =
    record {
      attributes = some (pair "service.name" (string_value "claude") no_pairs);
      scopes = record { name = "scope"; items = span ∷ [] } ∷ [];
    }
    ∷ []

normalize-IsSound_example :
    All (IsSound platform.marshal) (normalize codec (λ n k. 100) context (traces resources))
normalize-IsSound_example =
    normalize-IsSound platform.marshal "{}" refl (omega arith) codec (λ n k. 100) context
      (traces resources) (λ n k. refl)

trace_span_events-IsPart_example :
    All
      (λ e.
        (Event.run_id e ≡ run_identifier codec 100 span (attributes_to_map span.attributes) context)
        × (Event.occurred_at e ≡ span_time 100 span))
      (trace_span_events codec clock "codex" "" "scope" end span context)
    × ((count_rows
            (λ e. Event.type e == run_started)
            (trace_span_events codec clock "codex" "" "scope" end span context)
          ≡ (if is_root_span span then 1 else 0))
        × (1 ≤ length (trace_span_events codec clock "codex" "" "scope" end span context)))
trace_span_events-IsPart_example =
    trace_span_events-IsPart codec clock "codex" "" "scope" end span context

-- Two records of one run at one time that say different things.
abbrev log : String → LogRecord
log body = record {
  time_unix_nano = 7;
  observed_time_unix_nano = 8;
  severity_number = 9;
  body = body;
  attributes = pair "session.id" (string_value "s1") no_pairs;
  trace_id = 1 ∷ [];
}

preparing : ℕ
unfolding prepare capture_mode find_mode log_event
preparing = 0

abbrev prepared : String → Event
prepared body =
    output_event platform tools service 100
      (log_event codec 100 "codex" "" "scope" end (log body) context) "metadata"

-- Decoding

-- A gzip reader that gives the bytes behind the first two, and a parser that takes any JSON.
abbrev parsers : Parsers
parsers = record {
  new_reader =
      λ body. some (record { bytes = 123 ∷ 125 ∷ []; broken = false; at_last_byte = false });
  trim_space = λ s. s;
  to_lower = λ s. s;
  equal_fold = λ s t. s == t;
  unmarshal = λ is_json kind payload. if is_json then some (traces resources) else none;
}

abbrev body : List ℕ
body = 31 ∷ 139 ∷ []

decoding : ℕ
unfolding decode_signal parse decompress within inflate names_gzip looks_like_gzip looks_like_json
    split_at contains parameter_of unmarshalled read_limited
decoding = 0

body_decoded :
    decode_signal parsers kind_traces "application/json" body 4 ≡ decoded (traces resources)
unfolding decoding
body_decoded = refl

decode_signal-IsParsed_example :
    ((kind_traces ≢ other_kind)
      × IsParsed parsers kind_traces (clamp_bytes parsers 4) (traces resources))
    × (clamp_bytes parsers 4 ≤ max_decompressed_bytes)
decode_signal-IsParsed_example =
    decode_signal-IsParsed parsers kind_traces "application/json" body 4 (traces resources)
      body_decoded

abbrev long_stream : GzipStream
long_stream = record { bytes = 1 ∷ 2 ∷ 3 ∷ []; broken = true; at_last_byte = false }

read_limited-whole_example : read_limited parsers 2 long_stream ≡ (
    if ltb 2 (length long_stream.bytes)
    then failed (
        if long_stream.broken && (long_stream.at_last_byte && eqb (length long_stream.bytes) 3)
        then malformed
        else payload_too_large)
    else if long_stream.broken
    then failed malformed
    else decoded long_stream.bytes)
read_limited-whole_example = read_limited-whole parsers 2 long_stream

-- Ingest

signalling : ℕ
unfolding capture_mode find_mode resolve_source_name otlp_source_names contains_text
    resource_attributes attributes_to_map pairs_to_map any_value_to_map scalar Maps.insert
    Maps.lookup first_text_of text_at or_later
signalling = 0

claude_is_off :
    (capture_mode service (resolve_source_name (traces resources) "codex") == "off") ≡ true
unfolding signalling
claude_is_off = refl

ingest_decoded-off_example :
    ingest_decoded platform tools service codec parsers
      (λ n k. 100)
      clock
      clock
      "codex"
      (decoded (traces resources))
      empty_db
    ≡ all_dropped platform tools service codec parsers
        (length (
          signal_events platform tools service codec parsers
            (λ n k. 100)
            "codex"
            (traces resources)))
        empty_db
ingest_decoded-off_example =
    ingest_decoded-off platform tools service codec parsers (λ n k. 100) clock clock "codex"
      (traces resources) empty_db "{}" refl (omega arith) (λ n k. refl) claude_is_off
