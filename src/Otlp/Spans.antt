-- ===== src/Otlp/Spans.antt =====
-- The events of one span (internal/otlp/normalize.go, traceSpanEvents).
use Prim.Native.String.{◌++◌ as concat}
use traceboard.Prelude.{
  ℕ, String, Bool, true, false, Option, none, some, List, [], ◌∷◌, ◌++◌, ◌==◌, ◌&&◌, ◌||◌, ltb, eqb,
  if◌then◌else◌,
}
use traceboard.Event.{null, text, obj, Fields, end, field, Event, Instant, schema_version_1}
use traceboard.Event.EventType.{
  run_started, run_completed, run_failed, error_recorded, source_extension,
}
use traceboard.Event.Status.{started, completed, failed, unknown}
use traceboard.Event.Maps
use traceboard.Otlp.{Span, SourceContext, Codec, StatusCode, code_unset, code_ok, code_error}
use traceboard.Otlp.Attributes.{
  attributes_to_map, text_at, first_text_of, copy_prefixed, copy_key, copy_keys, copy_text,
  insert_text_if,
}
use traceboard.Otlp.Times.{span_time, span_step, run_identifier, is_blank, is_root_span}

unfoldable pub status_of_code : StatusCode → String
status_of_code code_error = failed
status_of_code code_ok = completed
status_of_code code_unset = unknown

-- spanStatus
unfoldable pub span_status : Span → String
unfolding status_of_code
span_status span = status_of_code span.status_code

abbrev pub is_error : StatusCode → Bool
is_error code_error = true
is_error _ = false

-- The type and the status of the event that ends a span, where `none` is the empty type: by the kind
-- of the error that the attributes name, and else by the status.
unfoldable pub error_ending : Span → Option String → Option (String × String)
error_ending span (some kind) =
    some (if is_root_span span then run_failed else "tool.failed", failed)
error_ending span none =
    if is_error span.status_code
    then some (if is_root_span span then run_failed else error_recorded, failed)
    else none

-- terminalEventFor
unfoldable pub terminal_event_for : Span → Fields → Option (String × String)
unfolding error_ending first_text_of
terminal_event_for span attributes =
    error_ending span (first_text_of ("error.type" ∷ []) attributes)

-- A finished root span that reported no error ends its run.
unfoldable pub or_completed : Span → Option (String × String) → Option (String × String)
or_completed span (some e) = some e
or_completed span none =
    if is_root_span span && ltb 0 span.end_time_unix_nano
    then some (run_completed, completed)
    else none

unfoldable pub ending : Span → Fields → Option (String × String)
unfolding terminal_event_for or_completed
ending span attributes = or_completed span (terminal_event_for span attributes)

-- The operations that request a completion, and isModelOperation.
unfoldable pub is_request : String → Bool
is_request operation =
    operation == "chat" || (operation == "generate_content" || operation == "text_completion")

unfoldable pub is_model_operation : String → Bool
unfolding is_request
is_model_operation operation = is_request operation || operation == "embeddings"

-- errorText
unfoldable pub span_error_text : Span → Fields → String
unfolding first_text_of
span_error_text span attributes = elim (first_text_of ("error.message" ∷ []) attributes) [
  | some value ↦ value
  | none ↦
      if span.status_message == ""
      then concat "span " (concat span.name " reported an error")
      else span.status_message
]

abbrev pub insert_resource : Fields → Fields → Fields
insert_resource resource m =
    if eqb (Maps.size resource) 0 then m else Maps.insert "source_resource" (obj resource) m

-- modelAttributes
unfoldable pub model_attributes : Fields → Fields → SourceContext → Fields
unfolding copy_key copy_keys copy_text insert_text_if Maps.insert Maps.size
model_attributes attributes resource context =
    let usage =
      copy_keys
        ("gen_ai.request.model" ∷ "gen_ai.response.model" ∷ "gen_ai.usage.input_tokens"
          ∷ "gen_ai.usage.output_tokens" ∷ "gen_ai.usage.total_tokens" ∷ "llm.token.count" ∷ [])
        attributes end in
    let named = copy_text "model" "gen_ai.request.model" attributes usage in
    let counted =
      copy_key "output_tokens" "gen_ai.usage.output_tokens" attributes
        (copy_key "input_tokens" "gen_ai.usage.input_tokens" attributes named) in
    insert_resource resource (
      insert_text_if "project_id" context.project_id
        (copy_text "conversation_id" "gen_ai.conversation.id" attributes counted))

-- The value is written where the bytes are not empty.
insert_bytes : String → List ℕ → String → Fields → Fields
insert_bytes key bytes s m = if is_blank bytes then m else Maps.insert key (text s) m

module _ (codec : Codec) where
  -- spanAttributes
  unfoldable pub span_attributes : String → String → Fields → Fields → SourceContext → Span → Fields
  unfolding copy_prefixed insert_text_if insert_bytes Maps.insert
  span_attributes source scope resource attributes context span =
      let named = field "span_name" (text span.name) (
        field "source_service" (text source) (
          field "scope" (text scope)
            (field "span_kind" (text span.kind) (field "source_resource" (obj resource) end)))) in
      let owned =
        insert_text_if "parent_run_id" context.parent_run_id
          (insert_text_if "project_id" context.project_id (copy_prefixed attributes named)) in
      let placed = insert_bytes "trace_id" span.trace_id (codec.hex span.trace_id) (
        insert_bytes "parent_step_id" span.parent_span_id
          (concat "span:" (codec.hex span.parent_span_id)) owned) in
      insert_text_if "status_message" span.status_message placed

-- What `base` puts in every event of a span.
pub record Base : Type 0 where
  pub source : String
  pub source_version : String
  pub run_id : String
  pub step_id : String
  pub occurred_at : Instant

abbrev pub base_event : Base → String → String → String → Fields → Event
base_event base step type status attributes = record {
  schema_version = schema_version_1;
  event_id = "";
  source_event_id = "";
  source = base.source;
  source_version = base.source_version;
  run_id = base.run_id;
  step_id = step;
  parent_step_id = "";
  source_sequence = none;
  occurred_at = base.occurred_at;
  type = type;
  status = status;
  capture = none;
  attributes = some attributes;
  content = none;
  raw = null;
}

-- The parts of `traceSpanEvents`, each the events that it appends.
abbrev pub root_events : Base → Bool → Fields → List Event
root_events base is_root attributes =
    if is_root then base_event base "" run_started started attributes ∷ [] else []

unfoldable pub model_events : Base → Span → Option String → Fields → List Event
unfolding is_request is_model_operation span_status
model_events base span none attributes = []
model_events base span (some operation) attributes =
    let step = concat base.step_id ":request" in
    let requested = base_event base step "model.requested" started attributes in
    let done = base_event base step "model.completed" (span_status span) attributes in
    (if is_request operation then requested ∷ [] else [])
    ++ (if is_model_operation operation then done ∷ [] else [])

unfoldable pub terminal_events :
    Base → Span → Fields → Option (String × String) → Fields → List Event
unfolding span_error_text
terminal_events base span attributes none result = []
terminal_events base span attributes (some (type, status)) result =
    let terminal =
      base_event base (if type == run_completed then "" else base.step_id) type status result in
    (if status == failed && type == run_failed
      then record terminal {
        content = some (field "text" (text (span_error_text span attributes)) end);
      }
      else terminal)
    ∷ []

-- Where the span gave no event, an extension that names it.
unfoldable pub or_extension : Base → Span → Fields → List Event → List Event
unfolding Maps.insert
or_extension base span attributes [] =
    base_event base base.step_id source_extension unknown (
      Maps.insert "source_type" (text span.name)
        (Maps.insert "extension_kind" (text "span") attributes))
    ∷ []
or_extension base span attributes (e ∷ rest) = e ∷ rest

module _ (codec : Codec) where
  -- The run, the step and the time read the clock one after the other.
  abbrev pub span_base : (ℕ → Instant) → String → String → Fields → Span → SourceContext → Base
  span_base clock source version attributes span context = record {
    source = source;
    source_version = version;
    run_id = run_identifier codec (clock 0) span attributes context;
    step_id = span_step codec (clock 1) span;
    occurred_at = span_time (clock 2) span;
  }

  -- traceSpanEvents
  unfoldable pub trace_span_events :
      (ℕ → Instant) → String → String → String → Fields → Span → SourceContext → List Event
  unfolding or_extension model_events terminal_events ending span_attributes model_attributes
  trace_span_events clock source version scope resource span context =
      let attributes = attributes_to_map span.attributes in
      let base = span_base clock source version attributes span context in
      let described = span_attributes codec source scope resource attributes context span in
      let model = model_attributes attributes resource context in
      or_extension base span described (
        root_events base (is_root_span span) described
        ++ (model_events base span (text_at "gen_ai.operation.name" attributes) model
            ++ terminal_events base span attributes (ending span attributes) described))
