-- ===== src/Otlp/Contract/Whole.antt =====
-- The events of a log record, of a metric and of a whole signal (internal/otlp/normalize.go) against
-- the checks of internal/event/validate.go.
use Prim.Native.String.{len}
use traceboard.Prelude.{
  ℕ, suc, ◌≤◌, String, Bool, true, false, Option, none, some, List, [], ◌∷◌, ◌≡◌, refl, ◌==◌, ◌||◌,
  All, All-append, Bool-cases, inl, inr, if◌then◌else◌,
}
use traceboard.Prelude.Sorting.{sort_by-All}
use traceboard.Event.{Value, null, Fields, Event, Instant}
use traceboard.Event.EventType.{is_known_type, contains_text, error_recorded, source_extension}
use traceboard.Event.Validate.{valid_status}
use traceboard.Otlp.{LogRecord, Metric, Signal, traces, logs, metrics, SourceContext, Codec}
use traceboard.Otlp.Attributes.{attributes_to_map, text_at}
use traceboard.Otlp.Times.{record_time_nano}
use traceboard.Otlp.Records.{
  log_event, log_event_type, metric_event, type_by_name, type_by_severity, type_of_name, is_severe,
  log_status,
}
use traceboard.Otlp.Normalize.{
  Placed, append_each, occurs_before, span_item_events, log_item_events, metric_item_events,
  normalize,
}
use traceboard.Otlp.Contract.{
  append-NotEmpty_right, NotEmpty, IsTime, IsSound, event-IsSound, source_name-NotEmpty,
  run_identifier_from_attributes-NotEmpty, first_time-IsTime,
}
use traceboard.Otlp.Contract.Parts.{trace_span_events-IsSound}

abbrev IsKnown : String → Type 0
IsKnown type = NotEmpty type × (is_known_type type ≡ true)

if-IsKnown : (b : Bool) (s t : String) → IsKnown s → IsKnown t → IsKnown (if b then s else t)
if-IsKnown true s t h k = h
if-IsKnown false s t h k = k

abbrev SomeKnown : Option String → Type 0
SomeKnown none = Unit
SomeKnown (some type) = IsKnown type

if-SomeKnown :
    (b : Bool) (s : String) (o : Option String)
    → IsKnown s
    → SomeKnown o
    → SomeKnown (if b then some s else o)
if-SomeKnown true s o h k = h
if-SomeKnown false s o h k = k

type_of_name-SomeKnown : (name : String) → SomeKnown (type_of_name name)
unfolding type_of_name is_known_type contains_text
type_of_name-SomeKnown name =
    if-SomeKnown (name == "ai.user.message" || (name == "user_prompt" || name == "prompt"))
      "prompt.received" _ (refl, refl)
      (if-SomeKnown (name == "exception" || name == "error") error_recorded _ (refl, refl)
        (if-SomeKnown (name == "tool.call" || name == "function_call") "tool.started" none
          (refl, refl) tt))

type_by_severity-IsKnown :
    (log : LogRecord) (type : Option String) → SomeKnown type → IsKnown (type_by_severity log type)
unfolding type_by_severity is_known_type contains_text
type_by_severity-IsKnown log none h =
    if-IsKnown (is_severe log) error_recorded source_extension (refl, refl) (refl, refl)
type_by_severity-IsKnown log (some t) h = h

type_by_name-IsKnown : (log : LogRecord) (name : Option String) → IsKnown (type_by_name log name)
unfolding type_by_name
type_by_name-IsKnown log none = type_by_severity-IsKnown log none tt
type_by_name-IsKnown log (some name) =
    type_by_severity-IsKnown log (type_of_name name) (type_of_name-SomeKnown name)

log_status-valid : (log : LogRecord) → valid_status (log_status log) ≡ true
unfolding valid_status
log_status-valid log = elim (Bool-cases (is_severe log)) [ inl e ↦ rw e refl | inr e ↦ rw e refl ]

append_each-All :
    {Item : Type 0} (P : Event → Type 0) (events : ℕ → Placed Item → List Event) (n : ℕ)
    (items : List (Placed Item))
    → ((k : ℕ) (item : Placed Item) → All P (events k item))
    → All P (append_each events n items)
unfolding append_each
append_each-All P events n [] h = tt
append_each-All P events n (item ∷ rest) h =
    All-append P (events n item) (append_each events (suc n) rest) (h n item)
      (append_each-All P events (suc n) rest h)

module _ (marshal : Value → Option String) (encoded : String)
    (null_marshals : marshal null ≡ some encoded) (short : len encoded ≤ 1048576) where
  log_event-IsSound :
      (codec : Codec) (now : Instant) (source version scope : String) (resource : Fields)
      (log : LogRecord) (context : SourceContext)
      → NotEmpty source
      → IsTime now
      → IsSound marshal (log_event codec now source version scope resource log context)
  unfolding log_event log_event_type record_time_nano
  log_event-IsSound codec now source version scope resource log context s t =
      let attributes = attributes_to_map log.attributes in
      event-IsSound marshal encoded null_marshals short
        (log_event codec now source version scope resource log context) refl s
        (run_identifier_from_attributes-NotEmpty attributes context)
        (first_time-IsTime log.time_unix_nano log.observed_time_unix_nano now t)
        (type_by_name-IsKnown log (text_at "event.name" attributes)) (log_status-valid log) refl
        refl

  metric_event-IsSound :
      (now : Instant) (source version scope : String) (metric : Metric) (context : SourceContext)
      → NotEmpty source
      → IsTime now
      → IsSound marshal (metric_event now source version scope metric context)
  unfolding metric_event valid_status is_known_type contains_text
  metric_event-IsSound now source version scope metric context s t =
      event-IsSound marshal encoded null_marshals short
        (metric_event now source version scope metric context) refl s
        (append-NotEmpty_right context.source ":metrics" refl) t (refl, refl) refl refl refl

  -- Every event that a decoded signal of any kind is normalized to passes the checks of the event
  -- contract and has a type of the contract, whatever the spans, records and metrics hold, where null
  -- is encoded in at most 1048576 bytes and the clock is not at Go's zero time.
  pub normalize-IsSound :
      (codec : Codec) (clock : ℕ → ℕ → Instant) (context : SourceContext) (signal : Signal)
      → ((n k : ℕ) → IsTime (clock n k))
      → All (IsSound marshal) (normalize codec clock context signal)
  unfolding normalize
  normalize-IsSound codec clock context (traces resources) t =
      sort_by-All occurs_before (IsSound marshal) _ (
        append_each-All (IsSound marshal) (span_item_events codec clock context) 0 _ (λ k placed.
          trace_span_events-IsSound marshal encoded null_marshals short codec (clock k) _ _
            placed.scope placed.resource placed.item _ (t k 2)
            (source_name-NotEmpty placed.resource context.source)))
  normalize-IsSound codec clock context (logs resources) t =
      sort_by-All occurs_before (IsSound marshal) _ (
        append_each-All (IsSound marshal) (log_item_events codec clock context) 0 _ (λ k placed. (
          log_event-IsSound codec (clock k 0) _ _ placed.scope placed.resource placed.item context
              (source_name-NotEmpty placed.resource context.source) (t k 0),
          tt,
        )))
  normalize-IsSound codec clock context (metrics resources) t =
      append_each-All (IsSound marshal) (metric_item_events codec clock context) 0 _ (λ k placed. (
        metric_event-IsSound (clock k 0) _ _ placed.scope placed.item context
            (source_name-NotEmpty placed.resource context.source) (t k 0),
        tt,
      ))
