-- ===== src/Otlp/Contract/Parts.antt =====
-- The events of one span (internal/otlp/normalize.go, traceSpanEvents) against the checks of
-- internal/event/validate.go.
use Prim.Native.String.{len, ◌++◌ as concat}
use traceboard.Prelude.{
  ℕ, ◌≤◌, String, Bool, true, false, Option, none, some, List, [], ◌∷◌, ◌≡◌, refl, ◌==◌, ◌&&◌, All,
  All-append, Bool-cases, inl, inr, if◌then◌else◌, ltb,
}
use traceboard.Event.{Value, null, Fields, Event, Instant}
use traceboard.Event.EventType.{
  is_known_type, contains_text, run_started, run_completed, run_failed, error_recorded,
  source_extension,
}
use traceboard.Event.Status.{started, completed, failed, unknown}
use traceboard.Event.Validate.{valid_status}
use traceboard.Otlp.{Span, StatusCode, SourceContext, Codec, code_ok, code_error, code_unset}
use traceboard.Otlp.Attributes.{attributes_to_map, text_at, first_text_of}
use traceboard.Otlp.Times.{span_time, is_root_span}
use traceboard.Otlp.Spans.{
  Base, base_event, span_base, root_events, model_events, terminal_events, or_extension,
  trace_span_events, span_status, is_request, is_model_operation, span_attributes,
  terminal_event_for, ending, is_error, status_of_code, error_ending, or_completed,
}
use traceboard.Otlp.Contract.{
  NotEmpty, IsTime, IsSound, event-IsSound, run_identifier-NotEmpty, first_time-IsTime,
}

module _ (marshal : Value → Option String) (encoded : String)
    (null_marshals : marshal null ≡ some encoded) (short : len encoded ≤ 1048576) where
  -- What all events of a span share.
  abbrev IsBase : Base → Type 0
  IsBase base = NotEmpty base.source × (NotEmpty base.run_id × IsTime base.occurred_at)

  abbrev IsKnown : String → Type 0
  IsKnown type = NotEmpty type × (is_known_type type ≡ true)

  base_event-IsSound :
      (base : Base) (step type status : String) (attributes : Fields)
      → IsBase base
      → IsKnown type
      → valid_status status ≡ true
      → (IsSound marshal) (base_event base step type status attributes)
  base_event-IsSound base step type status attributes b k s =
      event-IsSound marshal encoded null_marshals short
        (base_event base step type status attributes) refl b.0 b.1.0 b.1.1 k s refl refl

  status_of_code-valid : (code : StatusCode) → valid_status (status_of_code code) ≡ true
  unfolding status_of_code valid_status
  status_of_code-valid code_error = refl
  status_of_code-valid code_ok = refl
  status_of_code-valid code_unset = refl

  root_events-IsSound :
      (base : Base) (is_root : Bool) (attributes : Fields)
      → IsBase base
      → All (IsSound marshal) (root_events base is_root attributes)
  unfolding is_known_type contains_text valid_status
  root_events-IsSound base true attributes b =
      (base_event-IsSound base "" run_started started attributes b (refl, refl) refl, tt)
  root_events-IsSound base false attributes b = tt

  if-All :
      (b : Bool) (e : Event)
      → (IsSound marshal) e
      → All (IsSound marshal) (if b then e ∷ [] else [])
  if-All true e h = (h, tt)
  if-All false e h = tt

  model_events-IsSound :
      (base : Base) (span : Span) (operation : Option String) (attributes : Fields)
      → IsBase base
      → All (IsSound marshal) (model_events base span operation attributes)
  unfolding model_events span_status is_known_type contains_text valid_status
  model_events-IsSound base span none attributes b = tt
  model_events-IsSound base span (some operation) attributes b =
      let step = concat base.step_id ":request" in
      All-append (IsSound marshal) (if is_request operation then _ ∷ [] else [])
        (if is_model_operation operation then _ ∷ [] else [])
        (if-All (is_request operation) _
          (base_event-IsSound base step "model.requested" started attributes b (refl, refl) refl))
        (if-All (is_model_operation operation) _ (
          base_event-IsSound base step "model.completed" (span_status span) attributes b
            (refl, refl) (status_of_code-valid span.status_code)))

  -- The type and the status of an event that may be there.
  abbrev IsEnding : Option (String × String) → Type 0
  IsEnding none = Unit
  IsEnding (some (type, status)) = IsKnown type × (valid_status status ≡ true)

  if-IsKnown : (b : Bool) (s t : String) → IsKnown s → IsKnown t → IsKnown (if b then s else t)
  if-IsKnown true s t h k = h
  if-IsKnown false s t h k = k

  if-IsEnding :
      (b : Bool) (type status : String)
      → IsKnown type
      → valid_status status ≡ true
      → IsEnding (if b then some (type, status) else none)
  if-IsEnding true type status h k = (h, k)
  if-IsEnding false type status h k = tt

  error_ending-IsEnding : (span : Span) (kind : Option String) → IsEnding (error_ending span kind)
  unfolding error_ending is_known_type contains_text valid_status
  error_ending-IsEnding span (some kind) =
      (if-IsKnown (is_root_span span) run_failed "tool.failed" (refl, refl) (refl, refl), refl)
  error_ending-IsEnding span none =
      if-IsEnding (is_error span.status_code)
        (if is_root_span span then run_failed else error_recorded) failed
        (if-IsKnown (is_root_span span) run_failed error_recorded (refl, refl) (refl, refl)) refl

  or_completed-IsEnding :
      (span : Span) (end_ : Option (String × String))
      → IsEnding end_
      → IsEnding (or_completed span end_)
  unfolding or_completed is_known_type contains_text valid_status
  or_completed-IsEnding span (some (type, status)) h = h
  or_completed-IsEnding span none h =
      if-IsEnding (is_root_span span && ltb 0 span.end_time_unix_nano) run_completed completed
        (refl, refl) refl

  terminal_events-IsSound :
      (base : Base) (span : Span) (attributes result : Fields) (end_ : Option (String × String))
      → IsBase base
      → IsEnding end_
      → All (IsSound marshal) (terminal_events base span attributes end_ result)
  unfolding terminal_events
  terminal_events-IsSound base span attributes result none b h = tt
  terminal_events-IsSound base span attributes result (some (type, status)) b h =
      elim (Bool-cases (status == failed && type == run_failed)) [
        | inl e ↦ rw e (
          event-IsSound marshal encoded null_marshals short _ refl b.0 b.1.0 b.1.1 h.0 h.1 refl
              refl,
          tt,
        )
        | inr e ↦ rw e (base_event-IsSound base _ type status result b h.0 h.1, tt)
      ]

  or_extension-IsSound :
      (base : Base) (span : Span) (attributes : Fields) (events : List Event)
      → IsBase base
      → All (IsSound marshal) events
      → All (IsSound marshal) (or_extension base span attributes events)
  unfolding or_extension is_known_type contains_text valid_status
  or_extension-IsSound base span attributes [] b h =
      (base_event-IsSound base base.step_id source_extension unknown _ b (refl, refl) refl, tt)
  or_extension-IsSound base span attributes (e ∷ rest) b h = h

  module _ (codec : Codec) where
    pub trace_span_events-IsSound :
        (clock : ℕ → Instant) (source version scope : String) (resource : Fields) (span : Span)
        (context : SourceContext)
        → IsTime (clock 2)
        → NotEmpty source
        → All
            (IsSound marshal)
            (trace_span_events codec clock source version scope resource span context)
    unfolding trace_span_events ending terminal_event_for span_time
    trace_span_events-IsSound clock source version scope resource span context t s =
        let attributes = attributes_to_map span.attributes in
        let base = span_base codec clock source version attributes span context in
        let b : IsBase base = (
          s,
          (
            run_identifier-NotEmpty codec (clock 0) span attributes context,
            first_time-IsTime span.start_time_unix_nano span.end_time_unix_nano (clock 2) t,
          ),
        ) in
        let ended =
          or_completed-IsEnding span _
            (error_ending-IsEnding span (first_text_of ("error.type" ∷ []) attributes)) in
        or_extension-IsSound base span
          (span_attributes codec source scope resource attributes context span) _ b
          (All-append (IsSound marshal) _ _ (root_events-IsSound base (is_root_span span) _ b) (
            All-append (IsSound marshal) _ _
              (model_events-IsSound base span (text_at "gen_ai.operation.name" attributes) _ b)
              (terminal_events-IsSound base span attributes _ (ending span attributes) b ended)))
