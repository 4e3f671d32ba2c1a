-- ===== src/Otlp/Identity.antt =====
-- What the events that internal/otlp/normalize.go makes of one span, one log record and one signal
-- have in common.
use mathlib.Core.List.{Perm}
use traceboard.Prelude.{
  ℕ, ◌+◌, ◌≤◌, String, Bool, true, false, Option, none, some, List, [], ◌∷◌, ◌++◌, ◌≡◌, refl, ◌==◌,
  ◌&&◌, arith, All, All-append, count_rows, count_rows-append, length, Bool-cases, inl, inr,
  if◌then◌else◌, ltb,
}
use traceboard.Prelude.Sorting.{IsOrder, IsOrdered, sort_by-IsOrdered, sort_by-perm}
use traceboard.Event.{Fields, Event, Instant}
use traceboard.Event.EventType.{run_started, run_failed, error_recorded}
use traceboard.Otlp.{Span, Resource, traces, SourceContext, Codec}
use traceboard.Otlp.Attributes.{attributes_to_map, text_at, first_text_of}
use traceboard.Otlp.Times.{span_time, run_identifier, is_root_span}
use traceboard.Otlp.Spans.{
  Base, span_base, root_events, model_events, terminal_events, or_extension, trace_span_events,
  error_ending, or_completed, ending, terminal_event_for, is_request, is_model_operation, is_error,
  span_attributes,
}
use traceboard.Otlp.Normalize.{
  placed_items, append_each, occurs_before, span_item_events, normalize,
}
use traceboard.Platform.{Platform}

-- The run and the time of the span.
abbrev IsOf : Base → Event → Type 0
IsOf base e = (e.run_id ≡ base.run_id) × (e.occurred_at ≡ base.occurred_at)

abbrev starts_run : Event → Bool
starts_run e = e.type == run_started

abbrev starts : List Event → ℕ
starts events = count_rows starts_run events

-- What each part of `traceSpanEvents` is shown to be: events of the span, of which so many start a run.
abbrev IsPart : Base → ℕ → List Event → Type 0
IsPart base n events = All (IsOf base) events × (starts events ≡ n)

IsPart-append :
    (base : Base) (m n : ℕ) (xs ys : List Event)
    → IsPart base m xs
    → IsPart base n ys
    → IsPart base (m + n) (xs ++ ys)
IsPart-append base m n xs ys h k = (
  All-append (IsOf base) xs ys h.0 k.0,
  omega (arith, h.1, k.1, count_rows-append starts_run xs ys),
)

root_events-IsPart :
    (base : Base) (is_root : Bool) (attributes : Fields)
    → IsPart base (if is_root then 1 else 0) (root_events base is_root attributes)
unfolding count_rows
root_events-IsPart base true attributes = (((refl, refl), tt), refl)
root_events-IsPart base false attributes = (tt, refl)

if-IsPart :
    (base : Base) (b : Bool) (e : Event)
    → IsOf base e
    → starts_run e ≡ false
    → IsPart base 0 (if b then e ∷ [] else [])
unfolding count_rows
if-IsPart base true e h k = ((h, tt), ground (arith, k))
if-IsPart base false e h k = (tt, refl)

model_events-IsPart :
    (base : Base) (span : Span) (operation : Option String) (attributes : Fields)
    → IsPart base 0 (model_events base span operation attributes)
unfolding model_events count_rows
model_events-IsPart base span none attributes = (tt, refl)
model_events-IsPart base span (some operation) attributes =
    IsPart-append base 0 0 (if is_request operation then _ ∷ [] else [])
      (if is_model_operation operation then _ ∷ [] else [])
      (if-IsPart base (is_request operation) _ (refl, refl) refl)
      (if-IsPart base (is_model_operation operation) _ (refl, refl) refl)

-- The type of an ending starts no run.
abbrev NoStart : Option (String × String) → Type 0
NoStart none = Unit
NoStart (some (type, status)) = (type == run_started) ≡ false

if-NoStart :
    (b : Bool) (s t : String)
    → (s == run_started) ≡ false
    → (t == run_started) ≡ false
    → ((if b then s else t) == run_started) ≡ false
if-NoStart true s t h k = h
if-NoStart false s t h k = k

if-SomeNoStart :
    (b : Bool) (type status : String)
    → (type == run_started) ≡ false
    → NoStart (if b then some (type, status) else none)
if-SomeNoStart true type status h = h
if-SomeNoStart false type status h = tt

error_ending-NoStart : (span : Span) (kind : Option String) → NoStart (error_ending span kind)
unfolding error_ending
error_ending-NoStart span (some kind) =
    if-NoStart (is_root_span span) run_failed "tool.failed" refl refl
error_ending-NoStart span none =
    if-SomeNoStart (is_error span.status_code) _ _
      (if-NoStart (is_root_span span) run_failed error_recorded refl refl)

or_completed-NoStart :
    (span : Span) (e : Option (String × String)) → NoStart e → NoStart (or_completed span e)
unfolding or_completed
or_completed-NoStart span (some (type, status)) h = h
or_completed-NoStart span none h =
    if-SomeNoStart (is_root_span span && ltb 0 span.end_time_unix_nano) _ _ refl

terminal_events-IsPart :
    (base : Base) (span : Span) (attributes result : Fields) (e : Option (String × String))
    → NoStart e
    → IsPart base 0 (terminal_events base span attributes e result)
unfolding terminal_events count_rows
terminal_events-IsPart base span attributes result none h = (tt, refl)
terminal_events-IsPart base span attributes result (some (type, status)) h =
    elim (Bool-cases (status == "failed" && type == run_failed)) [
      | inl e ↦ rw e (((refl, refl), tt), ground (arith, h))
      | inr e ↦ rw e (((refl, refl), tt), ground (arith, h))
    ]

or_extension-IsPart :
    (base : Base) (span : Span) (attributes : Fields) (n : ℕ) (events : List Event)
    → IsPart base n events
    → IsPart base n (or_extension base span attributes events)
      × (1 ≤ length (or_extension base span attributes events))
unfolding or_extension count_rows
or_extension-IsPart base span attributes n [] h = ((((refl, refl), tt), h.1), omega arith)
or_extension-IsPart base span attributes n (e ∷ rest) h = (h, omega arith)

-- The events of a span, at least one: all have the run of the span and the time at which it starts,
-- the end of the run included, and one of them starts a run exactly where the span is a root span.
pub trace_span_events-IsPart :
    (codec : Codec) (clock : ℕ → Instant) (source version scope : String) (resource : Fields)
    (span : Span) (context : SourceContext)
    → All
        (λ e.
          (Event.run_id e
            ≡ run_identifier codec (clock 0) span (attributes_to_map span.attributes) context)
          × (Event.occurred_at e ≡ span_time (clock 2) span))
        (trace_span_events codec clock source version scope resource span context)
      × ((count_rows
              (λ e. Event.type e == run_started)
              (trace_span_events codec clock source version scope resource span context)
            ≡ (if is_root_span span then 1 else 0))
          × (1 ≤ length (trace_span_events codec clock source version scope resource span context)))
unfolding trace_span_events ending terminal_event_for
trace_span_events-IsPart codec clock source version scope resource span context =
    let attributes = attributes_to_map span.attributes in
    let base = span_base codec clock source version attributes span context in
    let described = span_attributes codec source scope resource attributes context span in
    let end_ = first_text_of ("error.type" ∷ []) attributes in
    let parts =
      or_extension-IsPart base span described ((if is_root_span span then 1 else 0) + 0) _ (
        IsPart-append base (if is_root_span span then 1 else 0) 0 _ _
          (root_events-IsPart base (is_root_span span) described)
          (IsPart-append base 0 0 _ _
            (model_events-IsPart base span (text_at "gen_ai.operation.name" attributes) _)
            (terminal_events-IsPart base span attributes described (ending span attributes)
              (or_completed-NoStart span _ (error_ending-NoStart span end_))))) in
    (parts.0.0, (omega (arith, parts.0.1), parts.1))

occurs_before-IsOrder : IsOrder occurs_before
occurs_before-IsOrder = record {
  asym = λ a b h. ground (arith, h);
  trans = λ a b c h k. ground (arith, h, k);
}

-- The events of a trace request are those of its spans, in the order of their times.
pub normalize-IsOrdered :
    (codec : Codec) (clock : ℕ → ℕ → Instant) (context : SourceContext)
    (resources : List (Resource Span))
    → IsOrdered occurs_before (normalize codec clock context (traces resources))
      × Perm
          (normalize codec clock context (traces resources))
          (append_each (span_item_events codec clock context) 0 (placed_items resources))
unfolding normalize
normalize-IsOrdered codec clock context resources =
    (sort_by-IsOrdered occurs_before occurs_before-IsOrder _, sort_by-perm occurs_before _)
