-- ===== src/Otlp/Contract.antt =====
-- The events that internal/otlp/normalize.go makes, against the checks of internal/event/validate.go.
pub mod Parts
pub mod Whole
use Prim.Native.String.{len, ◌++◌ as concat, [] as empty, ◌∷◌ as char}
use Prim.Native.String.append
use Prim.Native.String.compare
use text.Mathlib.Text.{is_eq}
use traceboard.Prelude.{
  ℕ, zero, suc, ◌+◌, ◌≤◌, String, Bool, true, false, Option, none, some, List, [], ◌∷◌, ◌++◌, ◌≡◌,
  ◌≢◌, refl, sym, ap, subst, ◌∙◌, ◌==◌, ◌&&◌, arith, All, All-append, All-imp, map, Bool-cases, inl,
  inr, leb, eqb, if◌then◌else◌, not, ltb,
}
use traceboard.Prelude.Sorting.{sort_by, sort_by-All}
use traceboard.Event.{Value, null, Fields, Event, Instant}
use traceboard.Event.EventType.{
  is_known_type, contains_text, run_started, run_completed, run_failed, error_recorded,
  source_extension,
}
use traceboard.Event.Status.{started, completed, failed, unknown}
use traceboard.Event.Maps
use traceboard.Event.Validate.{validate, valid_status, capture_mode}
use traceboard.Otlp.{
  Span, LogRecord, Metric, Resource, StatusCode, Signal, traces, logs, metrics, SourceContext,
  Codec, KeyValues, code_ok, code_error, code_unset,
}
use traceboard.Otlp.Attributes.{
  attributes_to_map, text_at, first_text_of, or_later, source_name, source_name_of,
}
use traceboard.Otlp.Times.{
  unix_nano, first_time, span_time, record_time_nano, span_run, run_identifier, run_of, prefixed,
  run_identifier_from_attributes, is_root_span,
}
use traceboard.Otlp.Spans.{
  Base, base_event, span_base, root_events, model_events, terminal_events, or_extension,
  trace_span_events, span_status, is_request, is_model_operation, terminal_event_for, ending,
  is_error, status_of_code, error_ending, or_completed,
}
use traceboard.Otlp.Records.{
  log_event, log_event_type, metric_event, type_by_name, type_by_severity, type_of_name, is_severe,
}
use traceboard.Otlp.Normalize.{
  Placed, placed_items, append_each, occurs_before, span_item_events, log_item_events,
  metric_item_events, normalize,
}

abbrev pub NotEmpty : String → Type 0
NotEmpty s = (s == "") ≡ false

append-NotEmpty_left : (s t : String) → NotEmpty s → NotEmpty (concat s t)
append-NotEmpty_left empty t h = absurd (cc)
append-NotEmpty_left (char c s) t h =
    ap (λ u. u == "") (append.cons c s t) ∙ ap is_eq (compare.cons-nil c (concat s t))

pub append-NotEmpty_right : (s t : String) → NotEmpty t → NotEmpty (concat s t)
append-NotEmpty_right empty t h = ap (λ u. u == "") (append.nil t) ∙ h
append-NotEmpty_right (char c s) t h =
    append-NotEmpty_left (char c s) t (ap is_eq (compare.cons-nil c s))

prefixed-NotEmpty : (context : SourceContext) (s : String) → NotEmpty (prefixed context s)
prefixed-NotEmpty context s =
    append-NotEmpty_right context.source (concat ":" s) (append-NotEmpty_left ":" s refl)

-- A text that a search for keys finds is not empty.
abbrev SomeNotEmpty : Option String → Type 0
SomeNotEmpty none = Unit
SomeNotEmpty (some s) = NotEmpty s

or_later-NotEmpty : (o later : Option String) → SomeNotEmpty later → SomeNotEmpty (or_later o later)
unfolding or_later
or_later-NotEmpty none later h = h
or_later-NotEmpty (some s) later h = elim (Bool-cases (s == "")) [ inl e ↦ rw e h | inr e ↦ rw e e ]

first_text_of-NotEmpty : (l : List String) (m : Fields) → SomeNotEmpty (first_text_of l m)
unfolding first_text_of
first_text_of-NotEmpty [] m = tt
first_text_of-NotEmpty (key ∷ rest) m =
    or_later-NotEmpty (text_at key m) (first_text_of rest m) (first_text_of-NotEmpty rest m)

source_name_of-NotEmpty :
    (o : Option String) (fallback : String) → SomeNotEmpty o → NotEmpty (source_name_of o fallback)
unfolding source_name_of
source_name_of-NotEmpty (some s) fallback h = h
source_name_of-NotEmpty none fallback h = elim (Bool-cases (fallback == "")) [
  | inl e ↦ rw e refl
  | inr e ↦ rw e e
]

pub source_name-NotEmpty :
    (resource : Fields) (fallback : String) → NotEmpty (source_name resource fallback)
unfolding source_name
source_name-NotEmpty resource fallback =
    source_name_of-NotEmpty _ fallback (first_text_of-NotEmpty ("service.name" ∷ []) resource)

run_of-NotEmpty :
    (o : Option String) (context : SourceContext) (other : String)
    → NotEmpty other
    → NotEmpty (run_of o context other)
unfolding run_of
run_of-NotEmpty none context other h = h
run_of-NotEmpty (some value) context other h = prefixed-NotEmpty context value

if-NotEmpty : (b : Bool) (s t : String) → NotEmpty s → NotEmpty t → NotEmpty (if b then s else t)
if-NotEmpty true s t h k = h
if-NotEmpty false s t h k = k

pub run_identifier-NotEmpty :
    (codec : Codec) (now : Instant) (span : Span) (attributes : Fields) (context : SourceContext)
    → NotEmpty (run_identifier codec now span attributes context)
unfolding run_identifier span_run
run_identifier-NotEmpty codec now span attributes context =
    search (run_of-NotEmpty, if-NotEmpty, prefixed-NotEmpty)

pub run_identifier_from_attributes-NotEmpty :
    (attributes : Fields) (context : SourceContext)
    → NotEmpty (run_identifier_from_attributes attributes context)
unfolding run_identifier_from_attributes
run_identifier_from_attributes-NotEmpty attributes context =
    search (run_of-NotEmpty, if-NotEmpty, prefixed-NotEmpty)

abbrev pub IsTime : Instant → Type 0
IsTime t = eqb t 0 ≡ false

pub first_time-IsTime :
    (first second : ℕ) (now : Instant) → IsTime now → IsTime (first_time first second now)
unfolding first_time unix_nano
first_time-IsTime first second now h = ground (arith, h)

-- What an event of a normalized signal is: its checks find no error, and its type is known.
-- `marshal` is json.Marshal.
module _ (marshal : Value → Option String) where
  abbrev pub IsSound : Event → Type 0
  IsSound e = (validate marshal e ≡ none) × (is_known_type e.type ≡ true)

  module _ (encoded : String) (null_marshals : marshal null ≡ some encoded)
      (short : len encoded ≤ 1048576) where
    pub event-IsSound :
        (e : Event)
        → e.schema_version ≡ 1
        → NotEmpty e.source
        → NotEmpty e.run_id
        → IsTime e.occurred_at
        → NotEmpty e.type × (is_known_type e.type ≡ true)
        → valid_status e.status ≡ true
        → e.capture ≡ none
        → e.raw ≡ null
        → IsSound e
    unfolding validate capture_mode Maps.lookup
    event-IsSound e v s r t k st c n = (
      ground
          (arith, v, s, r, t, k.0, st, c, n, null_marshals, short, ap marshal n, ap capture_mode c),
      k.1,
    )
