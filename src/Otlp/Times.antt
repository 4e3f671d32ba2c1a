-- ===== src/Otlp/Times.antt =====
-- The instants and identifiers of spans and log records (internal/otlp/normalize.go).
use Prim.Native.String.{◌++◌ as concat}
use traceboard.Prelude.{
  ℕ, ◌+◌, ◌-◌, String, Bool, true, false, not, Option, none, some, List, [], ◌∷◌, ◌==◌, ltb, leb,
  if◌then◌else◌,
}
use traceboard.Event.{Fields, Instant}
use traceboard.Otlp.{Span, LogRecord, SourceContext, Codec}
use traceboard.Otlp.Attributes.{first_text_of}

-- The nanoseconds from Go's zero time to the epoch.
abbrev pub epoch : ℕ
epoch = 62135596800000000000

-- time.Unix(0, int64(n)): a number of nanoseconds from 2^63 on turns negative.
unfoldable pub unix_nano : ℕ → Instant
unix_nano n = if leb 9223372036854775808 n then epoch + n - 18446744073709551616 else epoch + n

-- The first of the two times that is there, or the clock's.
unfoldable pub first_time : ℕ → ℕ → Instant → Instant
unfolding unix_nano
first_time first second now =
    if ltb 0 first then unix_nano first else if ltb 0 second then unix_nano second else now

-- spanTime
unfoldable pub span_time : Instant → Span → Instant
unfolding first_time
span_time now span = first_time span.start_time_unix_nano span.end_time_unix_nano now

-- recordTimeNano
unfoldable pub record_time_nano : Instant → LogRecord → Instant
unfolding first_time
record_time_nano now record_ = first_time record_.time_unix_nano record_.observed_time_unix_nano now

abbrev pub is_blank : List ℕ → Bool
is_blank [] = true
is_blank (b ∷ rest) = false

-- isRootSpan
abbrev pub is_root_span : Span → Bool
is_root_span span = is_blank span.parent_span_id

abbrev pub prefixed : SourceContext → String → String
prefixed context s = concat context.source (concat ":" s)

unfoldable pub run_of : Option String → SourceContext → String → String
run_of none context other = other
run_of (some value) context other = prefixed context value

-- runIdentifierFromAttributes
unfoldable pub run_identifier_from_attributes : Fields → SourceContext → String
unfolding run_of first_text_of
run_identifier_from_attributes attributes context =
    run_of
      (first_text_of ("gen_ai.conversation.id" ∷ "session.id" ∷ "conversation.id" ∷ []) attributes)
      context
      (if context.conversation_id == ""
        then prefixed context "unattributed"
        else prefixed context context.conversation_id)

module _ (codec : Codec) where
  -- spanID
  unfoldable pub span_step : Instant → Span → String
  unfolding span_time
  span_step now span = concat "span:" (
      if is_blank span.span_id
      then codec.short_digest (
          concat span.name
            (concat (codec.hex span.trace_id) (codec.time_text (span_time now span))))
      else codec.hex span.span_id)

  -- The identity of a span that names no conversation.
  unfoldable pub span_run : Instant → Span → SourceContext → String
  unfolding span_step
  span_run now span context =
      if not (context.conversation_id == "")
      then prefixed context context.conversation_id
      else if is_blank span.trace_id
      then prefixed context (concat "span:" (span_step now span))
      else prefixed context (concat "trace:" (codec.hex span.trace_id))

  -- runIdentifier
  unfoldable pub run_identifier : Instant → Span → Fields → SourceContext → String
  unfolding run_of span_run first_text_of
  run_identifier now span attributes context =
      run_of
        (first_text_of
          ("gen_ai.conversation.id" ∷ "session.id" ∷ "conversation.id" ∷ "langfuse.trace.id" ∷ [])
          attributes)
        context (span_run now span context)
