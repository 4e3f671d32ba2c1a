-- ===== src/Ingest/Signals.antt =====
-- internal/ingest/otlp.go: an OpenTelemetry body on its way to the ingest service.
pub mod Off
use traceboard.Prelude.{ℕ, ◌*◌, String, Option, none, some, List, [], ◌∷◌, ◌==◌, map, if◌then◌else◌}
use traceboard.Event.{Event, Instant}
use traceboard.Platform.{Platform}
use traceboard.Store.{Db}
use traceboard.Ingest.{IngestResult, nothing, ingest}
use traceboard.Ingest.Setup.{Service, Tools, capture_mode}
use traceboard.Otlp.{Signal, SourceContext, Codec}
use traceboard.Otlp.Normalize.{normalize, otlp_source_names}
use traceboard.Otlp.Decode.{
  Kind, kind_traces, kind_logs, kind_metrics, Decoded, decoded, failed, Parsers, decode_signal,
}

-- otlpKindForSource
unfoldable pub otlp_kind_for_source : String → Kind
otlp_kind_for_source source =
    if source == "otlp-logs"
    then kind_logs
    else if source == "otlp-metrics"
    then kind_metrics
    else kind_traces

first_name : List String → String → String
first_name [] fallback = fallback
first_name (name ∷ rest) fallback =
    let later = first_name rest fallback in if name == "" then later else name

-- ResolveSourceName
unfoldable pub resolve_source_name : Signal → String → String
unfolding first_name
resolve_source_name signal fallback = first_name (otlp_source_names signal) fallback

abbrev pub with_source : String → Event → Event
with_source source e = record e { source = source }

module _ (platform : Platform) (tools : Tools) (service : Service) (codec : Codec)
    (parsers : Parsers) where
  -- The context that `IngestSignal` gives to `Normalize`.
  abbrev pub signal_context : String → SourceContext
  signal_context source = record {
    source = source;
    source_version = "";
    capture_mode = capture_mode service source;
    project_id = "";
    parent_run_id = "";
    conversation_id = "";
  }

  -- The events that go to the service: all get the source of the first service that is named.
  unfoldable pub signal_events : (ℕ → ℕ → Instant) → String → Signal → List Event
  signal_events clock source signal =
      let resolved = resolve_source_name signal source in
      map (with_source resolved) (normalize codec clock (signal_context resolved) signal)

  unfoldable pub ingest_unless_empty :
      (ℕ → Instant) → (ℕ → Instant) → List Event → Db → (IngestResult × List String) × Db
  ingest_unless_empty clock store_clock [] db = ((nothing, []), db)
  ingest_unless_empty clock store_clock (e ∷ rest) db =
      ingest platform tools service clock store_clock (e ∷ rest) db

  unfoldable pub ingest_decoded :
      (ℕ → ℕ → Instant)
      → (ℕ → Instant)
      → (ℕ → Instant)
      → String
      → Decoded Signal
      → Db
      → (IngestResult × List String) × Db
  unfolding ingest_unless_empty signal_events
  ingest_decoded signal_clock clock store_clock source (failed e) db =
      ((record nothing { quarantined = 1 }, []), db)
  ingest_decoded signal_clock clock store_clock source (decoded signal) db =
      ingest_unless_empty clock store_clock (signal_events signal_clock source signal) db

  -- IngestSignal, with the clocks that reading the signal, the service and the store ask.
  unfoldable pub ingest_signal :
      (ℕ → ℕ → Instant)
      → (ℕ → Instant)
      → (ℕ → Instant)
      → String
      → List ℕ
      → String
      → Kind
      → Db
      → (IngestResult × List String) × Db
  unfolding ingest_decoded
  ingest_signal signal_clock clock store_clock source body content_type kind db =
      ingest_decoded signal_clock clock store_clock source
        (decode_signal parsers kind content_type body (service.limits.max_raw_payload_size * 8)) db

  -- IngestOTLP, of the service and of the combined service.
  unfoldable pub ingest_otlp :
      (ℕ → ℕ → Instant)
      → (ℕ → Instant)
      → (ℕ → Instant)
      → String
      → List ℕ
      → String
      → Db
      → (IngestResult × List String) × Db
  unfolding ingest_signal
  ingest_otlp signal_clock clock store_clock source body content_type db =
      ingest_signal signal_clock clock store_clock source body content_type
        (otlp_kind_for_source source) db
