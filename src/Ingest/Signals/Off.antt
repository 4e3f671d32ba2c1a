-- ===== src/Ingest/Signals/Off.antt =====
-- OpenTelemetry signals of internal/ingest/otlp.go whose source is switched off.
use traceboard.Prelude.{
  ℕ, zero, suc, ◌+◌, ◌≤◌, String, true, Option, none, some, List, [], ◌∷◌, ◌≡◌, refl, ap, ◌==◌,
  arith, All, map, length, take, length-take,
}
use traceboard.Event.{Value, null, Event, Instant}
use traceboard.Event.Mode.{off}
use traceboard.Event.Validate.{validate}
use traceboard.Platform.{Platform}
use traceboard.Store.{Db}
use traceboard.Ingest.{
  PreparedBatch, prepare_batch, add_prepared, store_batch, ingest, IngestResult, nothing,
}
use traceboard.Ingest.Setup.{Service, Tools, capture_mode}
use traceboard.Ingest.Prepare.{prepare}
use traceboard.Ingest.Signals.{
  resolve_source_name, signal_context, signal_events, ingest_decoded, ingest_unless_empty,
  with_source,
}
use traceboard.Otlp.{Signal, Codec}
use traceboard.Otlp.Normalize.{normalize}
use traceboard.Otlp.Decode.{decoded, Parsers}
use traceboard.Otlp.Contract.{IsSound, IsTime}
use traceboard.Otlp.Contract.Whole.{normalize-IsSound}
use Prim.Native.String.{len}

module _ (platform : Platform) (tools : Tools) (service : Service) (codec : Codec)
    (parsers : Parsers) where
  -- An event of the contract's version whose source is off.
  abbrev IsOff : Event → Type 0
  IsOff e = (e.schema_version ≡ 1) × ((capture_mode service e.source == off) ≡ true)

  -- What is left of so many events that are dropped.
  abbrev dropped_batch : ℕ → PreparedBatch
  dropped_batch n = record { events = []; dropped = n; touched = [] }

  abbrev pub all_dropped : ℕ → Db → (IngestResult × List String) × Db
  all_dropped n db = ((record nothing { dropped = n }, []), db)

  prepare-off : (now : Instant) (e : Event) → IsOff e → prepare platform tools service now e ≡ none
  unfolding prepare
  prepare-off now e h = ground (arith, h.0, h.1)

  prepare_batch-off :
      (clock : ℕ → Instant) (n : ℕ) (events : List Event)
      → All IsOff events
      → prepare_batch platform tools service clock n events ≡ dropped_batch (length events)
  unfolding prepare_batch add_prepared
  prepare_batch-off clock n [] h = refl
  prepare_batch-off clock n (e ∷ rest) h =
      rw (prepare-off (clock n) e h.0, prepare_batch-off clock (n + 1) rest h.1)
        (ap dropped_batch (omega arith))

  take-All : {A : Type 0} (P : A → Type 0) (n : ℕ) (l : List A) → All P l → All P (take n l)
  take-All P zero l h = tt
  take-All P (suc n) [] h = tt
  take-All P (suc n) (x ∷ l) h = (h.0, take-All P n l h.1)

  ingest-off :
      (clock store_clock : ℕ → Instant) (events : List Event) (db : Db)
      → All IsOff events
      → ingest platform tools service clock store_clock events db ≡ all_dropped (length events) db
  unfolding ingest store_batch
  ingest-off clock store_clock events db h =
      let limit = service.limits.max_events_per_batch in
      rw (prepare_batch-off clock 0 (take limit events) (take-All IsOff limit events h))
        (ap (λ (n : ℕ). all_dropped n db) (omega (arith, length-take limit events)))

  ingest_unless_empty-off :
      (clock store_clock : ℕ → Instant) (events : List Event) (db : Db)
      → All IsOff events
      → ingest_unless_empty platform tools service codec parsers clock store_clock events db
        ≡ all_dropped (length events) db
  unfolding ingest_unless_empty
  ingest_unless_empty-off clock store_clock [] db h = refl
  ingest_unless_empty-off clock store_clock (e ∷ rest) db h =
      ingest-off clock store_clock (e ∷ rest) db h

  sound-IsOff :
      (marshal : Value → Option String) (source : String) (events : List Event)
      → (capture_mode service source == off) ≡ true
      → All (IsSound marshal) events
      → All IsOff (map (with_source source) events)
  unfolding validate
  sound-IsOff marshal source [] off_ h = tt
  sound-IsOff marshal source (e ∷ rest) off_ h =
      ((ground (arith, h.0.0), off_), sound-IsOff marshal source rest off_ h.1)

  -- A decoded signal whose source, the first service that it names or the endpoint's, is switched off
  -- leaves no trace: the database is unchanged, no run is announced and every event counts as dropped,
  -- also those of other services in the same request. Where null is encoded in at most 1048576 bytes
  -- and the clock that reading the signal asks is not at Go's zero time.
  pub ingest_decoded-off :
      (signal_clock : ℕ → ℕ → Instant) (clock store_clock : ℕ → Instant) (source : String)
      (signal : Signal) (db : Db) (encoded : String)
      → platform.marshal null ≡ some encoded
      → len encoded ≤ 1048576
      → ((n k : ℕ) → IsTime (signal_clock n k))
      → (capture_mode service (resolve_source_name signal source) == off) ≡ true
      → ingest_decoded platform tools service codec parsers signal_clock clock store_clock source
          (decoded signal)
          db
        ≡ all_dropped
            (length (signal_events platform tools service codec parsers signal_clock source signal))
            db
  unfolding ingest_decoded signal_events
  ingest_decoded-off signal_clock clock store_clock source signal db encoded m short time off_ =
      let resolved = resolve_source_name signal source in
      let context = signal_context platform tools service codec parsers resolved in
      ingest_unless_empty-off clock store_clock
        (map (with_source resolved) (normalize codec signal_clock context signal)) db
        (sound-IsOff platform.marshal resolved _ off_ (
          normalize-IsSound platform.marshal encoded m short codec signal_clock context signal
            time))
