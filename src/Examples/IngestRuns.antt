-- ===== src/Examples/IngestRuns.antt =====
-- Runs of the ingest service: an event with content, a source that is off, and a whole batch.
use traceboard.Prelude.{true, false, none, some, [], ◌∷◌, ◌≡◌, ◌==◌, refl}
use traceboard.Event.{null, text, end, field, Event}
use traceboard.Event.Maps
use traceboard.Event.Maps.{or_empty}
use traceboard.Event.Mode.{off, detailed}
use traceboard.Event.EventType.{is_known_type}
use traceboard.Redact.{default_rules}
use traceboard.Store.{empty_db}
use traceboard.Ingest.{ingest}
use traceboard.Ingest.Setup.{Service, Tools, default_limits, capture_mode, find_mode}
use traceboard.Ingest.Prepare.{prepare, output_event}
use traceboard.Ingest.Kept.{prepare-mode, prepare-withheld}
use traceboard.Ingest.Counts.{counted, ingest_total}
use traceboard.Examples.{platform, clock, sample}

abbrev pub tools : Tools
tools = record { trim_space = λ s. s; digest = λ s. "0123"; rfc3339_nano = λ at. "now" }

abbrev pub service : Service
service = record {
  rules = default_rules;
  limits = default_limits;
  modes = ("claude", "off") ∷ ("pi", "detailed") ∷ [];
}

-- An event that calls itself detailed, from a source in the default mode.
abbrev prompt : Event
prompt = record (sample "evt_1" "prompt.received") {
  capture = some (field "mode" (text "detailed") end);
  content = some (field "prompt" (text "a secret plan") end);
  raw = text "raw";
}

abbrev kept : Event
kept = output_event platform tools service 100 prompt (capture_mode service "codex")

prompt_prepared : prepare platform tools service 100 prompt ≡ some kept
unfolding prepare capture_mode find_mode
prompt_prepared = refl

prepare-mode_example :
    (Maps.lookup "mode" (or_empty kept.capture) ≡ some (text (capture_mode service "codex")))
    × (is_known_type kept.type ≡ true)
prepare-mode_example = prepare-mode platform tools service 100 prompt kept refl prompt_prepared

not_detailed : (capture_mode service "codex" == detailed) ≡ false
unfolding capture_mode find_mode
not_detailed = refl

prepare-withheld_example :
    (kept.content ≡ none) × (kept.raw ≡ null) × ((capture_mode service "codex" == off) ≡ false)
prepare-withheld_example =
    prepare-withheld platform tools service 100 prompt kept refl not_detailed prompt_prepared

ingest_total_example :
    counted
      (ingest platform tools service clock clock
        (prompt ∷ sample "evt_2" "run.completed" ∷ record prompt { source = "claude" } ∷ [])
        empty_db).0.0
    ≡ 3
ingest_total_example =
    ingest_total platform tools service clock clock
      (prompt ∷ sample "evt_2" "run.completed" ∷ record prompt { source = "claude" } ∷ []) empty_db
