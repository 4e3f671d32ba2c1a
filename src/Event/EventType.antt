-- ===== src/Event/EventType.antt =====
-- The event types of internal/event/event.go, and the closed set of those that it knows.
use traceboard.Prelude.{String, Bool, false, List, [], ◌∷◌, ◌==◌, ◌||◌}

abbrev pub run_started : String
run_started = "run.started"

abbrev pub run_completed : String
run_completed = "run.completed"

abbrev pub run_failed : String
run_failed = "run.failed"

abbrev pub run_cancelled : String
run_cancelled = "run.cancelled"

abbrev pub run_incomplete : String
run_incomplete = "run.incomplete"

abbrev pub error_recorded : String
error_recorded = "error.recorded"

abbrev pub source_extension : String
source_extension = "source.extension"

-- The keys of `KnownTypes`.
abbrev pub known_types : List String
known_types =
    run_started ∷ run_completed ∷ run_failed ∷ run_cancelled ∷ run_incomplete ∷ "prompt.received"
    ∷ "model.requested" ∷ "model.completed" ∷ "tool.started" ∷ "tool.completed" ∷ "tool.failed"
    ∷ "file.changed" ∷ "command.started" ∷ "command.completed" ∷ "command.failed"
    ∷ "permission.requested" ∷ "permission.resolved" ∷ "subagent.started" ∷ "subagent.completed"
    ∷ "context.compacted" ∷ error_recorded ∷ "source.connected" ∷ "source.disconnected"
    ∷ source_extension ∷ []

unfoldable pub contains_text : String → List String → Bool
contains_text s [] = false
contains_text s (t ∷ rest) = t == s || contains_text s rest

unfoldable pub is_known_type : String → Bool
unfolding contains_text
is_known_type value = contains_text value known_types
