-- ===== src/Event/Status.antt =====
-- The statuses of internal/event/event.go.
use traceboard.Prelude.{String}

abbrev pub started : String
started = "started"

abbrev pub completed : String
completed = "completed"

abbrev pub failed : String
failed = "failed"

abbrev pub cancelled : String
cancelled = "cancelled"

abbrev pub incomplete : String
incomplete = "incomplete"

abbrev pub unknown : String
unknown = "unknown"
