-- ===== src/Event/Mode.antt =====
-- The capture modes of internal/event/event.go.
use traceboard.Prelude.{String}

abbrev pub off : String
off = "off"

abbrev pub metadata : String
metadata = "metadata"

abbrev pub detailed : String
detailed = "detailed"
