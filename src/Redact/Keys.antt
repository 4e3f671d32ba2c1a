-- ===== src/Redact/Keys.antt =====
-- `uniqueMapKey` of internal/redact/redact.go: the first key that no other entry has.
-- The search for a suffix has no bound in the source. Here its fuel is one more than the number of
-- used keys.
use traceboard.Prelude.{ℕ, zero, suc, ◌+◌, String, List, length, if◌then◌else◌}
use traceboard.Event.EventType.{contains_text}

-- fmt.Sprintf("%s~%d", key, suffix)
abbrev pub Format : Type 0
Format = String → ℕ → String

module _ (candidate : Format) (used : List String) (key : String) where
  unfoldable pub next_candidate : ℕ → ℕ → String
  unfolding contains_text
  next_candidate zero suffix = candidate key suffix
  next_candidate (suc fuel) suffix =
      let later = next_candidate fuel (suffix + 1) in
      if contains_text (candidate key suffix) used then later else candidate key suffix

  -- `used` holds the keys of `result` and of `reserved`.
  unfoldable pub unique_map_key : String
  unfolding next_candidate
  unique_map_key = if contains_text key used then next_candidate (length used) 2 else key
