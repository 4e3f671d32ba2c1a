-- ===== src/Ingest/Spool/Reports.antt =====
-- The state that the spool reports (internal/ingest/spool.go): State and States.
use traceboard.Prelude.{
  ℕ, ◌-◌, String, Bool, Option, none, some, List, [], ◌∷◌, ◌⊎◌, inl, inr, ◌==◌, ◌||◌, not, is_none,
  ltb, leb, if◌then◌else◌, length,
}
use traceboard.Event.{Instant}
use traceboard.Ingest.Spool.{
  SpoolEntry, SpoolError, Codec, Spool, read_entries, entry_line_bytes, total_bytes, count_of,
}
use traceboard.Ingest.Spool.Buffer.{source_names}

-- LossWarningGrace: 24 hours in nanoseconds.
abbrev pub loss_warning_grace : ℕ
loss_warning_grace = 86400000000000

pub record SpoolState : Type 0 where
  pub source : String
  pub events : ℕ
  pub bytes : ℕ
  pub limit_bytes : ℕ
  pub oldest_at : Option Instant
  pub dropped : ℕ
  pub at_risk : Bool
  pub at_risk_since : Option Instant
  pub now : Instant

module _ (codec : Codec) where
  oldest_of : List SpoolEntry → Option Instant → Option Instant
  oldest_of [] found = found
  oldest_of (e ∷ rest) none = oldest_of rest (some e.timestamp)
  oldest_of (e ∷ rest) (some t) =
      oldest_of rest (some (if ltb e.timestamp t then e.timestamp else t))

  risk_since : String → List (String × Instant) → Option Instant
  risk_since source [] = none
  risk_since source ((s, t) ∷ rest) =
      let later = risk_since source rest in if s == source then some t else later

  unfoldable pub state_of : Instant → String → Spool → List SpoolEntry → SpoolState
  unfolding total_bytes entry_line_bytes oldest_of risk_since count_of
  state_of now source spool entries =
      let bytes = total_bytes (entry_line_bytes codec) entries in
      let since = risk_since source spool.at_risk in
      let is_full = leb spool.limit_bytes bytes in
      record {
        source = source;
        events = length entries;
        bytes = bytes;
        limit_bytes = spool.limit_bytes;
        oldest_at = oldest_of entries none;
        dropped = count_of source spool.dropped;
        at_risk = not (is_none since) || is_full;
        at_risk_since = elim since [
          | some t ↦ some t
          | none ↦ if is_full then some (now - loss_warning_grace) else none
        ];
        now = now;
      }

  -- State, and `stateLocked`, which is the same.
  unfoldable pub state : Instant → String → Spool → SpoolError ⊎ SpoolState
  unfolding read_entries state_of
  state now source spool = elim (read_entries codec source spool) [
    | inl e ↦ inl e
    | inr entries ↦ inr (state_of now source spool entries)
  ]

  -- The entry of `States` for a source has the zero time.
  abbrev pub without_time : SpoolState → SpoolState
  without_time s = record s { now = 0 }

  unfoldable pub states_loop : Instant → Spool → List String → SpoolError ⊎ List SpoolState
  unfolding state
  states_loop now spool [] = inr []
  states_loop now spool (name ∷ rest) = elim (state now name spool) [
    | inl e ↦ inl e
    | inr s ↦ elim (states_loop now spool rest) [
      | inl e ↦ inl e
      | inr later ↦ inr (without_time s ∷ later)
    ]
  ]

  -- States
  unfoldable pub states : Instant → Spool → SpoolError ⊎ List SpoolState
  unfolding states_loop source_names
  states now spool = states_loop now spool (source_names spool.files)
