-- ===== src/Ingest/Spool/Losses.antt =====
-- What `States` reports of a loss that `appendLocked` counts (internal/ingest/spool.go).
use traceboard.Prelude.{ℕ, String, false, List, ◌⊎◌, inl, inr, ◌==◌, ◌≡◌, All}
use traceboard.Ingest.Spool.{
  SpoolEntry, SpoolError, SpoolFile, Codec, Spool, entry_line_bytes, total_bytes, count_of,
  drop_excess,
}
use traceboard.Ingest.Spool.Reports.{SpoolState}

-- No file has the name that the source gave itself.
abbrev pub HasNoFile : String → List SpoolFile → Type 0
HasNoFile source files = All (λ f. (SpoolFile.name f == source) ≡ false) files

abbrev IsOther : String → String → Type 0
IsOther source name = (name == source) ≡ false

module _ (codec : Codec) where
  -- The number of entries that an append to these drops.
  abbrev pub lost : Spool → List SpoolEntry → ℕ
  lost spool combined =
      let (n, kept) =
        drop_excess (entry_line_bytes codec) spool.limit_bytes
          (total_bytes (entry_line_bytes codec) combined) combined in
      n

  kept : Spool → List SpoolEntry → List SpoolEntry
  kept spool combined =
      let (n, rest) =
        drop_excess (entry_line_bytes codec) spool.limit_bytes
          (total_bytes (entry_line_bytes codec) combined) combined in
      rest

  -- The account of a state for a name that is not the source's own.
  abbrev IsAccount : String → Spool → SpoolState → Type 0
  IsAccount source spool s = (s.dropped ≡ count_of s.source spool.dropped) × IsOther source s.source

  AllAccounts : String → Spool → SpoolError ⊎ List SpoolState → Type 0
  AllAccounts source spool (inl e) = Unit
  AllAccounts source spool (inr reported) = All (IsAccount source spool) reported

  OneAccount : String → Spool → SpoolError ⊎ SpoolState → Type 0
  OneAccount source spool (inl e) = Unit
  OneAccount source spool (inr s) = IsAccount source spool s
