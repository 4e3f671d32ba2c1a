-- ===== src/Ingest/Spool/Bounded.antt =====
-- The size of the spool files (internal/ingest/spool.go) through every history of the spool.
use traceboard.Prelude.{
  ℕ, ◌≤◌, String, Option, none, some, List, [], ◌∷◌, ◌++◌, ◌⊎◌, inl, inr, ◌==◌, ◌≡◌, refl, arith,
  eqb, All, All-delete, Bool-cases,
}
use traceboard.Event.{Instant}
use traceboard.Platform.{Platform}
use traceboard.Ingest.Spool.{
  SpoolEntry, SpoolError, Codec, SpoolFile, Spool, encode_lines, file_name, rewrite, rewrite_as,
  write_entries, written, append_to, entry_line_bytes, total_bytes, drop_excess, install,
  remove_file, append_locked, store_combined, record_loss,
}
use traceboard.Ingest.Spool.Buffer.{append, append_payloads, append_redacted}
use traceboard.Ingest.Spool.Lines.{file_bytes, drop_excess_lem, file_bytes-encode_lines}

module _ (codec : Codec) where
  -- A file holds what `rewrite` makes of some entries, and is within the limit.
  abbrev pub IsWithin : ℕ → SpoolFile → Type 0
  IsWithin limit f =
      (entries : List SpoolEntry) × (encode_lines codec entries ≡ some f.lines)
      × (file_bytes f.lines ≤ limit)

  abbrev pub IsBounded : Spool → Type 0
  IsBounded spool = All (IsWithin spool.limit_bytes) spool.files

  remove-IsBounded :
      (limit : ℕ) (name : String) (files : List SpoolFile)
      → All (IsWithin limit) files
      → All (IsWithin limit) (remove_file name files)
  unfolding remove_file
  remove-IsBounded limit name files h = All-delete (IsWithin limit) _ files h

  written-IsBounded :
      (name : String) (entries : List SpoolEntry) (spool : Spool) (made : Option (List String))
      → encode_lines codec entries ≡ made
      → total_bytes (entry_line_bytes codec) entries ≤ spool.limit_bytes
      → IsBounded spool
      → IsBounded (written codec name spool made).1
  unfolding written install
  written-IsBounded name entries spool none e fits h = h
  written-IsBounded name entries spool (some lines) e fits h = (
    (entries, e, omega (arith, file_bytes-encode_lines codec entries lines e, fits)),
    All-delete (IsWithin spool.limit_bytes) _ spool.files h,
  )

  write_entries-IsBounded :
      (name : String) (entries : List SpoolEntry) (spool : Spool)
      → total_bytes (entry_line_bytes codec) entries ≤ spool.limit_bytes
      → IsBounded spool
      → IsBounded (write_entries codec name entries spool).1
  unfolding write_entries
  write_entries-IsBounded name [] spool fits h = remove-IsBounded _ name spool.files h
  write_entries-IsBounded name (e ∷ rest) spool fits h =
      written-IsBounded name (e ∷ rest) spool (encode_lines codec (e ∷ rest)) refl fits h

  rewrite_as-IsBounded :
      (entries : List SpoolEntry) (spool : Spool) (name : SpoolError ⊎ String)
      → total_bytes (entry_line_bytes codec) entries ≤ spool.limit_bytes
      → IsBounded spool
      → IsBounded (rewrite_as codec entries spool name).1
  unfolding rewrite_as
  rewrite_as-IsBounded entries spool (inl e) fits h = h
  rewrite_as-IsBounded entries spool (inr name) fits h =
      write_entries-IsBounded name entries spool fits h

  pub rewrite-IsBounded :
      (source : String) (entries : List SpoolEntry) (spool : Spool)
      → total_bytes (entry_line_bytes codec) entries ≤ spool.limit_bytes
      → IsBounded spool
      → IsBounded (rewrite codec source entries spool).1
  unfolding rewrite
  rewrite-IsBounded source entries spool fits h =
      rewrite_as-IsBounded entries spool (file_name codec source) fits h

  record_loss-IsBounded :
      (now : Instant) (source : String) (n : ℕ) (spool : Spool)
      → IsBounded spool
      → IsBounded (record_loss now source n spool)
        × ((record_loss now source n spool).limit_bytes ≡ spool.limit_bytes)
  unfolding record_loss
  record_loss-IsBounded now source n spool h = elim (Bool-cases (eqb n 0)) [
    | inl nothing ↦ rw nothing (h, refl)
    | inr loss ↦ rw loss (h, refl)
  ]

  -- Whatever is appended, every file stays within the limit.
  append_to-IsBounded :
      (now : Instant) (source : String) (entries : List SpoolEntry) (spool : Spool)
      (read : SpoolError ⊎ List SpoolEntry)
      → IsBounded spool
      → IsBounded (append_to codec now source entries spool read).1
  unfolding append_to store_combined
  append_to-IsBounded now source entries spool (inl e) h = h
  append_to-IsBounded now source entries spool (inr existing) h =
      let combined = existing ++ entries in
      let size = entry_line_bytes codec in
      let total = total_bytes size combined in
      let kept = drop_excess_lem size spool.limit_bytes total combined refl in
      let lost =
        record_loss-IsBounded now source (drop_excess size spool.limit_bytes total combined).0 spool
          h in
      rewrite-IsBounded source _ _ (omega (arith, kept.1, lost.1)) lost.0

  append_redacted-IsBounded :
      (now : Instant) (source : String) (spool : Spool) (entries : SpoolError ⊎ List SpoolEntry)
      → IsBounded spool
      → IsBounded (append_redacted codec now source spool entries).1
  unfolding append_redacted append_locked
  append_redacted-IsBounded now source spool (inl e) h = h
  append_redacted-IsBounded now source spool (inr entries) h =
      append_to-IsBounded now source entries spool _ h

  append_payloads-IsBounded :
      (platform : Platform) (now : Instant) (source : String) (payloads : List String)
      (spool : Spool)
      → IsBounded spool
      → IsBounded (append_payloads codec platform now source payloads spool).1
  unfolding append_payloads
  append_payloads-IsBounded platform now source [] spool h = h
  append_payloads-IsBounded platform now source (payload ∷ rest) spool h =
      append_redacted-IsBounded now source spool _ h

  -- `Append` keeps every file within the limit.
  pub append-IsBounded :
      (platform : Platform) (now : Instant) (source : String) (payloads : List String)
      (spool : Spool)
      → IsBounded spool
      → IsBounded (append codec platform now source payloads spool).1
  unfolding append
  append-IsBounded platform now source payloads spool h =
      elim (Bool-cases (codec.trim_space source == "")) [
        | inl blank ↦ rw blank h
        | inr named ↦ rw named (append_payloads-IsBounded platform now source payloads spool h)
      ]
