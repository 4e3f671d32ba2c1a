-- ===== src/Ingest/Spool/Reading.antt =====
-- What the spool (internal/ingest/spool.go) reads back after it has written, and what `Drain` counts.
use traceboard.Prelude.{
  ℕ, ◌+◌, ◌-◌, ◌≤◌, ◌<◌, String, Bool, false, Option, none, some, List, [], ◌∷◌, ◌++◌, ◌⊎◌, inl,
  inr, ◌==◌, ◌≡◌, refl, sym, subst, arith, eq_refl, length, drop, Bool-cases, exists_row,
  delete_rows,
}
use traceboard.Event.{Instant}
use traceboard.Ingest.Spool.{
  SpoolEntry, SpoolError, DrainResult, Codec, SpoolFile, Spool, read_lines, read_file, encode_lines,
  lines_of, read_entries, file_name, rewrite, rewrite_as, write_entries, written, entry_line_bytes,
  total_bytes, is_long_line, remove_file, install, append_locked, append_to, store_combined,
  drop_excess, record_loss, line_too_long,
}
use traceboard.Ingest.Spool.Buffer.{drain_source, drain_read, drain_written}
use traceboard.Ingest.Spool.Lines.{entries_of-encode_lines, drop_excess_lem, drop_excess_needed}
use traceboard.Ingest.Spool.Shrinking.{drain_entries-total}

lines_of-remove :
    (name : String) (files : List SpoolFile) → lines_of name (remove_file name files) ≡ []
unfolding lines_of remove_file delete_rows
lines_of-remove name [] = refl
lines_of-remove name (f ∷ rest) = elim (Bool-cases (f.name == name)) [
  | inl found ↦ rw found (lines_of-remove name rest)
  | inr other ↦ rw other (rw other (lines_of-remove name rest))
]

lines_of-install :
    (name : String) (lines : List String) (files : List SpoolFile)
    → lines_of name (install name lines files) ≡ lines
unfolding lines_of install
lines_of-install name lines files = ground (arith, eq_refl name)

module _ (codec : Codec) where
  -- The file of this name holds these entries.
  abbrev pub Holds : String → List SpoolEntry → Spool → Type 0
  Holds name entries spool =
      (lines : List String) × (encode_lines codec entries ≡ some lines)
      × (lines_of name spool.files ≡ lines)

  written-Holds :
      (name : String) (entries : List SpoolEntry) (spool : Spool) (made : Option (List String))
      → encode_lines codec entries ≡ made
      → (written codec name spool made).0 ≡ none
      → Holds name entries (written codec name spool made).1
  unfolding written
  written-Holds name entries spool none q r = absurd (cc)
  written-Holds name entries spool (some lines) q r =
      (lines, q, lines_of-install name lines spool.files)

  write_entries-Holds :
      (name : String) (entries : List SpoolEntry) (spool : Spool)
      → (write_entries codec name entries spool).0 ≡ none
      → Holds name entries (write_entries codec name entries spool).1
  unfolding write_entries encode_lines
  write_entries-Holds name [] spool r = ([], refl, lines_of-remove name spool.files)
  write_entries-Holds name (e ∷ rest) spool r =
      written-Holds name (e ∷ rest) spool (encode_lines codec (e ∷ rest)) refl r

  rewrite_as-Holds :
      (named : SpoolError ⊎ String) (entries : List SpoolEntry) (spool : Spool)
      → (rewrite_as codec entries spool named).0 ≡ none
      → (name : String) × (named ≡ inr name)
        × Holds name entries (rewrite_as codec entries spool named).1
  unfolding rewrite_as
  rewrite_as-Holds (inl e) entries spool r = absurd (cc)
  rewrite_as-Holds (inr name) entries spool r =
      (name, refl, write_entries-Holds name entries spool r)

  -- What a successful `rewrite` leaves in the file are the encoded entries.
  pub rewrite-Holds :
      (source : String) (entries : List SpoolEntry) (spool : Spool)
      → (rewrite codec source entries spool).0 ≡ none
      → (name : String) × (file_name codec source ≡ inr name)
        × Holds name entries (rewrite codec source entries spool).1
  unfolding rewrite
  rewrite-Holds source entries spool r = rewrite_as-Holds (file_name codec source) entries spool r

  -- `after` reads as the newest of these entries, as many as the limit of `spool` allows.
  abbrev pub Newest : String → List SpoolEntry → Spool → Spool → Type 0
  Newest source combined spool after =
      (n : ℕ) × ((read_entries codec source after ≡ inr (drop n combined))
        ⊎ (read_entries codec source after ≡ inl line_too_long))
      × (total_bytes (entry_line_bytes codec) (drop n combined) ≤ spool.limit_bytes)
      × ((n ≡ 0)
          ⊎ (spool.limit_bytes < total_bytes (entry_line_bytes codec) (drop (n - 1) combined)))

  module _
      (decode-encode : (e : SpoolEntry) (line : String)
        → codec.encode e ≡ some line
        → (codec.trim_space line ≡ line)
          × ((line == "") ≡ false)
          × (codec.decode line ≡ some e)) where
    rewrite-read :
        (source : String) (entries : List SpoolEntry) (spool : Spool)
        → (rewrite codec source entries spool).0 ≡ none
        → (read_entries codec source (rewrite codec source entries spool).1 ≡ inr entries)
          ⊎ (read_entries codec source (rewrite codec source entries spool).1 ≡ inl line_too_long)
    unfolding read_entries read_file read_lines
    rewrite-read source entries spool r =
        let (name, known, (lines, made, held)) = rewrite-Holds source entries spool r in
        let back = entries_of-encode_lines codec decode-encode entries lines made in
        elim (Bool-cases (exists_row is_long_line lines)) [
          | inl long ↦ inr (rw (known, held, long) refl)
          | inr short ↦ inl (rw (known, held, short, back) refl)
        ]

    store_combined-Newest :
        (now : Instant) (source : String) (combined : List SpoolEntry) (spool : Spool)
        → (store_combined codec now source combined spool).0 ≡ none
        → Newest source combined spool (store_combined codec now source combined spool).1
    unfolding store_combined
    store_combined-Newest now source combined spool r =
        let size = entry_line_bytes codec in
        let total = total_bytes size combined in
        let cut = drop_excess size spool.limit_bytes total combined in
        let (newest, fits) = drop_excess_lem size spool.limit_bytes total combined refl in
        let after = record_loss now source cut.0 spool in
        (
          cut.0,
          subst
              (λ es.
                (read_entries codec source (rewrite codec source cut.1 after).1 ≡ inr es)
                ⊎ (read_entries codec source (rewrite codec source cut.1 after).1
                    ≡ inl line_too_long))
              newest (rewrite-read source cut.1 after r),
          subst (λ es. total_bytes size es ≤ spool.limit_bytes) newest fits,
          drop_excess_needed size spool.limit_bytes total combined refl,
        )

    -- A successful append keeps the newest entries: where the spool of a source could be read, what
    -- is read afterwards are the old entries and then the new ones without some of the oldest, which
    -- fit the limit and would not fit it with one more; or it is an error, where a line is too long
    -- to be read.
    pub append_locked-Newest :
        (now : Instant) (source : String) (existing entries : List SpoolEntry) (spool : Spool)
        → read_entries codec source spool ≡ inr existing
        → (append_locked codec now source entries spool).0 ≡ none
        → Newest source (existing ++ entries) spool (append_locked codec now source entries spool).1
    unfolding append_locked append_to
    append_locked-Newest now source existing entries spool q r =
        let done : (store_combined codec now source (existing ++ entries) spool).0 ≡ none =
          subst (λ read. (append_to codec now source entries spool read).0 ≡ none) q r in
        subst
          (λ read.
            Newest source (existing ++ entries) spool
              (append_to codec now source entries spool read).1)
          (sym q) (store_combined-Newest now source (existing ++ entries) spool done)

  module _ {World : Type 0} (consume : World → String → Bool × World) where
    drain_written_counts :
        (result : DrainResult) (kept : List SpoolEntry) (world : World)
        (wrote : Option SpoolError × Spool)
        → (drain_written codec consume result kept world wrote).0 ≡ none
        → ((drain_written codec consume result kept world wrote).1.drained ≡ result.drained)
          × ((drain_written codec consume result kept world wrote).1.failed ≡ result.failed)
          × ((drain_written codec consume result kept world wrote).1.remaining
              ≡ result.remaining + length kept)
    unfolding drain_written
    drain_written_counts result kept world (some e, spool) r = absurd (cc)
    drain_written_counts result kept world (none, spool) r = (refl, refl, refl)

    drain_read_counts :
        (source : String) (result : DrainResult) (world : World) (spool : Spool)
        (entries : List SpoolEntry)
        → (drain_read codec consume source result world spool (inr entries)).0 ≡ none
        → ((drain_read codec consume source result world spool (inr entries)).1.drained
              + (drain_read codec consume source result world spool (inr entries)).1.remaining
            ≡ result.drained + result.remaining + length entries)
          × ((drain_read codec consume source result world spool (inr entries)).1.failed
                + result.remaining
              ≡ result.failed
                + (drain_read codec consume source result world spool (inr entries)).1.remaining)
    unfolding drain_read
    drain_read_counts source result world spool entries r =
        let counts =
          drain_entries-total codec consume (entry_line_bytes codec) entries result world in
        let wrote = drain_written_counts _ _ _ _ r in
        (
          omega (arith, counts.1, counts.3, wrote.0, wrote.2),
          omega (arith, counts.2, counts.3, wrote.1, wrote.2),
        )

    -- `Drain` counts every entry of a source that it reads once, as drained or as remaining, and those
    -- that remain as failed, when it comes through the source without an error.
    pub drain_source_counts :
        (source : String) (result : DrainResult) (world : World) (spool : Spool)
        (entries : List SpoolEntry)
        → read_entries codec source spool ≡ inr entries
        → (drain_source codec consume source result world spool).0 ≡ none
        → ((drain_source codec consume source result world spool).1.drained
              + (drain_source codec consume source result world spool).1.remaining
            ≡ result.drained + result.remaining + length entries)
          × ((drain_source codec consume source result world spool).1.failed + result.remaining
              ≡ result.failed + (drain_source codec consume source result world spool).1.remaining)
    unfolding drain_source
    drain_source_counts source result world spool entries q r = rw q (
        drain_read_counts source result world spool entries
          (subst (λ read. (drain_read codec consume source result world spool read).0 ≡ none) q r))
