-- ===== src/Ingest/Spool/Blocking.antt =====
-- A spool file of internal/ingest/spool.go with a line that the scanner of `readEntries` cannot hold.
use Prim.Native.String.{len}
use traceboard.Prelude.{
  ℕ, ◌≤◌, String, true, none, some, List, [], ◌∷◌, ◌++◌, inl, inr, ◌≡◌, refl, sym, subst, ap, arith,
  exists_row, le→ltb,
}
use traceboard.Event.{Instant}
use traceboard.Ingest.Spool.{
  SpoolEntry, Codec, Spool, read_lines, read_file, encode_lines, read_entries, rewrite,
  entry_line_bytes, total_bytes, is_long_line, append_locked, append_to, store_combined,
  drop_excess, record_loss, line_too_long, max_line_bytes,
}
use traceboard.Ingest.Spool.Lines.{encode_cons}
use traceboard.Ingest.Spool.Reading.{rewrite-Holds}

drop_excess_nothing :
    (size : SpoolEntry → ℕ) (limit total : ℕ) (entries : List SpoolEntry)
    → total ≤ limit
    → drop_excess size limit total entries ≡ (0, entries)
unfolding drop_excess
drop_excess_nothing size limit total [] h = refl
drop_excess_nothing size limit total (e ∷ rest) h = rw (le→ltb limit total h) refl

module _ (codec : Codec) where
  long_line_last :
      (entries : List SpoolEntry) (e : SpoolEntry) (line : String) (lines : List String)
      → encode_lines codec (entries ++ (e ∷ [])) ≡ some lines
      → codec.encode e ≡ some line
      → max_line_bytes ≤ len line
      → exists_row is_long_line lines ≡ true
  unfolding exists_row
  long_line_last [] e line lines h made long =
      let (line', later, p, q, same) = encode_cons codec e [] lines h in
      let one : line' ≡ line = ground (arith, p, made) in rw (same, one) (ground (arith, long))
  long_line_last (d ∷ rest) e line lines h made long =
      let (line', later, p, q, same) = encode_cons codec d (rest ++ (e ∷ [])) lines h in
      rw same (ground (arith, long_line_last rest e line later q made long))

  stored_long_line :
      (source : String) (existing : List SpoolEntry) (e : SpoolEntry) (line : String)
      (spool : Spool)
      → (rewrite codec source (existing ++ (e ∷ [])) spool).0 ≡ none
      → codec.encode e ≡ some line
      → max_line_bytes ≤ len line
      → read_entries codec source (rewrite codec source (existing ++ (e ∷ [])) spool).1
        ≡ inl line_too_long
  unfolding read_entries read_file read_lines
  stored_long_line source existing e line spool r made long =
      let (name, known, (lines, encoded, held)) =
        rewrite-Holds codec source (existing ++ (e ∷ [])) spool r in
      rw (known, held, long_line_last existing e line lines encoded made long) refl

  combined_long_line :
      (now : Instant) (source : String) (existing : List SpoolEntry) (e : SpoolEntry)
      (line : String) (spool : Spool)
      → total_bytes (entry_line_bytes codec) (existing ++ (e ∷ [])) ≤ spool.limit_bytes
      → (store_combined codec now source (existing ++ (e ∷ [])) spool).0 ≡ none
      → codec.encode e ≡ some line
      → max_line_bytes ≤ len line
      → read_entries codec source (store_combined codec now source (existing ++ (e ∷ [])) spool).1
        ≡ inl line_too_long
  unfolding store_combined
  combined_long_line now source existing e line spool fits r made long =
      let size = entry_line_bytes codec in
      let all = existing ++ (e ∷ []) in
      let cut = drop_excess_nothing size spool.limit_bytes (total_bytes size all) all fits in
      let after : ℕ × List SpoolEntry → Spool = λ c. record_loss now source c.0 spool in
      subst
        (λ c. read_entries codec source (rewrite codec source c.1 (after c)).1 ≡ inl line_too_long)
        (sym cut)
        (stored_long_line source existing e line (after (0, all))
          (subst (λ c. (rewrite codec source c.1 (after c)).0 ≡ none) cut r) made long)

  -- One line of a mebibyte or more blocks a source's spool: if an append has stored an entry whose line
  -- is that long, where the spool could be read and everything fitted its limit, then every later
  -- append of that source fails with the error of the scanner and leaves the spool as it is.
  pub long_line_blocks :
      (now now' : Instant) (source : String) (existing entries : List SpoolEntry) (e : SpoolEntry)
      (line : String) (spool after : Spool)
      → read_entries codec source spool ≡ inr existing
      → total_bytes (entry_line_bytes codec) (existing ++ (e ∷ [])) ≤ spool.limit_bytes
      → codec.encode e ≡ some line
      → max_line_bytes ≤ len line
      → append_locked codec now source (e ∷ []) spool ≡ (none, after)
      → append_locked codec now' source entries after ≡ (some line_too_long, after)
  unfolding append_locked append_to
  long_line_blocks now now' source existing entries e line spool after q fits made long done =
      let stored : store_combined codec now source (existing ++ (e ∷ [])) spool ≡ (none, after) =
        subst (λ read. append_to codec now source (e ∷ []) spool read ≡ (none, after)) q done in
      let blocked =
        combined_long_line now source existing e line spool fits (ap (λ r. r.0) stored) made long in
      let read : read_entries codec source after ≡ inl line_too_long =
        subst (λ r. read_entries codec source r.1 ≡ inl line_too_long) stored blocked in
      rw read refl
