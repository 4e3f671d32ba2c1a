-- ===== src/Ingest/Spool/Shrinking.antt =====
-- Drain, Expire and Clear of internal/ingest/spool.go: what they take out of the spool files.
use traceboard.Prelude.{
  ℕ, ◌+◌, ◌≤◌, String, Bool, true, false, Option, none, some, List, [], ◌∷◌, ◌⊎◌, inl, inr, ◌==◌,
  ◌≡◌, refl, sym, subst, ◌∙◌, arith, length, All, All-delete, Bool-cases, exists_row,
}
use traceboard.Event.{Instant}
use traceboard.Ingest.Spool.{
  SpoolEntry, SpoolError, DrainResult, Codec, SpoolFile, Spool, read_lines, read_file, entries_of,
  encode_lines, lines_of, read_entries, file_name, rewrite, entry_line_bytes, total_bytes,
  is_long_line, remove_file,
}
use traceboard.Ingest.Spool.Buffer.{
  drain_loop, drain_source, drain_entries, keep_entry, drain_read, drain_written, drain_next,
  Drained, expire_loop, expire_source, expire_read, rewrite_changed, expire_next, keep_fresh,
  clear_file,
}
use traceboard.Ingest.Spool.Lines.{file_bytes, file_bytes-encode_lines, entries_of-encode_lines}
use traceboard.Ingest.Spool.Bounded.{IsWithin, IsBounded, rewrite-IsBounded}

keep_fresh-total :
    (codec : Codec) (size : SpoolEntry → ℕ) (cutoff : Instant) (entries : List SpoolEntry)
    → total_bytes size (keep_fresh codec cutoff entries) ≤ total_bytes size entries
unfolding keep_fresh total_bytes
keep_fresh-total codec size cutoff [] = omega arith
keep_fresh-total codec size cutoff (e ∷ rest) =
    ground (arith, keep_fresh-total codec size cutoff rest)

module _ {World : Type 0} (codec : Codec) (consume : World → String → Bool × World) where
  pub drain_entries-taken :
      (e : SpoolEntry) (rest : List SpoolEntry) (result : DrainResult) (world : World)
      → (consume world e.event).0 ≡ true
      → drain_entries codec consume (e ∷ rest) result world
        ≡ drain_entries codec consume rest
            (record result { drained = result.drained + 1 })
            (consume world e.event).1
  unfolding drain_entries
  drain_entries-taken e rest result world q = ground (arith, q)

  drain_entries-refused :
      (e : SpoolEntry) (rest : List SpoolEntry) (result : DrainResult) (world : World)
      → (consume world e.event).0 ≡ false
      → drain_entries codec consume (e ∷ rest) result world
        ≡ keep_entry codec consume e (
            drain_entries codec consume rest
              (record result { failed = result.failed + 1 })
              (consume world e.event).1)
  unfolding drain_entries
  drain_entries-refused e rest result world q = ground (arith, q)

  -- `Drain` writes back at most what it read, and every entry that it read is counted once.
  pub drain_entries-total :
      (size : SpoolEntry → ℕ) (entries : List SpoolEntry) (result : DrainResult) (world : World)
      → (total_bytes size (drain_entries codec consume entries result world).1
          ≤ total_bytes size entries)
        × ((drain_entries codec consume entries result world).0.drained
              + length (drain_entries codec consume entries result world).1
            ≡ result.drained + length entries)
        × ((drain_entries codec consume entries result world).0.failed
            ≡ result.failed + length (drain_entries codec consume entries result world).1)
        × ((drain_entries codec consume entries result world).0.remaining ≡ result.remaining)
  unfolding total_bytes drain_entries
  drain_entries-total size [] result world = (omega arith, omega arith, omega arith, refl)
  drain_entries-total size (e ∷ rest) result world =
      let world' = (consume world e.event).1 in
      let taken =
        drain_entries-total size rest (record result { drained = result.drained + 1 }) world' in
      let kept =
        drain_entries-total size rest (record result { failed = result.failed + 1 }) world' in
      elim (Bool-cases (consume world e.event).0) [
        | inl accepted ↦
            rw (drain_entries-taken e rest result world accepted)
              (omega (arith, taken.0), omega (arith, taken.1), omega (arith, taken.2), taken.3)
        | inr refused ↦
            rw (drain_entries-refused e rest result world refused)
              (omega (arith, kept.0), omega (arith, kept.1), omega (arith, kept.2), kept.3)
      ]

module _ (codec : Codec)
    (decode-encode : (e : SpoolEntry) (line : String)
      → codec.encode e ≡ some line
      → (codec.trim_space line ≡ line)
        × ((line == "") ≡ false)
        × (codec.decode line ≡ some e)) where
  lines_of-within :
      (limit : ℕ) (name : String) (files : List SpoolFile)
      → All (IsWithin codec limit) files
      → (entries : List SpoolEntry) × (encode_lines codec entries ≡ some (lines_of name files))
        × (file_bytes (lines_of name files) ≤ limit)
  unfolding lines_of encode_lines file_bytes
  lines_of-within limit name [] h = ([], refl, omega arith)
  lines_of-within limit name (f ∷ rest) h = elim (Bool-cases (f.name == name)) [
    | inl found ↦ rw found h.0
    | inr other ↦ rw other (lines_of-within limit name rest h.1)
  ]

  read_file-total :
      (limit : ℕ) (files : List SpoolFile) (name : SpoolError ⊎ String) (entries : List SpoolEntry)
      → All (IsWithin codec limit) files
      → read_file codec files name ≡ inr entries
      → total_bytes (entry_line_bytes codec) entries ≤ limit
  unfolding read_file read_lines
  read_file-total limit files (inl e) entries h q = absurd (cc)
  read_file-total limit files (inr name) entries h q =
      let (held, made, fits) = lines_of-within limit name files h in
      elim (Bool-cases (exists_row is_long_line (lines_of name files))) [
        | inl long ↦ absurd (ground (arith, q, long))
        | inr short ↦
            let same : entries_of codec (lines_of name files) ≡ entries =
              ground (arith, q, short) in
            let back = entries_of-encode_lines codec decode-encode held _ made in
            let bytes = file_bytes-encode_lines codec held _ made in
            subst (λ es. total_bytes (entry_line_bytes codec) es ≤ limit) (sym back ∙ same)
              (omega (arith, bytes, fits))
      ]

  module _ {World : Type 0} (consume : World → String → Bool × World) where
    -- The spool after a part of `Drain`.
    unfoldable pub after_drain : Drained codec consume → Spool
    after_drain (error, result, world, spool) = spool

    drain_written-IsBounded :
        (result : DrainResult) (kept : List SpoolEntry) (world : World)
        (wrote : Option SpoolError × Spool)
        → IsBounded codec wrote.1
        → IsBounded codec (after_drain (drain_written codec consume result kept world wrote))
    unfolding drain_written after_drain
    drain_written-IsBounded result kept world (some e, spool) h = h
    drain_written-IsBounded result kept world (none, spool) h = h

    drain_read-IsBounded :
        (source : String) (result : DrainResult) (world : World) (spool : Spool)
        (read : SpoolError ⊎ List SpoolEntry)
        → read_entries codec source spool ≡ read
        → IsBounded codec spool
        → IsBounded codec (after_drain (drain_read codec consume source result world spool read))
    unfolding drain_read after_drain read_entries
    drain_read-IsBounded source result world spool (inl e) q h = h
    drain_read-IsBounded source result world spool (inr entries) q h =
        let kept =
          drain_entries-total codec consume (entry_line_bytes codec) entries result world in
        let total =
          read_file-total spool.limit_bytes spool.files (file_name codec source) entries h q in
        drain_written-IsBounded _ _ _ _
          (rewrite-IsBounded codec source _ spool (omega (arith, kept.0, total)) h)

    drain_next-IsBounded :
        (again : DrainResult → World → Spool → Drained codec consume) (step : Drained codec consume)
        → ((result : DrainResult) (world : World) (spool : Spool)
            → IsBounded codec spool
            → IsBounded codec (after_drain (again result world spool)))
        → IsBounded codec (after_drain step)
        → IsBounded codec (after_drain (drain_next codec consume again step))
    unfolding drain_next after_drain
    drain_next-IsBounded again (some e, result, world, spool) f h = h
    drain_next-IsBounded again (none, result, world, spool) f h = f result world spool h

    pub drain_loop-IsBounded :
        (names : List String) (result : DrainResult) (world : World) (spool : Spool)
        → IsBounded codec spool
        → IsBounded codec (after_drain (drain_loop codec consume names result world spool))
    unfolding drain_loop after_drain drain_source
    drain_loop-IsBounded [] result world spool h = h
    drain_loop-IsBounded (source ∷ rest) result world spool h =
        drain_next-IsBounded (drain_loop codec consume rest) _ (drain_loop-IsBounded rest)
          (drain_read-IsBounded source result world spool _ refl h)

  rewrite_changed-IsBounded :
      (changed : Bool) (source : String) (kept : List SpoolEntry) (removed : ℕ) (spool : Spool)
      → IsBounded codec spool
      → IsBounded codec (rewrite codec source kept spool).1
      → IsBounded codec (rewrite_changed codec changed source kept removed spool).2
  unfolding rewrite_changed
  rewrite_changed-IsBounded true source kept removed spool h k = k
  rewrite_changed-IsBounded false source kept removed spool h k = h

  expire_read-IsBounded :
      (cutoff : Instant) (source : String) (removed : ℕ) (spool : Spool)
      (read : SpoolError ⊎ List SpoolEntry)
      → read_entries codec source spool ≡ read
      → IsBounded codec spool
      → IsBounded codec (expire_read codec cutoff source removed spool read).2
  unfolding expire_read read_entries
  expire_read-IsBounded cutoff source removed spool (inl e) q h = h
  expire_read-IsBounded cutoff source removed spool (inr entries) q h =
      let kept = keep_fresh-total codec (entry_line_bytes codec) cutoff entries in
      let total =
        read_file-total spool.limit_bytes spool.files (file_name codec source) entries h q in
      rewrite_changed-IsBounded _ source (keep_fresh codec cutoff entries) _ spool h
        (rewrite-IsBounded codec source _ spool (omega (arith, kept, total)) h)

  expire_next-IsBounded :
      (again : ℕ → Spool → Option SpoolError × ℕ × Spool) (step : Option SpoolError × ℕ × Spool)
      → ((removed : ℕ) (spool : Spool)
          → IsBounded codec spool
          → IsBounded codec (again removed spool).2)
      → IsBounded codec step.2
      → IsBounded codec (expire_next codec again step).2
  unfolding expire_next
  expire_next-IsBounded again (some e, removed, spool) f h = h
  expire_next-IsBounded again (none, removed, spool) f h = f removed spool h

  pub expire_loop-IsBounded :
      (cutoff : Instant) (names : List String) (removed : ℕ) (spool : Spool)
      → IsBounded codec spool
      → IsBounded codec (expire_loop codec cutoff names removed spool).2
  unfolding expire_loop expire_source
  expire_loop-IsBounded cutoff [] removed spool h = h
  expire_loop-IsBounded cutoff (source ∷ rest) removed spool h =
      expire_next-IsBounded (expire_loop codec cutoff rest) _ (expire_loop-IsBounded cutoff rest)
        (expire_read-IsBounded cutoff source removed spool _ refl h)

  pub clear_file-IsBounded :
      (spool : Spool) (name : SpoolError ⊎ String)
      → IsBounded codec spool
      → IsBounded codec (clear_file codec spool name).1
  unfolding clear_file remove_file
  clear_file-IsBounded spool (inl e) h = h
  clear_file-IsBounded spool (inr name) h = All-delete _ _ spool.files h
