-- ===== src/Ingest/Spool/Buffer.antt =====
-- The operations of the spool (internal/ingest/spool.go): Append, Drain, Expire and Clear.
use Prim.Native.String.{compare}
use package.text.Mathlib.Text.{is_lt}
use traceboard.Prelude.{
  ℕ, ◌+◌, ◌-◌, String, Bool, true, false, Option, none, some, List, [], ◌∷◌, ◌⊎◌, inl, inr, ◌==◌,
  ◌&&◌, not, ltb, eqb, if◌then◌else◌, length,
}
use traceboard.Event.{Value, Instant}
use traceboard.Platform.{Platform}
use traceboard.Redact.{default_rules, apply}
use traceboard.Ingest.Spool.{
  SpoolEntry, DrainResult, SpoolError, source_required, invalid_payload, payload_encoding, Codec,
  SpoolFile, Spool, read_entries, rewrite, append_locked, file_name, remove_file,
}

unfoldable pub insert_name : String → List String → List String
insert_name s [] = s ∷ []
insert_name s (t ∷ rest) =
    let later = insert_name s rest in if is_lt (compare t s) then t ∷ later else s ∷ t ∷ rest

-- sources: the names of the spool files, sorted.
unfoldable pub source_names : List SpoolFile → List String
unfolding insert_name
source_names [] = []
source_names (f ∷ rest) = insert_name f.name (source_names rest)

module _ (platform : Platform) (spool : Spool) where
  clean_payload : Option Value → SpoolError ⊎ String
  clean_payload none = inl invalid_payload
  clean_payload (some decoded) =
      let cleaned = (apply platform.regexp platform.formats default_rules spool.rules decoded).0 in
      elim (platform.marshal cleaned) [ none ↦ inl payload_encoding | some encoded ↦ inr encoded ]

  -- The loop of `Append` that redacts the payloads; the clock stands still in it.
  unfoldable pub redact_payloads : Instant → List String → SpoolError ⊎ List SpoolEntry
  unfolding clean_payload
  redact_payloads now [] = inr []
  redact_payloads now (payload ∷ rest) = elim (clean_payload (platform.unmarshal payload)) [
    | inl e ↦ inl e
    | inr encoded ↦ elim (redact_payloads now rest) [
      | inl e ↦ inl e
      | inr entries ↦ inr (record { event = encoded; timestamp = now } ∷ entries)
    ]
  ]

module _ (codec : Codec) where
  unfoldable pub append_redacted :
      Instant → String → Spool → SpoolError ⊎ List SpoolEntry → Option SpoolError × Spool
  unfolding append_locked
  append_redacted now source spool (inl e) = (some e, spool)
  append_redacted now source spool (inr entries) = append_locked codec now source entries spool

  unfoldable pub append_payloads :
      Platform → Instant → String → List String → Spool → Option SpoolError × Spool
  unfolding redact_payloads append_redacted
  append_payloads platform now source [] spool = (none, spool)
  append_payloads platform now source (payload ∷ rest) spool =
      append_redacted now source spool (redact_payloads platform spool now (payload ∷ rest))

  -- Append
  unfoldable pub append :
      Platform → Instant → String → List String → Spool → Option SpoolError × Spool
  unfolding append_payloads
  append platform now source payloads spool =
      if codec.trim_space source == ""
      then (some source_required, spool)
      else append_payloads platform now source payloads spool

  -- The consumer takes an entry's event or refuses it, and may change its own state.
  module _ {World : Type 0} (consume : World → String → Bool × World) where
    abbrev pub keep_entry :
        SpoolEntry → DrainResult × List SpoolEntry × World → DrainResult × List SpoolEntry × World
    keep_entry e (result, kept, world) = (result, e ∷ kept, world)

    -- The loop of `Drain` over the entries of a source: the counts, and what remains.
    unfoldable pub drain_entries :
        List SpoolEntry → DrainResult → World → DrainResult × List SpoolEntry × World
    drain_entries [] result world = (result, [], world)
    drain_entries (e ∷ rest) result world = elim (consume world e.event).0 [
      | true ↦
          drain_entries rest (record result { drained = result.drained + 1 })
            (consume world e.event).1
      | false ↦ keep_entry e (
          drain_entries rest (record result { failed = result.failed + 1 })
            (consume world e.event).1)
    ]

    -- The counts, the consumer's state and the spool after a part of `Drain`.
    abbrev pub Drained : Type 0
    Drained = Option SpoolError × DrainResult × World × Spool

    unfoldable pub drain_written :
        DrainResult → List SpoolEntry → World → Option SpoolError × Spool → Drained
    drain_written result kept world (some e, spool) = (some e, result, world, spool)
    drain_written result kept world (none, spool) =
        (none, record result { remaining = result.remaining + length kept }, world, spool)

    unfoldable pub drain_read :
        String → DrainResult → World → Spool → SpoolError ⊎ List SpoolEntry → Drained
    unfolding drain_entries rewrite drain_written
    drain_read source result world spool (inl e) = (some e, result, world, spool)
    drain_read source result world spool (inr entries) =
        let (after, kept, last) = drain_entries entries result world in
        drain_written after kept last (rewrite codec source kept spool)

    -- One round of the loop of `Drain`.
    unfoldable pub drain_source : String → DrainResult → World → Spool → Drained
    unfolding read_entries drain_read
    drain_source source result world spool =
        drain_read source result world spool (read_entries codec source spool)

    unfoldable pub drain_next : (DrainResult → World → Spool → Drained) → Drained → Drained
    drain_next again (some e, result, world, spool) = (some e, result, world, spool)
    drain_next again (none, result, world, spool) = again result world spool

    unfoldable pub drain_loop : List String → DrainResult → World → Spool → Drained
    unfolding drain_source drain_next
    drain_loop [] result world spool = (none, result, world, spool)
    drain_loop (source ∷ rest) result world spool =
        drain_next (drain_loop rest) (drain_source source result world spool)

    -- Drain
    unfoldable pub drain : World → Spool → Option SpoolError × DrainResult × World × Spool
    unfolding source_names drain_loop
    drain world spool =
        drain_loop (source_names spool.files) (record { drained = 0; failed = 0; remaining = 0 })
          world spool

  unfoldable pub keep_fresh : Instant → List SpoolEntry → List SpoolEntry
  keep_fresh cutoff [] = []
  keep_fresh cutoff (e ∷ rest) =
      let later = keep_fresh cutoff rest in if ltb e.timestamp cutoff then later else e ∷ later

  unfoldable pub rewrite_changed :
      Bool → String → List SpoolEntry → ℕ → Spool → Option SpoolError × ℕ × Spool
  unfolding rewrite
  rewrite_changed true source kept removed spool =
      let (error, after) = rewrite codec source kept spool in (error, removed, after)
  rewrite_changed false source kept removed spool = (none, removed, spool)

  unfoldable pub expire_read :
      Instant → String → ℕ → Spool → SpoolError ⊎ List SpoolEntry → Option SpoolError × ℕ × Spool
  unfolding keep_fresh rewrite_changed
  expire_read cutoff source removed spool (inl e) = (some e, removed, spool)
  expire_read cutoff source removed spool (inr entries) =
      let kept = keep_fresh cutoff entries in
      let removed' = removed + (length entries - length kept) in
      let changed = ltb 0 removed' && not (eqb (length kept) (length entries)) in
      rewrite_changed changed source kept removed' spool

  -- One round of the loop of `Expire`: the count so far, and the spool.
  unfoldable pub expire_source : Instant → String → ℕ → Spool → Option SpoolError × ℕ × Spool
  unfolding read_entries expire_read
  expire_source cutoff source removed spool =
      expire_read cutoff source removed spool (read_entries codec source spool)

  unfoldable pub expire_next :
      (ℕ → Spool → Option SpoolError × ℕ × Spool)
      → Option SpoolError × ℕ × Spool
      → Option SpoolError × ℕ × Spool
  expire_next again (some e, removed, spool) = (some e, removed, spool)
  expire_next again (none, removed, spool) = again removed spool

  unfoldable pub expire_loop : Instant → List String → ℕ → Spool → Option SpoolError × ℕ × Spool
  unfolding expire_source expire_next
  expire_loop cutoff [] removed spool = (none, removed, spool)
  expire_loop cutoff (source ∷ rest) removed spool =
      expire_next (expire_loop cutoff rest) (expire_source cutoff source removed spool)

  -- Expire
  unfoldable pub expire : Instant → Spool → Option SpoolError × ℕ × Spool
  unfolding source_names expire_loop
  expire now spool = expire_loop (now - spool.max_age) (source_names spool.files) 0 spool

  unfoldable pub clear_file : Spool → SpoolError ⊎ String → Option SpoolError × Spool
  unfolding remove_file
  clear_file spool (inl e) = (some e, spool)
  clear_file spool (inr name) = (none, record spool { files = remove_file name spool.files })

  -- Clear
  unfoldable pub clear : String → Spool → Option SpoolError × Spool
  unfolding file_name clear_file
  clear source spool = clear_file spool (file_name codec source)
