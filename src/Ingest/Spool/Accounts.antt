-- ===== src/Ingest/Spool/Accounts.antt =====
-- The counts of a whole `Drain` (internal/ingest/spool.go).
use traceboard.Prelude.{
  String, Bool, none, some, List, [], ◌∷◌, ◌⊎◌, inl, inr, ◌≡◌, refl, subst, arith,
}
use traceboard.Ingest.Spool.{SpoolEntry, SpoolError, DrainResult, Codec, Spool, read_entries}
use traceboard.Ingest.Spool.Buffer.{
  Drained, drain, drain_loop, drain_next, drain_source, drain_read,
}
use traceboard.Ingest.Spool.Reading.{drain_source_counts}

module _ {World : Type 0} (codec : Codec) (consume : World → String → Bool × World) where
  -- As many entries remain as failed.
  IsBalanced : DrainResult → Type 0
  IsBalanced result = result.remaining ≡ result.failed

  drain_source-IsBalanced :
      (source : String) (result : DrainResult) (world : World) (spool : Spool)
      → IsBalanced result
      → (drain_source codec consume source result world spool).0 ≡ none
      → IsBalanced (drain_source codec consume source result world spool).1
  unfolding IsBalanced drain_source drain_read
  drain_source-IsBalanced source result world spool h r =
      split (read_entries codec source spool) refl
    where
      failing :
          (e : SpoolError)
          → (drain_read codec consume source result world spool (inl e)).0 ≡ none
          → ⊥
      failing e q = cc

      split :
          (read : SpoolError ⊎ List SpoolEntry)
          → read_entries codec source spool ≡ read
          → (drain_source codec consume source result world spool).1.remaining
            ≡ (drain_source codec consume source result world spool).1.failed
      split (inl e) q = absurd (
          failing e (
            subst (λ read. (drain_read codec consume source result world spool read).0 ≡ none) q r))
      split (inr entries) q =
          let counts = drain_source_counts codec consume source result world spool entries q r in
          omega (arith, counts.1, h)

  drain_next-IsBalanced :
      (again : DrainResult → World → Spool → Drained codec consume) (step : Drained codec consume)
      → (step.0 ≡ none → IsBalanced step.1)
      → ((result : DrainResult) (world : World) (spool : Spool)
          → IsBalanced result
          → (again result world spool).0 ≡ none
          → IsBalanced (again result world spool).1)
      → (drain_next codec consume again step).0 ≡ none
      → IsBalanced (drain_next codec consume again step).1
  unfolding drain_next
  drain_next-IsBalanced again (some e, result, world, spool) h f r = absurd (cc)
  drain_next-IsBalanced again (none, result, world, spool) h f r = f result world spool (h refl) r

  drain_loop-IsBalanced :
      (names : List String) (result : DrainResult) (world : World) (spool : Spool)
      → IsBalanced result
      → (drain_loop codec consume names result world spool).0 ≡ none
      → IsBalanced (drain_loop codec consume names result world spool).1
  unfolding drain_loop
  drain_loop-IsBalanced [] result world spool h r = h
  drain_loop-IsBalanced (source ∷ rest) result world spool h r =
      drain_next-IsBalanced (drain_loop codec consume rest) _
        (drain_source-IsBalanced source result world spool h) (drain_loop-IsBalanced rest) r

  -- When `Drain` ends without an error, whatever the files and the consumer, it reports as many
  -- remaining entries as failed ones.
  pub drain_balance :
      (world : World) (spool : Spool)
      → (drain codec consume world spool).0 ≡ none
      → (drain codec consume world spool).1.remaining ≡ (drain codec consume world spool).1.failed
  unfolding drain IsBalanced
  drain_balance world spool r = drain_loop-IsBalanced _ _ world spool refl r
