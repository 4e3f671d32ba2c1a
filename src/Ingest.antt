-- ===== src/Ingest.antt =====
-- internal/ingest/service.go: capture modes, identifiers, redaction and bounds of incoming events,
-- and the batch that goes to the store.
pub mod Setup
pub mod Prepare
pub mod Modes
pub mod Kept
pub mod Spool
pub mod Counts
pub mod Signals
use traceboard.Prelude.{
  ℕ, zero, suc, ◌+◌, ◌-◌, String, Bool, true, false, Option, none, some, List, [], ◌∷◌, ◌==◌, ◌||◌,
  ltb, eqb, length, take, if◌then◌else◌,
}
use traceboard.Event.{Event, Instant}
use traceboard.Event.EventType.{contains_text}
use traceboard.Platform.{Platform}
use traceboard.Store.{Db, Result, ok, err}
use traceboard.Store.Insert.{InsertResult, insert_events}
use traceboard.Ingest.Setup.{Service, Tools}
use traceboard.Ingest.Prepare.{prepare}

-- Result
pub record IngestResult : Type 0 where
  pub accepted : ℕ
  pub duplicate : ℕ
  pub quarantined : ℕ
  pub dropped : ℕ

abbrev pub nothing : IngestResult
nothing = record { accepted = 0; duplicate = 0; quarantined = 0; dropped = 0 }

-- The events that `prepare` keeps, the number that it drops, and the runs that they touch.
pub record PreparedBatch : Type 0 where
  pub events : List Event
  pub dropped : ℕ
  pub touched : List String

unfoldable pub add_touched : String → List String → List String
unfolding contains_text
add_touched run runs = if contains_text run runs then runs else run ∷ runs

unfoldable pub add_prepared : Option Event → PreparedBatch → PreparedBatch
add_prepared none b = record b { dropped = b.dropped + 1 }
add_prepared (some e) b = record b {
  events = e ∷ b.events;
  touched = add_touched e.run_id b.touched;
}

module _ (platform : Platform) (tools : Tools) (service : Service) where
  -- The loop of `Ingest` over the batch. The n-th event reads the service's clock at `clock n`.
  unfoldable pub prepare_batch : (ℕ → Instant) → ℕ → List Event → PreparedBatch
  prepare_batch clock n [] = record { events = []; dropped = 0; touched = [] }
  prepare_batch clock n (input ∷ rest) =
      add_prepared (prepare platform tools service (clock n) input)
        (prepare_batch clock (n + 1) rest)

  -- The result of the batch from the answer of the store, with the runs that are announced.
  unfoldable pub report : ℕ → PreparedBatch → Result InsertResult → IngestResult × List String
  report dropped b (ok r) = (
    record {
      accepted = r.accepted;
      duplicate = r.duplicate;
      quarantined = r.quarantined;
      dropped = dropped + b.dropped;
    },
    b.touched,
  )
  report dropped b (err e) =
      (record nothing { quarantined = length b.events; dropped = dropped + b.dropped }, [])

  -- The store call, which is left out for an empty batch.
  unfoldable pub store_batch :
      (ℕ → Instant) → ℕ → PreparedBatch → List Event → Db → (IngestResult × List String) × Db
  store_batch clock dropped b [] db = ((record nothing { dropped = dropped + b.dropped }, []), db)
  store_batch clock dropped b (e ∷ rest) db =
      let (answer, after) = insert_events platform clock (e ∷ rest) db in
      (report dropped b answer, after)

  -- Ingest, with the service's clock and the store's.
  unfoldable pub ingest :
      (ℕ → Instant) → (ℕ → Instant) → List Event → Db → (IngestResult × List String) × Db
  ingest clock store_clock batch db =
      let limit = service.limits.max_events_per_batch in
      let dropped = length batch - limit in
      let b = prepare_batch clock 0 (take limit batch) in
      store_batch store_clock dropped b b.events db
