-- ===== src/Ingest/Counts.antt =====
-- The counts of `Ingest` (internal/ingest/service.go).
use traceboard.Prelude.{
  ℕ, ◌+◌, ◌-◌, Option, none, some, List, [], ◌∷◌, ◌≡◌, refl, sym, ap, ◌∙◌, arith, length, take,
  length-take,
}
use traceboard.Event.{Event, Instant}
use traceboard.Platform.{Platform}
use traceboard.Store.{Db, Result, ok, err}
use traceboard.Store.Insert.{InsertResult, insert_events}
use traceboard.Store.Consistent.Batches.{insert_events_total}
use traceboard.Ingest.Setup.{Service, Tools}
use traceboard.Ingest.Prepare.{prepare}
use traceboard.Ingest.{
  IngestResult, PreparedBatch, add_prepared, prepare_batch, report, store_batch, ingest,
}

abbrev pub counted : IngestResult → ℕ
counted r = r.accepted + r.duplicate + r.quarantined + r.dropped

module _ (platform : Platform) (tools : Tools) (service : Service) where
  add_prepared_total :
      (prepared : Option Event) (b : PreparedBatch)
      → length (add_prepared prepared b).events + (add_prepared prepared b).dropped
        ≡ (length b.events + b.dropped) + 1
  unfolding add_prepared
  add_prepared_total none b = omega arith
  add_prepared_total (some e) b = omega arith

  prepare_batch_total :
      (clock : ℕ → Instant) (n : ℕ) (batch : List Event)
      → length (prepare_batch platform tools service clock n batch).events
          + (prepare_batch platform tools service clock n batch).dropped
        ≡ length batch
  unfolding prepare_batch
  prepare_batch_total clock n [] = refl
  prepare_batch_total clock n (input ∷ rest) = omega (
    arith,
    add_prepared_total (prepare platform tools service (clock n) input)
        (prepare_batch platform tools service clock (n + 1) rest),
    prepare_batch_total clock (n + 1) rest,
  )

  report_total :
      (dropped : ℕ) (b : PreparedBatch) (answer : Result InsertResult)
      → ((r : InsertResult)
          → answer ≡ ok r
          → r.accepted + r.duplicate + r.quarantined ≡ length b.events)
      → counted (report platform tools service dropped b answer).0
        ≡ dropped + b.dropped + length b.events
  unfolding report
  report_total dropped b (ok r) h = omega (arith, h r refl)
  report_total dropped b (err e) h = omega arith

  store_batch_total :
      (clock : ℕ → Instant) (dropped : ℕ) (b : PreparedBatch) (events : List Event) (db : Db)
      → events ≡ b.events
      → counted (store_batch platform tools service clock dropped b events db).0.0
        ≡ dropped + b.dropped + length b.events
  unfolding store_batch
  store_batch_total clock dropped b [] db h =
      let none_left : length b.events ≡ 0 = ap length (sym h) in omega (arith, none_left)
  store_batch_total clock dropped b (e ∷ rest) db h =
      report_total dropped b (insert_events platform clock (e ∷ rest) db).0
        (λ r q. insert_events_total platform clock (e ∷ rest) db r q ∙ ap length h)

  -- Every event of a batch is counted exactly once by `Ingest`, be it longer than the limit, and
  -- whether the store succeeds or fails: accepted, duplicate, quarantined and dropped add up to
  -- the length of the batch.
  pub ingest_total :
      (clock store_clock : ℕ → Instant) (batch : List Event) (db : Db)
      → counted (ingest platform tools service clock store_clock batch db).0.0 ≡ length batch
  unfolding ingest
  ingest_total clock store_clock batch db =
      let limit = service.limits.max_events_per_batch in
      let b = prepare_batch platform tools service clock 0 (take limit batch) in
      omega (
        arith,
        store_batch_total store_clock (length batch - limit) b b.events db refl,
        prepare_batch_total clock 0 (take limit batch),
        length-take limit batch,
      )
