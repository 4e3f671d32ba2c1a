-- ===== src/Retention/Totals.antt =====
-- `Preview` against `Apply` (internal/retention/retention.go).
use traceboard.Prelude.{
  String, false, ◌+◌, true, false, none, List, [], ◌∷◌, ◌≡◌, refl, sym, subst, ◌∙◌, ◌==◌, arith,
  All, All-imp, All-both, length, exists_row, count_rows, Bool-cases, inl, inr,
}
use traceboard.Event.{Instant}
use traceboard.Store.{Db, RunRow, StepRow}
use traceboard.Store.Counting.{of_run}
use traceboard.Store.Consistent.{is_run, IsConsistent}
use traceboard.Store.Runs.{
  RetentionPolicy, delete_run, deletion_counts, without_run, select_retention_candidates,
  is_candidate, alert_of_run,
}
use traceboard.Store.Runs.Deleting.{
  count_rows-delete, exists_row-delete, count_rows-deleted, exists_row-deleted,
  count_rows-delete_none, exists_row-delete_none, others_kept, HasUniqueIds, HasUniqueIds-head,
  HasUniqueIds-tail, select-All, oldest_first-All, oldest_first-count, count_select_le, All-found,
}
use traceboard.Retention.{
  DeletionResult, Applied, apply_loop, apply, preview, add_deleted, sum_events, is_noop,
}

-- A run that is in the database, with an event count that is right.
abbrev Present : Db → RunRow → Type 0
Present db r =
    (exists_row (is_run r.id) db.runs ≡ true) × (r.event_count ≡ count_rows (of_run r.id) db.events)

-- The other runs stay present.
without_run-Present :
    (db : Db) (r s : RunRow)
    → (s.id == r.id) ≡ false
    → Present db s
    → Present (without_run r.id db) s
unfolding without_run
without_run-Present db r s other (there, counted) = (
  exists_row-delete (is_run s.id) (is_run r.id) db.runs (λ x. others_kept s.id r.id x.id other)
      ∙ there,
  counted
      ∙ sym (
          count_rows-delete (of_run s.id) (of_run r.id) db.events
            (λ x. others_kept s.id r.id x.run_id other)),
)

All-Present :
    (db : Db) (r : RunRow) (rest : List RunRow)
    → All (λ s. (s.id == r.id) ≡ false) rest
    → All (Present db) rest
    → All (Present (without_run r.id db)) rest
All-Present db r [] o h = tt
All-Present db r (s ∷ rest) o h =
    (without_run-Present db r s o.0 h.0, All-Present db r rest o.1 h.1)

pub apply_loop-present :
    (r : RunRow) (rest : List RunRow) (result : DeletionResult) (db : Db)
    → exists_row (is_run r.id) db.runs ≡ true
    → apply_loop (r ∷ rest) result db
      ≡ apply_loop rest (add_deleted result (deletion_counts r.id db)) (without_run r.id db)
unfolding apply_loop delete_run
apply_loop-present r rest result db there = rw (there, apply_loop) refl

apply_loop_totals :
    (cs : List RunRow) (result : DeletionResult) (db : Db)
    → HasUniqueIds cs
    → All (Present db) cs
    → ((apply_loop cs result db).error ≡ none)
      × ((apply_loop cs result db).result.runs ≡ result.runs + length cs)
      × ((apply_loop cs result db).result.events ≡ result.events + sum_events cs)
unfolding sum_events add_deleted deletion_counts
apply_loop_totals [] result db unique h = unfold apply_loop in (refl, omega arith, omega arith)
apply_loop_totals (r ∷ rest) result db unique h =
    let (there, counted) = h.0 in
    let later =
      apply_loop_totals rest (add_deleted result (deletion_counts r.id db)) (without_run r.id db)
        (HasUniqueIds-tail r rest unique)
        (All-Present db r rest (HasUniqueIds-head r rest unique) h.1) in
    rw (apply_loop-present r rest result db there)
      (later.0, omega (arith, later.1), omega (arith, later.2))

-- Nothing of a run is left: neither its row nor a row of its events, steps or alerts.
abbrev pub Gone : Db → String → Type 0
Gone db id =
    (exists_row (is_run id) db.runs ≡ false)
    × (count_rows (of_run id) db.events ≡ 0)
    × (count_rows (λ s. StepRow.run_id s == id) db.steps ≡ 0)
    × (count_rows (alert_of_run id) db.alerts ≡ 0)

without_run-Gone : (db : Db) (id : String) → Gone (without_run id db) id
unfolding without_run
without_run-Gone db id = (
  exists_row-deleted _ db.runs,
  count_rows-deleted _ db.events,
  count_rows-deleted _ db.steps,
  count_rows-deleted _ db.alerts,
)

without_run-keeps_Gone : (db : Db) (id other : String) → Gone db id → Gone (without_run other db) id
unfolding without_run
without_run-keeps_Gone db id other (r, e, s, a) = (
  exists_row-delete_none _ _ db.runs r,
  count_rows-delete_none _ _ db.events e,
  count_rows-delete_none _ _ db.steps s,
  count_rows-delete_none _ _ db.alerts a,
)

apply_loop-keeps_Gone :
    (cs : List RunRow) (result : DeletionResult) (db : Db) (id : String)
    → HasUniqueIds cs
    → All (Present db) cs
    → Gone db id
    → Gone (apply_loop cs result db).db id
apply_loop-keeps_Gone [] result db id unique h g = unfold apply_loop in g
apply_loop-keeps_Gone (r ∷ rest) result db id unique h g =
    rw (apply_loop-present r rest result db h.0.0) (
      apply_loop-keeps_Gone rest _ (without_run r.id db) id (HasUniqueIds-tail r rest unique)
        (All-Present db r rest (HasUniqueIds-head r rest unique) h.1)
        (without_run-keeps_Gone db id r.id g))

apply_loop-Gone :
    (cs : List RunRow) (result : DeletionResult) (db : Db)
    → HasUniqueIds cs
    → All (Present db) cs
    → All (λ r. Gone (apply_loop cs result db).db (RunRow.id r)) cs
apply_loop-Gone [] result db unique h = tt
apply_loop-Gone (r ∷ rest) result db unique h =
    let present = All-Present db r rest (HasUniqueIds-head r rest unique) h.1 in
    let ids = HasUniqueIds-tail r rest unique in
    let next = add_deleted result (deletion_counts r.id db) in
    subst (λ a. All (λ s. Gone (Applied.db a) (RunRow.id s)) (r ∷ rest))
      (sym (apply_loop-present r rest result db h.0.0))
      (
        apply_loop-keeps_Gone rest next (without_run r.id db) r.id ids present
            (without_run-Gone db r.id),
        apply_loop-Gone rest next (without_run r.id db) ids present,
      )

candidates-Present :
    (policy : RetentionPolicy) (now : Instant) (db : Db)
    → IsConsistent db
    → All (Present db) (select_retention_candidates policy now db)
unfolding select_retention_candidates
candidates-Present policy now db h = oldest_first-All (Present db) _ (
    All-imp _ _ _ (λ r p. p.0)
      (select-All (Present db) (is_candidate policy now db.runs) db.runs (
        All-both _ _ db.runs (All-found db.runs)
          (All-imp _ _ db.runs (λ r c. ground (arith, c.events_of)) h.counted))))

candidates-HasUniqueIds :
    (policy : RetentionPolicy) (now : Instant) (db : Db)
    → HasUniqueIds db.runs
    → HasUniqueIds (select_retention_candidates policy now db)
unfolding select_retention_candidates
candidates-HasUniqueIds policy now db unique x =
    let kept = count_select_le (is_run x) (is_candidate policy now db.runs) db.runs in
    rw oldest_first-count (omega (arith, unique x))

-- What a preview lists can be deleted, and its number of events is their sum.
preview_parts :
    (policy : RetentionPolicy) (now : Instant) (db : Db)
    → IsConsistent db
    → HasUniqueIds db.runs
    → HasUniqueIds (preview policy now db).runs
      × All (Present db) (preview policy now db).runs
      × ((preview policy now db).events ≡ sum_events (preview policy now db).runs)
unfolding preview sum_events count_rows
preview_parts policy now db h unique = elim (Bool-cases (is_noop policy)) [
  | inl off ↦ rw off (λ x. omega arith, tt, refl)
  | inr on ↦
      rw on (candidates-HasUniqueIds policy now db unique, candidates-Present policy now db h, refl)
]

-- `Apply` deletes what `Preview` announces: on a database whose run ids are unique and whose
-- counters agree with the event table, it ends without an error, deletes as many runs as the
-- preview lists, and as many events as the preview counts, and afterwards no row of a run of the
-- preview, and none of its events, steps and alerts, is left.
pub apply-preview :
    (policy : RetentionPolicy) (now : Instant) (db : Db)
    → IsConsistent db
    → HasUniqueIds db.runs
    → ((apply policy now db).error ≡ none)
      × ((apply policy now db).result.runs ≡ length (preview policy now db).runs)
      × ((apply policy now db).result.events ≡ (preview policy now db).events)
      × All (λ r. Gone (apply policy now db).db (RunRow.id r)) (preview policy now db).runs
unfolding apply
apply-preview policy now db h unique =
    let (ids, present, sum) = preview_parts policy now db h unique in
    let (ended, runs, events) = apply_loop_totals (preview policy now db).runs _ db ids present in
    (
      ended,
      omega (arith, runs),
      omega (arith, events, sum),
      apply_loop-Gone (preview policy now db).runs _ db ids present,
    )
