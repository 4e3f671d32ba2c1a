-- ===== src/Store/Consistent.antt =====
-- The invariant of the run summaries: counters and sequence numbers agree with the event table.
pub mod Preserved
pub mod Insertion
pub mod Batches
use traceboard.Prelude.{
  ℕ, ◌+◌, ◌≤◌, ◌<◌, String, Bool, true, false, Option, none, some, List, [], ◌∷◌, ◌++◌, ◌≡◌, refl,
  sym, ap, subst, ◌==◌, ◌&&◌, ◌||◌, not, arith, eq_iff, eq_refl, All, All-update, All-append,
  All-imp, Bool-cases, inl, inr, ◌⊎◌, count_rows, exists_row, update_rows, count_rows-append,
  exists_row-append, exists_row-update, find_row, find_row-All, if◌then◌else◌, eqb, leb,
}
use traceboard.Event.EventType.{error_recorded}
use traceboard.Store.{Db, RunRow, EventRow, StoredEvent, Result, ok, err, ◌>>=◌, >>=-eq-ok}
use traceboard.Store.Summary.{apply_to_run}
use traceboard.Store.Statements.{
  take_sequence, new_run, ensure_source, ensure_run, allocated, allocate_run_sequence, update_step,
  update_run, check_row,
}
use traceboard.Store.Insert.{insert_event}
use traceboard.Store.Counting.{
  Counted, of_run, error_of_run, Counted-take, Counted-apply, Counted-append, error_step,
}

abbrev pub numbered_as : String → ℕ → EventRow → Bool
numbered_as x n e = e.run_id == x && eqb e.sequence n

abbrev pub is_run : String → RunRow → Bool
is_run x r = r.id == x

-- `a`, `c` and `b` are zero but while an event of run `x` is being stored (Counting).
pub record Staged (x : String) (a c b : ℕ) (runs : List RunRow) (events : List EventRow)
    : Type 0 where
  pub counted : All (Counted events x a c b) runs
  pub known : All (λ e. exists_row (is_run e.run_id) runs ≡ true) events
  pub numbering :
      (y : String) (n : ℕ)
      → count_rows (numbered_as y n) events
        ≡ (if leb 1 n && leb n (count_rows (of_run y) events) then 1 else 0)

-- Between two statements no event is being stored. Every run counts its event rows and its rows
-- of type `error.recorded`, its next sequence number is one more than its count, every event
-- belongs to a run, and the sequence numbers of each run are 1, 2, … with no gap and no repetition.
abbrev pub IsConsistent : Db → Type 0
IsConsistent db = Staged "" 0 0 0 db.runs db.events

module _ (stored : StoredEvent) (db : Db) (d : Db) where
  pub ensure_source-keeps :
      ensure_source stored db ≡ ok d → (d.runs ≡ db.runs) × (d.events ≡ db.events)
  unfolding ensure_source
  ensure_source-keeps e = ground arith

  abbrev pub RunAdded : Type 0
  RunAdded =
      (d.events ≡ db.events)
      × ((exists_row (is_run stored.run_id) db.runs ≡ true) × (d.runs ≡ db.runs)
          ⊎ (exists_row (is_run stored.run_id) db.runs ≡ false)
            × (d.runs ≡ db.runs ++ (new_run stored ∷ [])))

  pub ensure_run_cases : ensure_run stored db ≡ ok d → RunAdded
  unfolding ensure_run
  ensure_run_cases e = ground arith

  pub allocate_cases :
      (n : ℕ)
      → allocate_run_sequence stored db ≡ ok (n, d)
      → (d.events ≡ db.events)
        × (d.runs ≡ update_rows (is_run stored.run_id) (take_sequence stored) db.runs)
        × ((row : RunRow) × (find_row (is_run stored.run_id) db.runs ≡ some row)
            × (n ≡ row.next_sequence))
  unfolding allocate_run_sequence
  allocate_cases n e = split (find_row (is_run stored.run_id) db.runs) refl e
    where
      split :
          (found : Option RunRow)
          → find_row (is_run stored.run_id) db.runs ≡ found
          → allocated stored db found ≡ ok (n, d)
          → (d.events ≡ db.events)
            × (d.runs ≡ update_rows (is_run stored.run_id) (take_sequence stored) db.runs)
            × ((row : RunRow) × (find_row (is_run stored.run_id) db.runs ≡ some row)
                × (n ≡ row.next_sequence))
      split none q r = cc
      split (some row) q r = (ground arith, ground arith, (row, q, ground arith))

  pub update_step-keeps :
      ((update_step stored db).runs ≡ db.runs) × ((update_step stored db).events ≡ db.events)
  unfolding update_step
  update_step-keeps = ground arith

  pub check_row_cases :
      (row : EventRow)
      → check_row stored db row ≡ ok d
      → (d.runs ≡ db.runs) × (d.events ≡ db.events ++ (row ∷ []))
  unfolding check_row
  check_row_cases row e = ground arith

module _ (stored : StoredEvent) where
  pub no_events_yet :
      (runs : List RunRow) (events : List EventRow)
      → All (λ e. exists_row (is_run e.run_id) runs ≡ true) events
      → exists_row (is_run stored.run_id) runs ≡ false
      → (count_rows (of_run stored.run_id) events ≡ 0)
        × (count_rows (error_of_run stored.run_id) events ≡ 0)
  unfolding count_rows
  no_events_yet runs [] h absent = (refl, refl)
  no_events_yet runs (e ∷ rest) h absent = elim (Bool-cases (e.run_id == stored.run_id)) [
    | inl same ↦
        let there : e.run_id ≡ stored.run_id = (eq_iff _ _).0 same in
        let present = subst (λ x. exists_row (is_run x) runs ≡ true) there h.0 in cc
    | inr other ↦ let (p, q) = no_events_yet runs rest h.1 absent in ground arith
  ]
