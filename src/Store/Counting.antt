-- ===== src/Store/Counting.antt =====
-- The counters of a run against the event table: `event_count`, `error_count` and
-- `next_sequence` of internal/store/events.go under the statements of one insertion.
use traceboard.Prelude.{
  ℕ, ◌+◌, String, Bool, List, [], ◌∷◌, ◌++◌, ◌≡◌, ◌==◌, ◌&&◌, arith, eq_iff, count_rows,
  count_rows-append, if◌then◌else◌,
}
use traceboard.Event.EventType.{error_recorded}
use traceboard.Store.{RunRow, EventRow, StoredEvent}
use traceboard.Store.Summary.{apply_to_run}
use traceboard.Store.Statements.{take_sequence}

abbrev pub of_run : String → EventRow → Bool
of_run x e = e.run_id == x

abbrev pub error_of_run : String → EventRow → Bool
error_of_run x e = e.run_id == x && e.type == error_recorded

-- A run's counters are those of the rows of `events`, up to what the event of run `x` that is
-- being stored has already added: `a` events, `c` errors and `b` sequence numbers.
pub record Counted (events : List EventRow) (x : String) (a c b : ℕ) (r : RunRow) : Type 0 where
  pub events_of : r.event_count ≡ count_rows (of_run r.id) events + (if r.id == x then a else 0)
  pub errors_of :
      r.error_count ≡ count_rows (error_of_run r.id) events + (if r.id == x then c else 0)
  pub next : r.next_sequence ≡ count_rows (of_run r.id) events + 1 + (if r.id == x then b else 0)

pub Counted-change :
    (events : List EventRow) (x y : String) (r : RunRow)
    → Counted events x 0 0 0 r
    → Counted events y 0 0 0 r
Counted-change events x y r h = ground arith

module _ (events : List EventRow) (stored : StoredEvent) where
  pub Counted-take :
      (r : RunRow)
      → Counted events stored.run_id 0 0 0 r
      → Counted events stored.run_id 0 0 1
          (if r.id == stored.run_id then take_sequence stored r else r)
  unfolding take_sequence
  Counted-take r h = ground arith

  abbrev pub error_step : ℕ
  error_step = if stored.type == error_recorded then 1 else 0

  pub Counted-apply :
      (r : RunRow)
      → Counted events stored.run_id 0 0 1 r
      → Counted events stored.run_id 1 error_step 1
          (if r.id == stored.run_id then apply_to_run stored r else r)
  unfolding apply_to_run
  Counted-apply r h = ground arith

  pub Counted-append :
      (row : EventRow) (r : RunRow)
      → row.run_id ≡ stored.run_id
      → row.type ≡ stored.type
      → Counted events stored.run_id 1 error_step 1 r
      → Counted (events ++ (row ∷ [])) stored.run_id 0 0 0 r
  unfolding count_rows
  Counted-append row r p q h = ground (
    arith,
    count_rows-append (of_run r.id) events (row ∷ []),
    count_rows-append (error_of_run r.id) events (row ∷ []),
    eq_iff r.id stored.run_id,
    eq_iff stored.run_id r.id,
  )
