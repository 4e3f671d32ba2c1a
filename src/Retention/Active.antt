-- ===== src/Retention/Active.antt =====
-- What `Apply` of internal/retention/retention.go does to the runs that have not ended.
use traceboard.Prelude.{
  String, true, false, List, [], ◌∷◌, ◌≡◌, refl, ◌∙◌, ◌==◌, arith, eq_iff, All, All-imp, exists_row,
  count_rows, find_row, delete_rows, is_none, Bool-cases, inl, inr,
}
use traceboard.Event.{Instant}
use traceboard.Store.{Db, RunRow}
use traceboard.Store.Counting.{of_run}
use traceboard.Store.Consistent.{is_run}
use traceboard.Store.Runs.{
  RetentionPolicy, delete_run, deletion_counts, without_run, select_retention_candidates,
  is_candidate,
}
use traceboard.Store.Runs.Deleting.{count_rows-delete, others_kept, select-All, oldest_first-All}
use traceboard.Retention.{DeletionResult, apply_loop, apply, preview, add_deleted, is_noop}
use traceboard.Retention.Totals.{apply_loop-present}

-- No row with this id has ended.
abbrev pub IsActive : String → Db → Type 0
IsActive id db = All (λ r. (r.id == id) ≡ true → is_none r.ended_at ≡ true) db.runs

candidate_ended :
    (policy : RetentionPolicy) (now : Instant) (runs : List RunRow) (id : String) (r : RunRow)
    → ((r.id == id) ≡ true → is_none r.ended_at ≡ true)
    → is_candidate policy now runs r ≡ true
    → (r.id == id) ≡ false
unfolding is_candidate
candidate_ended policy now runs id r active chosen = ground arith

find_row-delete :
    (x id : String) (l : List RunRow)
    → (x == id) ≡ false
    → find_row (is_run x) (delete_rows (is_run id) l) ≡ find_row (is_run x) l
unfolding find_row delete_rows
find_row-delete x id [] h = refl
find_row-delete x id (r ∷ rest) h =
    ground (arith, find_row-delete x id rest h, others_kept x id r.id h)

-- What a run shows: its row, and how many events it has.
abbrev pub SameRun : String → Db → Db → Type 0
SameRun id a b =
    (find_row (is_run id) a.runs ≡ find_row (is_run id) b.runs)
    × (count_rows (of_run id) a.events ≡ count_rows (of_run id) b.events)

without_run-SameRun :
    (id other : String) (db : Db) → (id == other) ≡ false → SameRun id (without_run other db) db
unfolding without_run
without_run-SameRun id other db h = (
  find_row-delete id other db.runs h,
  count_rows-delete (of_run id) (of_run other) db.events (λ e. others_kept id other e.run_id h),
)

apply_loop-absent :
    (r : RunRow) (rest : List RunRow) (result : DeletionResult) (db : Db)
    → exists_row (is_run r.id) db.runs ≡ false
    → (apply_loop (r ∷ rest) result db).db ≡ db
unfolding apply_loop delete_run
apply_loop-absent r rest result db absent = rw (absent, apply_loop) refl

SameRun-trans : (id : String) (a b c : Db) → SameRun id a b → SameRun id b c → SameRun id a c
SameRun-trans id a b c p q = (p.0 ∙ q.0, p.1 ∙ q.1)

apply_loop-SameRun :
    (id : String) (cs : List RunRow) (result : DeletionResult) (db : Db)
    → All (λ r. (r.id == id) ≡ false) cs
    → SameRun id (apply_loop cs result db).db db
apply_loop-SameRun id [] result db h = unfold apply_loop in (refl, refl)
apply_loop-SameRun id (r ∷ rest) result db h =
    let next = add_deleted result (deletion_counts r.id db) in
    let later = apply_loop-SameRun id rest next (without_run r.id db) h.1 in
    let other : (id == r.id) ≡ false = ground (arith, h.0, eq_iff id r.id, eq_iff r.id id) in
    elim (Bool-cases (exists_row (is_run r.id) db.runs)) [
      | inl there ↦ rw (apply_loop-present r rest result db there) (
          SameRun-trans id (apply_loop rest next (without_run r.id db)).db (without_run r.id db) db
            later (without_run-SameRun id r.id db other))
      | inr absent ↦ rw (apply_loop-absent r rest result db absent) (refl, refl)
    ]

preview_spares :
    (policy : RetentionPolicy) (now : Instant) (id : String) (db : Db)
    → IsActive id db
    → All (λ r. (r.id == id) ≡ false) (preview policy now db).runs
unfolding preview select_retention_candidates
preview_spares policy now id db h = elim (Bool-cases (is_noop policy)) [
  | inl off ↦ rw off tt
  | inr on ↦ rw on (
      oldest_first-All (λ r. (r.id == id) ≡ false) _
        (All-imp _ _ _ (λ r p. candidate_ended policy now db.runs id r p.0 p.1)
          (select-All (λ r. (r.id == id) ≡ true → is_none r.ended_at ≡ true)
            (is_candidate policy now db.runs) db.runs h)))
]

-- Retention spares every active run: if no run of this id has ended, then after `Apply`, whatever
-- the policy and the time, the run has the same row and as many events as before.
pub apply-SameRun :
    (policy : RetentionPolicy) (now : Instant) (id : String) (db : Db)
    → IsActive id db
    → SameRun id (apply policy now db).db db
unfolding apply
apply-SameRun policy now id db h =
    apply_loop-SameRun id (preview policy now db).runs _ db (preview_spares policy now id db h)
