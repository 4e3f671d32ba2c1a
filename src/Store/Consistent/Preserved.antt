-- ===== src/Store/Consistent/Preserved.antt =====
-- The parts of `insertEvent` (internal/store/events.go) against the invariant of the counters.
use traceboard.Prelude.{
  ℕ, ◌+◌, String, true, false, some, List, [], ◌∷◌, ◌++◌, ◌≡◌, refl, sym, subst, ◌==◌, ◌&&◌, arith,
  eq_iff, All, All-update, All-append, All-imp, Bool-cases, inl, inr, count_rows, exists_row,
  update_rows, count_rows-append, exists_row-append, exists_row-update, find_row, find_row-All,
  if◌then◌else◌, leb,
}
use traceboard.Store.{RunRow, EventRow, StoredEvent}
use traceboard.Store.Summary.{apply_to_run}
use traceboard.Store.Statements.{take_sequence, new_run}
use traceboard.Store.Counting.{
  Counted, of_run, Counted-take, Counted-apply, Counted-append, error_step, Counted-change,
}
use traceboard.Store.Consistent.{Staged, numbered_as, is_run, no_events_yet}

module _ (stored : StoredEvent) (runs : List RunRow) (events : List EventRow) where
  abbrev pub x : String
  x = stored.run_id

  pub known-append :
      (more : List RunRow) (es : List EventRow)
      → All (λ e. exists_row (is_run e.run_id) runs ≡ true) es
      → All (λ e. exists_row (is_run e.run_id) (runs ++ more) ≡ true) es
  known-append more es = All-imp _ _ es λ e h. rw exists_row-append (rw h)

  pub known-update :
      (f : RunRow → RunRow) (es : List EventRow)
      → ((r : RunRow) → (f r).id ≡ r.id)
      → All (λ e. exists_row (is_run e.run_id) runs ≡ true) es
      → All (λ e. exists_row (is_run e.run_id) (update_rows (is_run x) f runs) ≡ true) es
  known-update f es same =
      All-imp _ _ es
        λ e h. rw (exists_row-update (is_run e.run_id) (is_run x) f runs (λ r. rw (same r))) h

  pub new_run-Counted :
      Staged x 0 0 0 runs events
      → exists_row (is_run x) runs ≡ false
      → Counted events x 0 0 0 (new_run stored)
  unfolding new_run
  new_run-Counted h absent =
      let (p, q) = no_events_yet stored runs events h.known absent in ground arith

  pub Staged-new_run :
      Staged x 0 0 0 runs events
      → exists_row (is_run x) runs ≡ false
      → Staged x 0 0 0 (runs ++ (new_run stored ∷ [])) events
  Staged-new_run h absent = record {
    counted = All-append _ runs _ h.counted (new_run-Counted h absent, tt);
    known = known-append _ events h.known;
    numbering = h.numbering;
  }

  pub Staged-take :
      Staged x 0 0 0 runs events
      → Staged x 0 0 1 (update_rows (is_run x) (take_sequence stored) runs) events
  unfolding take_sequence
  Staged-take h = record {
    counted = All-update _ _ (is_run x) _ runs (Counted-take events stored) h.counted;
    known = known-update _ events (λ r. refl) h.known;
    numbering = h.numbering;
  }

  pub Staged-apply :
      Staged x 0 0 1 runs events
      → Staged x 1
          (error_step events stored)
          1
          (update_rows (is_run x) (apply_to_run stored) runs)
          events
  unfolding apply_to_run
  Staged-apply h = record {
    counted = All-update _ _ (is_run x) _ runs (Counted-apply events stored) h.counted;
    known = known-update _ events (λ r. refl) h.known;
    numbering = h.numbering;
  }

  numbering-append :
      (row : EventRow) (y : String) (n : ℕ)
      → row.run_id ≡ x
      → row.sequence ≡ count_rows (of_run x) events + 1
      → count_rows (numbered_as y n) events
        ≡ (if leb 1 n && leb n (count_rows (of_run y) events) then 1 else 0)
      → count_rows (numbered_as y n) (events ++ (row ∷ []))
        ≡ (if leb 1 n && leb n (count_rows (of_run y) (events ++ (row ∷ []))) then 1 else 0)
  unfolding count_rows
  numbering-append row y n p q h = elim (Bool-cases (x == y)) [
    | inl e ↦
        let same : x ≡ y = (eq_iff x y).0 e in
        let there : row.sequence ≡ count_rows (of_run y) events + 1 =
          subst (λ z. row.sequence ≡ count_rows (of_run z) events + 1) same q in
        ground (
          arith,
          count_rows-append (numbered_as y n) events (row ∷ []),
          count_rows-append (of_run y) events (row ∷ []),
        )
    | inr e ↦ ground (
      arith,
      count_rows-append (numbered_as y n) events (row ∷ []),
      count_rows-append (of_run y) events (row ∷ []),
    )
  ]

  pub Staged-append :
      (row : EventRow)
      → row.run_id ≡ x
      → row.type ≡ stored.type
      → row.sequence ≡ count_rows (of_run x) events + 1
      → exists_row (is_run x) runs ≡ true
      → Staged x 1 (error_step events stored) 1 runs events
      → Staged x 0 0 0 runs (events ++ (row ∷ []))
  Staged-append row p t q present h = record {
    counted = All-imp _ _ runs (λ r c. Counted-append events stored row r p t c) h.counted;
    known =
        All-append _ events (row ∷ []) h.known
          (subst (λ z. exists_row (is_run z) runs ≡ true) (sym p) present, tt);
    numbering = λ y n. numbering-append row y n p q (h.numbering y n);
  }

  -- The sequence number that is handed out is the first free one.
  pub allocated-next :
      (row : RunRow)
      → Staged x 0 0 0 runs events
      → find_row (is_run x) runs ≡ some row
      → row.next_sequence ≡ count_rows (of_run x) events + 1
  allocated-next row h found =
      let (c, same) = find_row-All _ (is_run x) runs row h.counted found in
      let id : row.id ≡ x = (eq_iff _ _).0 same in
      subst (λ z. row.next_sequence ≡ count_rows (of_run z) events + 1) id (ground (arith, c.next))

  pub present-update :
      (f : RunRow → RunRow)
      → ((r : RunRow) → (f r).id ≡ r.id)
      → exists_row (is_run x) runs ≡ true
      → exists_row (is_run x) (update_rows (is_run x) f runs) ≡ true
  present-update f same h = rw (exists_row-update (is_run x) (is_run x) f runs (λ r. rw (same r))) h

pub Staged-rebase :
    (x y : String) (runs : List RunRow) (events : List EventRow)
    → Staged x 0 0 0 runs events
    → Staged y 0 0 0 runs events
Staged-rebase x y runs events h = record {
  counted = All-imp _ _ runs (Counted-change events x y) h.counted;
  known = h.known;
  numbering = h.numbering;
}
