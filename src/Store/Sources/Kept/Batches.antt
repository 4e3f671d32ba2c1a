-- ===== src/Store/Sources/Kept/Batches.antt =====
-- The capture mode of a source under `InsertEvents` of internal/store/events.go, whose `ensureSource`
-- stores the mode of every event that it inserts.
use traceboard.Prelude.{
  ℕ, ◌+◌, String, Bool, true, Option, none, some, List, [], ◌∷◌, ◌++◌, ◌==◌, ◌||◌, ◌&&◌, not, ◌≡◌,
  refl, sym, ap, subst, ◌∙◌, arith, find_row, exists_row, update_rows, Bool-cases, inl, inr, eq_iff,
}
use traceboard.Event.{Event, Instant}
use traceboard.Platform.{Platform, PrepareError}
use traceboard.Store.{Db, SourceRow, RunRow, EventRow, StoredEvent, ok, err, >>=-eq-ok}
use traceboard.Store.Summary.{capture_mode_of}
use traceboard.Store.Statements.{
  new_source, refresh_source, ensure_source, ensure_run, allocated, allocate_run_sequence,
  update_step, update_run, check_row,
}
use traceboard.Store.Prepare.{Prepared, ready, refused, prepare_event}
use traceboard.Store.Insert.{
  InsertResult, insert_event, insert_new, insert_prepared, insert_one, insert_loop,
  quarantine_event, encoded, event_row, is_stored, finish, no_result, Progress,
}
use traceboard.Store.Sources.{named}
use traceboard.Store.Sources.Kept.{mode_in, stored_mode, row_mode, mode_in-find_row, mode_in-append}

-- An event that is of another source, or has this mode.
unfoldable pub agrees : String → String → StoredEvent → Bool
agrees name mode stored = not (stored.source == name) || capture_mode_of stored == mode

unfoldable pub prepared_agrees : String → String → Prepared StoredEvent → Bool
unfolding agrees
prepared_agrees name mode (refused reason) = true
prepared_agrees name mode (ready stored) = agrees name mode stored

-- A batch, the n-th event prepared at `clock n`, of which every event agrees.
unfoldable pub batch_agrees : Platform → String → String → (ℕ → Instant) → ℕ → List Event → Bool
unfolding prepared_agrees
batch_agrees platform name mode clock n [] = true
batch_agrees platform name mode clock n (input ∷ rest) =
    prepared_agrees name mode (prepare_event platform (clock n) input)
    && batch_agrees platform name mode clock (n + 1) rest

updated-mode :
    (name other mode given : String) (change : SourceRow → SourceRow) (rows : List SourceRow)
    → ((row : SourceRow) → (change row).name ≡ row.name)
    → ((row : SourceRow) → (change row).capture_mode ≡ given)
    → (not (other == name) || given == mode) ≡ true
    → mode_in (find_row (named name) rows) ≡ some mode
    → mode_in (find_row (named name) (update_rows (named other) change rows)) ≡ some mode
unfolding update_rows row_mode
updated-mode name other mode given change [] same set agree h = h
updated-mode name other mode given change (row ∷ rest) same set agree h =
    let after = update_rows (named other) change rest in
    let before : row_mode name row rest ≡ some mode = sym (mode_in-find_row name row rest) ∙ h in
    let later = updated-mode name other mode given change rest same set agree in
    elim (Bool-cases (row.name == other)) [
      | inl e ↦ rw e (
          mode_in-find_row name (change row) after
          ∙ ground (
            arith,
            before,
            later,
            same row,
            set row,
            agree,
            eq_iff given mode,
            e,
            eq_iff row.name other,
          ))
      | inr e ↦ rw e (mode_in-find_row name row after ∙ ground (arith, before, later))
    ]

module _ (name mode : String) where
  ensure_source-mode :
      (stored : StoredEvent) (db after : Db)
      → agrees name mode stored ≡ true
      → ensure_source stored db ≡ ok after
      → stored_mode name db ≡ some mode
      → stored_mode name after ≡ some mode
  unfolding ensure_source stored_mode agrees refresh_source
  ensure_source-mode stored db after agree e h =
      elim (Bool-cases (exists_row (named stored.source) db.sources)) [
        | inl there ↦
            let sources : update_rows (named stored.source) (refresh_source stored) db.sources
                ≡ after.sources =
              ground (arith, e, there) in
            subst (λ rows. mode_in (find_row (named name) rows) ≡ some mode) sources
              (updated-mode name stored.source mode (capture_mode_of stored) (refresh_source stored)
                db.sources (λ r. refl) (λ r. refl) agree h)
        | inr new ↦
            let sources : db.sources ++ (new_source stored ∷ []) ≡ after.sources =
              ground (arith, e, new) in
            subst (λ rows. mode_in (find_row (named name) rows) ≡ some mode) sources
              (mode_in-append name mode db.sources (new_source stored) h)
      ]

  ensure_run-sources :
      (stored : StoredEvent) (db after : Db)
      → ensure_run stored db ≡ ok after
      → after.sources ≡ db.sources
  unfolding ensure_run
  ensure_run-sources stored db after e = ground (arith, e)

  allocated-sources :
      (stored : StoredEvent) (db after : Db) (n : ℕ) (found : Option RunRow)
      → allocated stored db found ≡ ok (n, after)
      → after.sources ≡ db.sources
  unfolding allocated
  allocated-sources stored db after n none e = absurd (cc)
  allocated-sources stored db after n (some row) e = ground (arith, e)

  update_step-sources :
      (stored : StoredEvent) (db : Db) → (update_step stored db).sources ≡ db.sources
  unfolding update_step
  update_step-sources stored db = ground arith

  check_row-sources :
      (stored : StoredEvent) (db after : Db) (row : EventRow)
      → check_row stored db row ≡ ok after
      → after.sources ≡ db.sources
  unfolding check_row
  check_row-sources stored db after row e = ground (arith, e)

  module _ (platform : Platform) where
    insert_event-mode :
        (stored : StoredEvent) (db after : Db)
        → agrees name mode stored ≡ true
        → insert_event platform stored db ≡ ok after
        → stored_mode name db ≡ some mode
        → stored_mode name after ≡ some mode
    unfolding insert_event allocate_run_sequence update_run stored_mode
    insert_event-mode stored db after agree e h =
        let (sourced, e1, r1) = >>=-eq-ok (ensure_source stored db) _ e in
        let (present, e2, r2) = >>=-eq-ok (ensure_run stored sourced) _ r1 in
        let ((n, numbered), e3, r3) = >>=-eq-ok (allocate_run_sequence stored present) _ r2 in
        let (row, e4, r4) = >>=-eq-ok (event_row platform stored n) _ r3 in
        let sources : sourced.sources ≡ after.sources = sym (
          check_row-sources stored (update_run stored (update_step stored numbered)) after row r4
          ∙ update_step-sources stored numbered
          ∙ allocated-sources stored present numbered n _ e3
          ∙ ensure_run-sources stored sourced present e2) in
        subst (λ rows. mode_in (find_row (named name) rows) ≡ some mode) sources
          (ensure_source-mode stored db sourced agree e1 h)

    quarantine_event-mode :
        (now : Instant) (input : Event) (reason : PrepareError) (db after : Db)
        → quarantine_event platform now input reason db ≡ ok after
        → stored_mode name after ≡ stored_mode name db
    unfolding quarantine_event stored_mode
    quarantine_event-mode now input reason db after e =
        let (payload, e1, r1) = >>=-eq-ok (encoded platform "quarantine payload" _) _ e in
        let sources : after.sources ≡ db.sources = ground (arith, r1) in
        ap (λ rows. mode_in (find_row (named name) rows)) sources

    insert_prepared-mode :
        (now : Instant) (input : Event) (result result' : InsertResult) (db after : Db)
        (prepared : Prepared StoredEvent)
        → prepared_agrees name mode prepared ≡ true
        → insert_prepared platform now input result db prepared ≡ ok (result', after)
        → stored_mode name db ≡ some mode
        → stored_mode name after ≡ some mode
    unfolding insert_prepared insert_new prepared_agrees
    insert_prepared-mode now input result result' db after (refused reason) agree e h =
        let (d, e1, r1) = >>=-eq-ok (quarantine_event platform now input reason db) _ e in
        let same : d ≡ after = ground (arith, r1) in
        subst (λ x. stored_mode name x ≡ some mode) same
          (quarantine_event-mode now input reason db d e1 ∙ h)
    insert_prepared-mode now input result result' db after (ready stored) agree e h =
        elim (Bool-cases (not (stored.source_event_id == "") && is_stored stored db)) [
          | inl old ↦
              let same : db ≡ after = ground (arith, e, old) in
              subst (λ x. stored_mode name x ≡ some mode) same h
          | inr new ↦
              let fresh : insert_new platform result stored db ≡ ok (result', after) =
                ground (arith, e, new) in
              let (d, e1, r1) = >>=-eq-ok (insert_event platform stored db) _ fresh in
              let same : d ≡ after = ground (arith, r1) in
              subst (λ x. stored_mode name x ≡ some mode) same
                (insert_event-mode stored db d agree e1 h)
        ]

    pub KeepsMode : Db → Progress → Type 0
    KeepsMode db (err e) = Unit
    KeepsMode db (ok (result, after)) = stored_mode name after ≡ some mode

    insert_loop-mode :
        (clock : ℕ → Instant) (n : ℕ) (inputs : List Event) (result result' : InsertResult)
        (db after : Db)
        → batch_agrees platform name mode clock n inputs ≡ true
        → insert_loop platform clock n inputs result db ≡ ok (result', after)
        → stored_mode name db ≡ some mode
        → stored_mode name after ≡ some mode
    unfolding insert_loop insert_one batch_agrees
    insert_loop-mode clock n [] result result' db after agree e h =
        let same : db ≡ after = ground (arith, e) in
        subst (λ x. stored_mode name x ≡ some mode) same h
    insert_loop-mode clock n (input ∷ rest) result result' db after agree e h =
        let ((r, d), e1, later) = >>=-eq-ok (insert_one platform (clock n) input result db) _ e in
        insert_loop-mode clock (n + 1) rest r result' d after (ground (arith, agree)) later
          (insert_prepared-mode (clock n) input result r db d _ (ground (arith, agree)) e1 h)

    pub finish-mode :
        (db : Db) (progress : Progress)
        → KeepsMode db progress
        → stored_mode name db ≡ some mode
        → stored_mode name (finish platform db progress).1 ≡ some mode
    unfolding finish KeepsMode
    finish-mode db (err e) k h = h
    finish-mode db (ok (result, after)) k h = k

    pub loop-KeepsMode :
        (clock : ℕ → Instant) (inputs : List Event) (db : Db) (progress : Progress)
        → batch_agrees platform name mode clock 0 inputs ≡ true
        → insert_loop platform clock 0 inputs no_result db ≡ progress
        → stored_mode name db ≡ some mode
        → KeepsMode db progress
    unfolding KeepsMode
    loop-KeepsMode clock inputs db (err e) agree q h = tt
    loop-KeepsMode clock inputs db (ok (result, after)) agree q h =
        insert_loop-mode clock 0 inputs no_result result db after agree q h
