-- ===== src/Store/Sources/Kept.antt =====
-- The capture mode of a source under the statements of internal/store/sources.go.
pub mod Batches
pub mod Steps
use traceboard.Prelude.{
  String, Bool, true, false, Option, none, some, List, [], ◌∷◌, ◌++◌, ◌==◌, ◌≡◌, refl, sym, subst,
  ◌∙◌, arith, find_row, exists_row, update_rows, if◌then◌else◌, Bool-cases, inl, inr, eq_iff,
}
use traceboard.Event.{Instant}
use traceboard.Event.Validate.{is_capture_mode}
use traceboard.Store.{Db, SourceRow, ok}
use traceboard.Store.Sources.{
  named, source_row, upsert_source, ensure_source_exists, set_source_capture_mode, record_heartbeat,
  set_source_connected,
}

abbrev mode_in : Option SourceRow → Option String
mode_in none = none
mode_in (some row) = some row.capture_mode

-- The capture mode that is stored for a source.
unfoldable pub stored_mode : String → Db → Option String
stored_mode name db = mode_in (find_row (named name) db.sources)

row_mode : (name : String) (row : SourceRow) (rest : List SourceRow) → Option String
row_mode name row rest =
    if row.name == name then some row.capture_mode else mode_in (find_row (named name) rest)

mode_in-find_row :
    (name : String) (row : SourceRow) (rest : List SourceRow)
    → mode_in (find_row (named name) (row ∷ rest)) ≡ row_mode name row rest
unfolding find_row row_mode
mode_in-find_row name row rest = elim (Bool-cases (row.name == name)) [
  | inl e ↦ rw e refl
  | inr e ↦ rw e refl
]

-- A change of rows that leaves names and modes alone leaves every stored mode.
mode_in-update_rows :
    (name other : String) (change : SourceRow → SourceRow) (rows : List SourceRow)
    → ((row : SourceRow) → (change row).name ≡ row.name)
    → ((row : SourceRow) → (change row).capture_mode ≡ row.capture_mode)
    → mode_in (find_row (named name) (update_rows (named other) change rows))
      ≡ mode_in (find_row (named name) rows)
unfolding update_rows row_mode
mode_in-update_rows name other change [] same keep = refl
mode_in-update_rows name other change (row ∷ rest) same keep =
    let later = mode_in-update_rows name other change rest same keep in
    let after = update_rows (named other) change rest in
    elim (Bool-cases (row.name == other)) [
      | inl e ↦ rw e (
          mode_in-find_row name (change row) after
          ∙ ground (arith, later, same row, keep row)
          ∙ sym (mode_in-find_row name row rest))
      | inr e ↦ rw e (
          mode_in-find_row name row after
          ∙ ground (arith, later)
          ∙ sym (mode_in-find_row name row rest))
    ]

upsert-mode :
    (row : SourceRow) (change : SourceRow → SourceRow) (db after : Db) (name : String)
    → upsert_source row change db ≡ ok after
    → exists_row (named row.name) db.sources ≡ true
    → ((r : SourceRow) → (change r).name ≡ r.name)
    → ((r : SourceRow) → (change r).capture_mode ≡ r.capture_mode)
    → stored_mode name after ≡ stored_mode name db
unfolding upsert_source stored_mode
upsert-mode row change db after name e there same keep =
    let sources : update_rows (named row.name) change db.sources ≡ after.sources =
      ground (arith, e, there) in
    subst
      (λ rows. mode_in (find_row (named name) rows) ≡ mode_in (find_row (named name) db.sources))
      sources (mode_in-update_rows name row.name change db.sources same keep)

mode_in-append :
    (name mode : String) (rows : List SourceRow) (last : SourceRow)
    → mode_in (find_row (named name) rows) ≡ some mode
    → mode_in (find_row (named name) (rows ++ (last ∷ []))) ≡ some mode
unfolding row_mode find_row
mode_in-append name mode [] last h = absurd (cc)
mode_in-append name mode (row ∷ rest) last h =
    mode_in-find_row name row (rest ++ (last ∷ []))
    ∙ ground (arith, mode_in-append name mode rest last, sym (mode_in-find_row name row rest) ∙ h)

upsert-keeps :
    (row : SourceRow) (change : SourceRow → SourceRow) (db after : Db) (name mode : String)
    → upsert_source row change db ≡ ok after
    → ((r : SourceRow) → (change r).name ≡ r.name)
    → ((r : SourceRow) → (change r).capture_mode ≡ r.capture_mode)
    → stored_mode name db ≡ some mode
    → stored_mode name after ≡ some mode
unfolding upsert_source stored_mode
upsert-keeps row change db after name mode e same keep h =
    elim (Bool-cases (exists_row (named row.name) db.sources)) [
      | inl there ↦ upsert-mode row change db after name e there same keep ∙ h
      | inr new ↦
          let sources : db.sources ++ (row ∷ []) ≡ after.sources = ground (arith, e, new) in
          subst (λ rows. mode_in (find_row (named name) rows) ≡ some mode) sources
            (mode_in-append name mode db.sources row h)
    ]

mode_in-changed :
    (name mode : String) (change : SourceRow → SourceRow) (rows : List SourceRow)
    → ((row : SourceRow) → (change row).name ≡ row.name)
    → ((row : SourceRow) → (change row).capture_mode ≡ mode)
    → exists_row (named name) rows ≡ true
    → mode_in (find_row (named name) (update_rows (named name) change rows)) ≡ some mode
unfolding update_rows row_mode exists_row
mode_in-changed name mode change [] same keep h = absurd (cc)
mode_in-changed name mode change (row ∷ rest) same keep h =
    let after = update_rows (named name) change rest in
    elim (Bool-cases (row.name == name)) [
      | inl e ↦
          rw e (mode_in-find_row name (change row) after ∙ ground (arith, e, same row, keep row))
      | inr e ↦ rw e (
          mode_in-find_row name row after
          ∙ ground (arith, e, h, mode_in-changed name mode change rest same keep))
    ]

mode_in-new :
    (name : String) (rows : List SourceRow) (last : SourceRow)
    → exists_row (named name) rows ≡ false
    → last.name ≡ name
    → mode_in (find_row (named name) (rows ++ (last ∷ []))) ≡ some last.capture_mode
unfolding row_mode exists_row find_row
mode_in-new name [] last h e =
    mode_in-find_row name last [] ∙ ground (arith, e, eq_iff last.name name)
mode_in-new name (row ∷ rest) last h e =
    mode_in-find_row name row (rest ++ (last ∷ []))
    ∙ ground (arith, h, mode_in-new name rest last, e)

-- `SetSourceCaptureMode` stores the mode: when it succeeds, for a source that was known or not, the
-- source has this mode, and the mode is one of the three.
pub set_source_capture_mode_lem :
    (now : Instant) (name mode : String) (db after : Db)
    → set_source_capture_mode now name mode db ≡ ok after
    → (stored_mode name after ≡ some mode) × (is_capture_mode mode ≡ true)
unfolding set_source_capture_mode upsert_source stored_mode
set_source_capture_mode_lem now name mode db after e =
    let valid : is_capture_mode mode ≡ true = ground (arith, e) in
    let change : SourceRow → SourceRow =
      λ row. record row { capture_mode = mode; updated_at = now } in
    (
      elim (Bool-cases (exists_row (named name) db.sources)) [
        | inl there ↦
            let sources : update_rows (named name) change db.sources ≡ after.sources =
              ground (arith, e, there, valid) in
            subst (λ rows. mode_in (find_row (named name) rows) ≡ some mode) sources
              (mode_in-changed name mode change db.sources (λ r. refl) (λ r. refl) there)
        | inr new ↦
            let sources : db.sources ++ (source_row now name mode ∷ []) ≡ after.sources =
              ground (arith, e, new, valid) in
            subst (λ rows. mode_in (find_row (named name) rows) ≡ some mode) sources
              (mode_in-new name db.sources (source_row now name mode) new refl)
      ],
      valid,
    )
