-- ===== src/Ingest/Spool/Emptying.antt =====
-- `Drain` of internal/ingest/spool.go where the consumer takes everything.
use traceboard.Prelude.{
  ◌+◌, String, Bool, true, false, none, some, List, [], ◌∷◌, inl, inr, ◌==◌, ◌||◌, ◌≡◌, refl, sym,
  ap, subst, ◌∙◌, arith, eq_refl, All, All-imp, All-delete, Bool-cases, exists_row, delete_rows,
}
use Prim.Native.String.{compare}
use text.Mathlib.Text.{is_lt}
use traceboard.Ingest.Spool.{
  SpoolEntry, DrainResult, Codec, SpoolFile, Spool, read_lines, read_file, entries_of, lines_of,
  read_entries, file_name, rewrite, rewrite_as, write_entries, is_long_line, remove_file,
}
use traceboard.Ingest.Spool.Buffer.{
  source_names, insert_name, drain, drain_loop, drain_source, drain_entries, drain_read,
  drain_written, drain_next, Drained,
}
use traceboard.Ingest.Spool.Shrinking.{drain_entries-taken}

-- The name of a file is among these.
abbrev IsCovered : List String → SpoolFile → Type 0
IsCovered names f = exists_row (λ n. f.name == n) names ≡ true

exists_row-insert_name :
    (q : String → Bool) (s : String) (l : List String)
    → exists_row q (insert_name s l) ≡ (q s || exists_row q l)
unfolding insert_name exists_row
exists_row-insert_name q s [] = refl
exists_row-insert_name q s (t ∷ rest) = ground (arith, exists_row-insert_name q s rest)

source_names-IsCovered : (files : List SpoolFile) → All (IsCovered (source_names files)) files
unfolding source_names
source_names-IsCovered [] = tt
source_names-IsCovered (f ∷ rest) = (
  ground
      (arith, exists_row-insert_name (λ n. f.name == n) f.name (source_names rest), eq_refl f.name),
  All-imp (IsCovered (source_names rest)) (IsCovered (insert_name f.name (source_names rest))) rest
      (λ g h.
        ground (arith, h, exists_row-insert_name (λ n. g.name == n) f.name (source_names rest)))
      (source_names-IsCovered rest),
)

insert_name-All :
    (P : String → Type 0) (s : String) (l : List String) → P s → All P l → All P (insert_name s l)
unfolding insert_name
insert_name-All P s [] p h = (p, tt)
insert_name-All P s (t ∷ rest) p h = elim (Bool-cases (is_lt (compare t s))) [
  | inl first ↦ rw first (h.0, insert_name-All P s rest p h.1)
  | inr other ↦ rw other (p, h)
]

source_names-All :
    (P : String → Type 0) (files : List SpoolFile)
    → All (λ f. P (SpoolFile.name f)) files
    → All P (source_names files)
unfolding source_names
source_names-All P [] h = tt
source_names-All P (f ∷ rest) h =
    insert_name-All P f.name (source_names rest) h.0 (source_names-All P rest h.1)

remove_all : List String → List SpoolFile → List SpoolFile
remove_all [] files = files
remove_all (n ∷ rest) files = remove_all rest (remove_file n files)

remove_file-IsCovered :
    (n : String) (rest : List String) (files : List SpoolFile)
    → All (IsCovered (n ∷ rest)) files
    → All (IsCovered rest) (remove_file n files)
unfolding remove_file delete_rows exists_row
remove_file-IsCovered n rest [] h = tt
remove_file-IsCovered n rest (f ∷ files) h = elim (Bool-cases (f.name == n)) [
  | inl found ↦ rw found (remove_file-IsCovered n rest files h.1)
  | inr other ↦ rw other (ground (arith, other, h.0), remove_file-IsCovered n rest files h.1)
]

remove_all-IsCovered :
    (names : List String) (files : List SpoolFile)
    → All (IsCovered names) files
    → remove_all names files ≡ []
unfolding remove_all exists_row
remove_all-IsCovered [] [] h = refl
remove_all-IsCovered [] (f ∷ files) h = absurd (ground (arith, h.0))
remove_all-IsCovered (n ∷ rest) files h =
    remove_all-IsCovered rest (remove_file n files) (remove_file-IsCovered n rest files h)

module _ {World : Type 0} (codec : Codec) (consume : World → String → Bool × World)
    (accepts : (world : World) (e : String) → (consume world e).0 ≡ true) where
  -- What a part of `Drain` counts, where nothing fails.
  abbrev NoneFailed : DrainResult → Type 0
  NoneFailed result = (result.failed ≡ 0) × (result.remaining ≡ 0)

  drain_entries-accepted :
      (entries : List SpoolEntry) (result : DrainResult) (world : World)
      → NoneFailed result
      → ((drain_entries codec consume entries result world).1 ≡ [])
        × NoneFailed (drain_entries codec consume entries result world).0
  unfolding drain_entries
  drain_entries-accepted [] result world h = (refl, h)
  drain_entries-accepted (e ∷ rest) result world h =
      let counted : DrainResult = record result { drained = result.drained + 1 } in
      let taken = drain_entries-taken codec consume e rest result world (accepts world e.event) in
      let later = drain_entries-accepted rest counted (consume world e.event).1 h in
      (
        ap (λ d. d.1) taken ∙ later.0,
        (
          ap (λ d. DrainResult.failed d.0) taken ∙ later.1.0,
          ap (λ d. DrainResult.remaining d.0) taken ∙ later.1.1,
        ),
      )

  -- A file whose name is the name of its source, and whose lines can be read.
  abbrev pub IsReady : SpoolFile → Type 0
  IsReady f = (file_name codec f.name ≡ inr f.name) × (exists_row is_long_line f.lines ≡ false)

  lines_of-short :
      (name : String) (files : List SpoolFile)
      → All IsReady files
      → exists_row is_long_line (lines_of name files) ≡ false
  unfolding lines_of exists_row
  lines_of-short name [] h = refl
  lines_of-short name (f ∷ rest) h = elim (Bool-cases (f.name == name)) [
    | inl found ↦ rw found h.0.1
    | inr other ↦ rw other (lines_of-short name rest h.1)
  ]

  -- A part of `Drain` that leaves these files, without an error and with nothing that failed.
  abbrev Leaves : List SpoolFile → Drained codec consume → Type 0
  Leaves files (error, result, world, spool) =
      (error ≡ none) × (NoneFailed result × (spool.files ≡ files))

  drain_read-Leaves :
      (name : String) (entries : List SpoolEntry) (result : DrainResult) (world : World)
      (spool : Spool)
      → file_name codec name ≡ inr name
      → NoneFailed result
      → Leaves
          (remove_file name spool.files)
          (drain_read codec consume name result world spool (inr entries))
  unfolding drain_read drain_written rewrite rewrite_as write_entries
  drain_read-Leaves name entries result world spool named h =
      let accepted = drain_entries-accepted entries result world h in
      rw (accepted.0, named) (refl, ((accepted.1.0, omega (arith, accepted.1.1)), refl))

  drain_source-Leaves :
      (name : String) (result : DrainResult) (world : World) (spool : Spool)
      → file_name codec name ≡ inr name
      → All IsReady spool.files
      → NoneFailed result
      → Leaves (remove_file name spool.files) (drain_source codec consume name result world spool)
  unfolding drain_source read_entries read_file read_lines
  drain_source-Leaves name result world spool named ready h =
      rw (named, lines_of-short name spool.files ready)
        (drain_read-Leaves name (entries_of codec (lines_of name spool.files)) result world spool
          named h)

  drain_next-Leaves :
      (files left : List SpoolFile) (again : DrainResult → World → Spool → Drained codec consume)
      (step : Drained codec consume)
      → Leaves files step
      → ((result : DrainResult) (world : World) (spool : Spool)
          → NoneFailed result
          → spool.files ≡ files
          → Leaves left (again result world spool))
      → Leaves left (drain_next codec consume again step)
  unfolding drain_next
  drain_next-Leaves files left again (some e, result, world, spool) h f =
      absurd (ground (arith, h.0))
  drain_next-Leaves files left again (none, result, world, spool) h f =
      f result world spool h.1.0 h.1.1

  drain_loop-Leaves :
      (names : List String) (files : List SpoolFile) (result : DrainResult) (world : World)
      (spool : Spool)
      → All (λ n. file_name codec n ≡ inr n) names
      → All IsReady files
      → NoneFailed result
      → spool.files ≡ files
      → Leaves (remove_all names files) (drain_loop codec consume names result world spool)
  unfolding drain_loop remove_all
  drain_loop-Leaves [] files result world spool named ready h same = (refl, (h, same))
  drain_loop-Leaves (n ∷ rest) files result world spool named ready h same =
      drain_next-Leaves (remove_file n files) (remove_all rest (remove_file n files))
        (drain_loop codec consume rest) (drain_source codec consume n result world spool)
        (subst (λ fs. Leaves (remove_file n fs) (drain_source codec consume n result world spool))
          same
          (drain_source-Leaves n result world spool named.0 (subst (All IsReady) (sym same) ready)
            h))
        (λ later_result later_world later_spool later_h later_same.
          drain_loop-Leaves rest (remove_file n files) later_result later_world later_spool named.1
            (All-delete IsReady (λ f. f.name == n) files ready) later_h later_same)

  -- A drain whose consumer takes every event ends without an error, with nothing failed and nothing
  -- remaining, and leaves no file: where each file has a name that sanitizing keeps, and no line of
  -- a mebibyte or more, which could not be read.
  pub drain-empty :
      (world : World) (spool : Spool)
      → All IsReady spool.files
      → ((drain codec consume world spool).0 ≡ none)
        × ((((drain codec consume world spool).1.failed ≡ 0)
              × ((drain codec consume world spool).1.remaining ≡ 0))
            × ((drain codec consume world spool).3.files ≡ []))
  unfolding drain
  drain-empty world spool ready =
      let names = source_names spool.files in
      let named =
        source_names-All (λ n. file_name codec n ≡ inr n) spool.files
          (All-imp IsReady (λ f. file_name codec f.name ≡ inr f.name) spool.files (λ f r. r.0)
            ready) in
      subst
        (λ left. Leaves left (
          drain_loop codec consume names (record { drained = 0; failed = 0; remaining = 0 }) world
            spool))
        (remove_all-IsCovered names spool.files (source_names-IsCovered spool.files))
        (drain_loop-Leaves names spool.files (record { drained = 0; failed = 0; remaining = 0 })
          world spool named ready (refl, refl) refl)
