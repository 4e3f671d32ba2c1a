-- ===== src/Ingest/Spool.antt =====
-- internal/ingest/spool.go: the buffer that keeps telemetry on disk while the collector is offline.
-- A spool file is the list of its lines, without their line ends; a file that is not there has none.
-- What the disk refuses, the lock and cancelled contexts are not modelled.
pub mod Names
pub mod Buffer
pub mod Emptying
pub mod Lines
pub mod Bounded
pub mod Shrinking
pub mod History
pub mod Reading
pub mod Blocking
pub mod Reports
pub mod Losses
pub mod Accounts
use Prim.Native.String.{len, compare}
use package.text.Mathlib.Text.{is_lt}
use traceboard.Prelude.{
  ℕ, suc, ◌+◌, ◌-◌, String, Bool, true, false, Option, none, some, List, [], ◌∷◌, ◌++◌, ◌⊎◌, inl,
  inr, ◌==◌, not, ltb, leb, eqb, if◌then◌else◌, length, exists_row, delete_rows, map,
}
use traceboard.Event.{Value, Instant}
use traceboard.Platform.{Platform}
use traceboard.Redact.{CompiledRule, default_rules, apply}
use traceboard.Ingest.Spool.Names.{sanitize_source_name}

pub record SpoolEntry : Type 0 where
  pub event : String
  pub timestamp : Instant

pub record DrainResult : Type 0 where
  pub drained : ℕ
  pub failed : ℕ
  pub remaining : ℕ

pub data SpoolError : Type 0 where
  source_required : SpoolError
  invalid_payload : SpoolError
  payload_encoding : SpoolError
  invalid_source_name : SpoolError
  line_too_long : SpoolError
  entry_encoding : SpoolError

-- json.Marshal and json.Unmarshal of an entry, strings.TrimSpace and strings.ToLower.
pub record Codec : Type 0 where
  pub encode : SpoolEntry → Option String
  pub decode : String → Option SpoolEntry
  pub trim_space : String → String
  pub lower : String → String

pub record SpoolFile : Type 0 where
  pub name : String
  pub lines : List String

-- `dropped` counts per source, `at_risk` has the time of the last loss of a source first.
pub record Spool : Type 0 where
  pub rules : List CompiledRule
  pub limit_bytes : ℕ
  pub max_age : ℕ
  pub files : List SpoolFile
  pub at_risk : List (String × Instant)
  pub dropped : List (String × ℕ)

-- MaxRawPayloadBytes
abbrev pub max_line_bytes : ℕ
max_line_bytes = 1048576

-- DefaultSpoolLimitBytes
abbrev pub default_spool_limit_bytes : ℕ
default_spool_limit_bytes = 104857600

-- DefaultSpoolAge, in nanoseconds
abbrev pub default_spool_age : ℕ
default_spool_age = 604800000000000

-- The limits that `NewSpool` sets.
unfoldable pub new_spool : List CompiledRule → ℕ → ℕ → Spool
new_spool rules limit_bytes max_age = record {
  rules = rules;
  limit_bytes =
      if eqb limit_bytes 0
      then default_spool_limit_bytes
      else if ltb default_spool_limit_bytes limit_bytes
      then default_spool_limit_bytes
      else limit_bytes;
  max_age =
      if eqb max_age 0
      then default_spool_age
      else if ltb default_spool_age max_age
      then default_spool_age
      else max_age;
  files = [];
  at_risk = [];
  dropped = [];
}

unfoldable pub lines_of : String → List SpoolFile → List String
lines_of name [] = []
lines_of name (f ∷ rest) =
    let later = lines_of name rest in if f.name == name then f.lines else later

abbrev has_name : String → SpoolFile → Bool
has_name name f = f.name == name

-- os.Rename over the file, and os.Remove.
unfoldable pub install : String → List String → List SpoolFile → List SpoolFile
install name lines files = record { name = name; lines = lines } ∷ delete_rows (has_name name) files

unfoldable pub remove_file : String → List SpoolFile → List SpoolFile
remove_file name files = delete_rows (has_name name) files

unfoldable pub count_of : String → List (String × ℕ) → ℕ
count_of source [] = 0
count_of source ((s, n) ∷ rest) =
    let later = count_of source rest in if s == source then n else later

-- A line of this many bytes does not fit the buffer of the scanner together with its line end.
abbrev pub is_long_line : String → Bool
is_long_line line = leb max_line_bytes (len line)

unfoldable pub drop_excess : (SpoolEntry → ℕ) → ℕ → ℕ → List SpoolEntry → ℕ × List SpoolEntry
drop_excess size limit total [] = (0, [])
drop_excess size limit total (e ∷ rest) =
    let (n, kept) = drop_excess size limit (total - size e) rest in
    if ltb limit total then (suc n, kept) else (0, e ∷ rest)

unfoldable pub total_bytes : (SpoolEntry → ℕ) → List SpoolEntry → ℕ
total_bytes size [] = 0
total_bytes size (e ∷ rest) = size e + total_bytes size rest

-- The loss that `appendLocked` records.
unfoldable pub record_loss : Instant → String → ℕ → Spool → Spool
unfolding count_of
record_loss now source n spool = if eqb n 0 then spool else record spool {
  at_risk = (source, now) ∷ spool.at_risk;
  dropped = (source, count_of source spool.dropped + n) ∷ spool.dropped;
}

module _ (codec : Codec) where
  -- entryLineBytes
  unfoldable pub entry_line_bytes : SpoolEntry → ℕ
  entry_line_bytes e = elim (codec.encode e) [ none ↦ 0 | some line ↦ len line + 1 ]

  -- The loop of `readEntries` over the lines; a line that does not decode is discarded.
  unfoldable pub entries_of : List String → List SpoolEntry
  entries_of [] = []
  entries_of (line ∷ rest) =
      let later = entries_of rest in
      if codec.trim_space line == ""
      then later
      else elim (codec.decode (codec.trim_space line)) [ none ↦ later | some e ↦ e ∷ later ]

  unfoldable pub read_lines : List String → SpoolError ⊎ List SpoolEntry
  unfolding entries_of
  read_lines lines =
      if exists_row is_long_line lines then inl line_too_long else inr (entries_of lines)

  -- path
  unfoldable pub file_name : String → SpoolError ⊎ String
  unfolding sanitize_source_name
  file_name source =
      let name = sanitize_source_name codec.trim_space codec.lower source in
      if name == "" then inl invalid_source_name else inr name

  unfoldable pub read_file : List SpoolFile → SpoolError ⊎ String → SpoolError ⊎ List SpoolEntry
  unfolding read_lines lines_of
  read_file files (inl e) = inl e
  read_file files (inr name) = read_lines (lines_of name files)

  -- readEntries
  unfoldable pub read_entries : String → Spool → SpoolError ⊎ List SpoolEntry
  unfolding file_name read_file
  read_entries source spool = read_file spool.files (file_name source)

  unfoldable pub encode_lines : List SpoolEntry → Option (List String)
  encode_lines [] = some []
  encode_lines (e ∷ rest) = elim (codec.encode e) [
    | none ↦ none
    | some line ↦ elim (encode_lines rest) [ none ↦ none | some lines ↦ some (line ∷ lines) ]
  ]

  unfoldable pub written : String → Spool → Option (List String) → Option SpoolError × Spool
  unfolding install
  written name spool none = (some entry_encoding, spool)
  written name spool (some lines) = (none, record spool { files = install name lines spool.files })

  unfoldable pub write_entries : String → List SpoolEntry → Spool → Option SpoolError × Spool
  unfolding encode_lines written remove_file
  write_entries name [] spool = (none, record spool { files = remove_file name spool.files })
  write_entries name (e ∷ rest) spool = written name spool (encode_lines (e ∷ rest))

  unfoldable pub rewrite_as :
      List SpoolEntry → Spool → SpoolError ⊎ String → Option SpoolError × Spool
  unfolding write_entries
  rewrite_as entries spool (inl e) = (some e, spool)
  rewrite_as entries spool (inr name) = write_entries name entries spool

  -- rewrite
  unfoldable pub rewrite : String → List SpoolEntry → Spool → Option SpoolError × Spool
  unfolding file_name rewrite_as
  rewrite source entries spool = rewrite_as entries spool (file_name source)

  unfoldable pub store_combined :
      Instant → String → List SpoolEntry → Spool → Option SpoolError × Spool
  unfolding drop_excess total_bytes record_loss rewrite
  store_combined now source combined spool =
      let (n, kept) =
        drop_excess entry_line_bytes spool.limit_bytes (total_bytes entry_line_bytes combined)
          combined in
      rewrite source kept (record_loss now source n spool)

  unfoldable pub append_to :
      Instant
      → String
      → List SpoolEntry
      → Spool
      → SpoolError ⊎ List SpoolEntry
      → Option SpoolError × Spool
  unfolding store_combined
  append_to now source entries spool (inl e) = (some e, spool)
  append_to now source entries spool (inr existing) =
      store_combined now source (existing ++ entries) spool

  -- appendLocked
  unfoldable pub append_locked :
      Instant → String → List SpoolEntry → Spool → Option SpoolError × Spool
  unfolding read_entries append_to
  append_locked now source entries spool =
      append_to now source entries spool (read_entries source spool)
