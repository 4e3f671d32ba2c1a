-- ===== src/Examples/SpoolRuns.antt =====
-- Runs of the spool: a sample codec, a spool of 20 bytes that loses its oldest entry, and a line that
-- is too long.
use Prim.Native.String.{len, ◌++◌ as concat, [] as empty_text, ◌∷◌ as put}
use traceboard.Prelude.{
  All, ℕ, zero, suc, ◌+◌, ◌≤◌, String, Bool, true, false, Option, none, some, List, [], ◌∷◌, ◌++◌,
  inl, inr, ◌==◌, ◌≡◌, refl, sym, subst, ap, ◌∙◌, arith, eqb, Bool-cases, length, exists_row,
  delete_rows, le→ltb, if◌then◌else◌,
}
use Prim.Native.String.compare
use package.text.Mathlib.Text.{is_eq}
use package.text.Mathlib.TextPositions.{len-append}
use traceboard.Ingest.Spool.{
  SpoolEntry, DrainResult, Codec, Spool, new_spool, encode_lines, total_bytes, entry_line_bytes,
  append_locked, read_entries, append_to, store_combined, drop_excess, record_loss, rewrite,
  rewrite_as, write_entries, written, install, remove_file, read_file, read_lines, entries_of,
  lines_of, file_name, count_of, max_line_bytes, line_too_long,
}
use traceboard.Ingest.Spool.Names.{
  IsSafe, clean_name, trim_left, trim_right, sanitize_source_name, sanitize_source_name-IsSafe,
}
use traceboard.Ingest.Spool.Bounded.{IsBounded}
use traceboard.Ingest.Spool.History.{
  none_yet, and_then, appended, drained, expired, SpoolHistory-IsBounded,
}
use traceboard.Ingest.Spool.Buffer.{
  append, drain, expire, drain_loop, drain_next, source_names, drain_source, drain_read,
  drain_entries, drain_written,
}
use traceboard.Ingest.Spool.Reading.{Newest, append_locked-Newest, drain_source_counts}
use traceboard.Ingest.Spool.Reports.{SpoolState, state, state_of}
use traceboard.Ingest.Spool.Losses.{lost}
use traceboard.Ingest.Spool.Emptying.{IsReady, drain-empty}
use traceboard.Ingest.Spool.Blocking.{long_line_blocks}
use traceboard.Examples.{platform}

-- Entries of the time 7, marked by a first character.
abbrev encode_7 : SpoolEntry → Option String
encode_7 e = if eqb e.timestamp 7 then some (put "x" e.event) else none

abbrev decode_7 : String → Option SpoolEntry
decode_7 empty_text = none
decode_7 (put c s) = some (record { event = s; timestamp = 7 })

abbrev codec : Codec
codec = record { encode = encode_7; decode = decode_7; trim_space = λ s. s; lower = λ s. s }

decode-encode_7 :
    (e : SpoolEntry) (line : String)
    → encode_7 e ≡ some line
    → (line ≡ line) × ((line == "") ≡ false) × (decode_7 line ≡ some e)
decode-encode_7 e line h = elim (Bool-cases (eqb e.timestamp 7)) [
  | inl seven ↦
      let same : put "x" e.event ≡ line = ground (arith, h, seven) in
      let time : e.timestamp ≡ 7 = ground (arith, seven) in
      (
        refl,
        subst (λ l. (l == "") ≡ false) same (ap is_eq (compare.cons-nil "x" e.event)),
        subst (λ l. decode_7 l ≡ some e) same
            (ap (λ t. some (record { event = e.event; timestamp = t })) (sym time)),
      )
  | inr other ↦ absurd (ground (arith, h, other))
]

sanitize_source_name-IsSafe_example : IsSafe (sanitize_source_name (λ s. s) (λ s. s) "../codex cli")
sanitize_source_name-IsSafe_example = sanitize_source_name-IsSafe (λ s. s) (λ s. s) "../codex cli"

-- A spool of 20 bytes: two entries of 8 bytes fit it, three do not.
abbrev small : Spool
small = new_spool [] 20 0

abbrev two : List SpoolEntry
two = record { event = "first."; timestamp = 7 } ∷ record { event = "second"; timestamp = 7 } ∷ []

abbrev third : List SpoolEntry
third = record { event = "third."; timestamp = 7 } ∷ []

abbrev with_two : Spool
with_two = (append_locked codec 7 "codex" two small).1

spooling : ℕ
unfolding drain drain_loop drain_next source_names exists_row delete_rows append_locked read_entries
    new_spool encode_lines total_bytes entry_line_bytes append_to store_combined drop_excess
    record_loss rewrite rewrite_as write_entries written install remove_file read_file read_lines
    entries_of lines_of file_name count_of sanitize_source_name clean_name trim_left trim_right
    state state_of drain_source drain_read drain_entries drain_written
spooling = 0

two_read : read_entries codec "codex" with_two ≡ inr two
unfolding spooling
two_read = refl

third_stored : (append_locked codec 7 "codex" third with_two).0 ≡ none
unfolding spooling
third_stored = refl

append_locked-Newest_example :
    Newest codec "codex" (two ++ third) with_two (append_locked codec 7 "codex" third with_two).1
append_locked-Newest_example =
    append_locked-Newest codec decode-encode_7 7 "codex" two third with_two two_read third_stored

-- The first entry is lost.
after_third :
    read_entries codec "codex" (append_locked codec 7 "codex" third with_two).1
    ≡ inr (record { event = "second"; timestamp = 7 } ∷ third)
unfolding spooling
after_third = refl

small-IsBounded : IsBounded codec small
unfolding spooling
small-IsBounded = tt

-- A consumer that takes the first entry only.
abbrev take_first : Bool → String → Bool × Bool
take_first taken event = if taken then (false, true) else (true, true)

abbrev none_drained : DrainResult
none_drained = record { drained = 0; failed = 0; remaining = 0 }

drained_ok : (drain_source codec take_first "codex" none_drained false with_two).0 ≡ none
unfolding spooling
drained_ok = refl

drain_source_counts_example :
    ((drain_source codec take_first "codex" none_drained false with_two).1.drained
        + (drain_source codec take_first "codex" none_drained false with_two).1.remaining
      ≡ 0 + 0 + length two)
    × ((drain_source codec take_first "codex" none_drained false with_two).1.failed + 0
        ≡ 0 + (drain_source codec take_first "codex" none_drained false with_two).1.remaining)
drain_source_counts_example =
    drain_source_counts codec take_first "codex" none_drained false with_two two two_read drained_ok

drain_ends : (drain codec take_first false with_two).0 ≡ none
unfolding spooling
drain_ends = refl

abbrev first_append : Spool
first_append = (append codec platform 7 "codex" ("hello" ∷ []) small).1

abbrev after_drain : Spool
after_drain = (drain codec take_first false first_append).3

SpoolHistory-IsBounded_example : IsBounded codec (expire codec 8 after_drain).2
SpoolHistory-IsBounded_example =
    SpoolHistory-IsBounded codec decode-encode_7 small (expire codec 8 after_drain).2
      (and_then small after_drain _
        (and_then small first_append _
          (and_then small small _ (none_yet small)
            (appended platform 7 "codex" ("hello" ∷ []) small))
          (drained Bool take_first false first_append))
        (expired 8 after_drain))
      small-IsBounded

-- The file of the source -codex is codex: its loss is not in the state of codex.
abbrev dashed : Spool
dashed = (append_locked codec 7 "-codex" two small).1

abbrev reported : List SpoolState
reported =
    state_of codec 0 "codex" (append_locked codec 7 "-codex" third dashed).1
      (record { event = "second"; timestamp = 7 } ∷ third)
    ∷ []

one_lost : lost codec dashed (two ++ third) ≡ 1
unfolding spooling
one_lost = refl

-- A text of a mebibyte.
twice : ℕ → String
twice zero = "a"
twice (suc n) = concat (twice n) (twice n)

size_of : ℕ → ℕ
size_of zero = 1
size_of (suc n) = size_of n + size_of n

len-twice : (n : ℕ) → len (twice n) ≡ size_of n
unfolding twice size_of
len-twice zero = refl
len-twice (suc n) = len-append (twice n) (twice n) ∙ omega (arith, len-twice n)

size_20 : size_of 20 ≡ 1048576
unfolding size_of
size_20 = refl

-- Every entry takes that long a line.
abbrev long_codec : Codec
long_codec = record {
  encode = λ e. some (twice 20);
  decode = λ s. none;
  trim_space = λ s. s;
  lower = λ s. s;
}

abbrev roomy : Spool
roomy = new_spool [] 0 0

abbrev long_entry : SpoolEntry
long_entry = record { event = "{}"; timestamp = 7 }

abbrev blocked : Spool
blocked = record roomy { files = record { name = "codex"; lines = twice 20 ∷ [] } ∷ [] }

roomy_read : read_entries long_codec "codex" roomy ≡ inr []
unfolding spooling
roomy_read = refl

long_fits : total_bytes (entry_line_bytes long_codec) ([] ++ (long_entry ∷ [])) ≤ roomy.limit_bytes
unfolding spooling
long_fits = omega (arith, len-twice 20, size_20)

is_long : max_line_bytes ≤ len (twice 20)
is_long = omega (arith, len-twice 20, size_20)

long_stored : append_locked long_codec 7 "codex" (long_entry ∷ []) roomy ≡ (none, blocked)
unfolding spooling
long_stored = rw (le→ltb 104857600 (len (twice 20) + 1 + 0) long_fits) refl

long_line_blocks_example :
    append_locked long_codec 8 "codex" third blocked ≡ (some line_too_long, blocked)
long_line_blocks_example =
    long_line_blocks long_codec 7 8 "codex" [] third long_entry (twice 20) roomy blocked roomy_read
      long_fits refl is_long long_stored

-- A consumer that counts, and takes every entry.
abbrev take_all : ℕ → String → Bool × ℕ
take_all n event = (true, n + 1)

two-IsReady : All (IsReady codec take_all (λ n e. refl)) with_two.files
unfolding spooling
two-IsReady = ((refl, refl), tt)

drain-empty_example :
    ((drain codec take_all 0 with_two).0 ≡ none)
    × ((((drain codec take_all 0 with_two).1.failed ≡ 0)
          × ((drain codec take_all 0 with_two).1.remaining ≡ 0))
        × ((drain codec take_all 0 with_two).3.files ≡ []))
drain-empty_example = drain-empty codec take_all (λ n e. refl) 0 with_two two-IsReady
