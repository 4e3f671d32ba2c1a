-- ===== src/Ingest/Spool/Names.antt =====
-- `sanitizeSourceName` of internal/ingest/spool.go: the name of a source's spool file.
use Prim.Native.Char.{Char, code}
use Prim.Native.String.{String, [], ◌∷◌}
use traceboard.Prelude.{
  Bool, true, false, ◌&&◌, ◌||◌, ◌≡◌, refl, leb, eqb, if◌then◌else◌, Bool-cases, inl, inr,
}

abbrev pub is_allowed : Char → Bool
is_allowed c =
    (leb 97 (code c) && leb (code c) 122)
    || (leb 48 (code c) && leb (code c) 57)
    || eqb (code c) 45
    || eqb (code c) 95

abbrev is_dash : Char → Bool
is_dash c = eqb (code c) 45

-- The loop: a character that is not allowed becomes a dash.
unfoldable pub clean_name : String → String
clean_name [] = []
clean_name (c ∷ s) = let rest = clean_name s in if is_allowed c then c ∷ rest else "-" ∷ rest

unfoldable pub trim_left : String → String
trim_left [] = []
trim_left (c ∷ s) = let rest = trim_left s in if is_dash c then rest else c ∷ s

abbrev is_empty : String → Bool
is_empty [] = true
is_empty (c ∷ s) = false

unfoldable pub trim_right : String → String
trim_right [] = []
trim_right (c ∷ s) = let rest = trim_right s in if is_dash c && is_empty rest then [] else c ∷ rest

-- sanitizeSourceName, with strings.TrimSpace and strings.ToLower as parameters.
unfoldable pub sanitize_source_name : (String → String) → (String → String) → String → String
unfolding clean_name trim_left trim_right
sanitize_source_name trim_space lower value =
    trim_right (trim_left (clean_name (lower (trim_space value))))

-- Only lower case letters, digits, dashes and underscores: no separator and no dot.
abbrev pub IsSafe : String → Type 0
IsSafe [] = Unit
IsSafe (c ∷ s) = (is_allowed c ≡ true) × IsSafe s

clean_name-IsSafe : (s : String) → IsSafe (clean_name s)
unfolding clean_name
clean_name-IsSafe [] = tt
clean_name-IsSafe (c ∷ s) = elim (Bool-cases (is_allowed c)) [
  | inl good ↦ rw good (good, clean_name-IsSafe s)
  | inr bad ↦ rw bad (refl, clean_name-IsSafe s)
]

trim_left-IsSafe : (s : String) → IsSafe s → IsSafe (trim_left s)
unfolding trim_left
trim_left-IsSafe [] h = tt
trim_left-IsSafe (c ∷ s) h = elim (Bool-cases (is_dash c)) [
  | inl dash ↦ rw dash (trim_left-IsSafe s h.1)
  | inr other ↦ rw other h
]

trim_right-IsSafe : (s : String) → IsSafe s → IsSafe (trim_right s)
unfolding trim_right
trim_right-IsSafe [] h = tt
trim_right-IsSafe (c ∷ s) h = elim (Bool-cases (is_dash c && is_empty (trim_right s))) [
  | inl last ↦ rw last tt
  | inr other ↦ rw other (h.0, trim_right-IsSafe s h.1)
]

-- Whatever a source calls itself, the name of its spool file has only lower case letters, digits,
-- dashes and underscores: it names no other directory.
pub sanitize_source_name-IsSafe :
    (trim_space lower : String → String) (value : String)
    → IsSafe (sanitize_source_name trim_space lower value)
unfolding sanitize_source_name
sanitize_source_name-IsSafe trim_space lower value =
    trim_right-IsSafe _ (trim_left-IsSafe _ (clean_name-IsSafe (lower (trim_space value))))
