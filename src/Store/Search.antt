-- ===== src/Store/Search.antt =====
-- `FTSQuery` of internal/store/timeline.go: the words of a search as a safe full-text expression.
pub mod Phrases
use Prim.Native.Char.{Char, code}
use Prim.Native.String.{String, [], ◌∷◌, ◌++◌}
use mathlib.Core.List.{List, [] as no_words, ◌∷◌ as more}
use traceboard.Prelude.{ℕ, Bool, true, false, ◌&&◌, ◌||◌, not, eqb, if◌then◌else◌}

-- The double quote.
abbrev pub quote : ℕ
quote = 34

-- A character that no term has inside: not a letter, digit, underscore, dash, dot or slash.
abbrev pub is_separator : (Char → Bool) → Char → Bool
is_separator is_letter_or_digit c =
    not (is_letter_or_digit c)
    && not (eqb (code c) 95 || (eqb (code c) 45 || (eqb (code c) 46 || eqb (code c) 47)))

abbrev is_empty : String → Bool
is_empty [] = true
is_empty (c ∷ s) = false

-- A word that is not empty, before the others.
unfoldable pub add_word : String → List String → List String
add_word w words = if is_empty w then words else more w words

-- The first word, which may be empty, and the words after the next separator.
unfoldable pub split_words : (Char → Bool) → String → String × List String
unfolding add_word
split_words is_letter_or_digit [] = ([], no_words)
split_words is_letter_or_digit (c ∷ s) =
    let (w, words) = split_words is_letter_or_digit s in
    if is_separator is_letter_or_digit c then ([], add_word w words) else (c ∷ w, words)

-- strings.FieldsFunc
unfoldable pub words_of : (Char → Bool) → String → List String
unfolding split_words add_word
words_of is_letter_or_digit s =
    let (w, words) = split_words is_letter_or_digit s in add_word w words

-- The cutset of strings.Trim: a double quote, a dash, a dot, a slash and an underscore.
abbrev is_cut : Char → Bool
is_cut c =
    eqb (code c) 34
    || (eqb (code c) 45 || (eqb (code c) 46 || (eqb (code c) 47 || eqb (code c) 95)))

unfoldable pub cut_left : String → String
cut_left [] = []
cut_left (c ∷ s) = let rest = cut_left s in if is_cut c then rest else c ∷ s

unfoldable pub cut_right : String → String
cut_right [] = []
cut_right (c ∷ s) = let rest = cut_right s in if is_cut c && is_empty rest then [] else c ∷ rest

-- strings.ReplaceAll of a double quote by two.
unfoldable pub double_quotes : String → String
double_quotes [] = []
double_quotes (c ∷ s) =
    let rest = double_quotes s in if eqb (code c) 34 then c ∷ c ∷ rest else c ∷ rest

-- The terms before they are quoted: those that Trim leaves something of.
unfoldable pub trimmed_terms : List String → List String
unfolding cut_left cut_right add_word
trimmed_terms no_words = no_words
trimmed_terms (more w rest) = add_word (cut_right (cut_left w)) (trimmed_terms rest)

abbrev pub quoted : String → String
quoted t = "\"" ++ (double_quotes t ++ "\"")

unfoldable pub join_terms : List String → String
unfolding double_quotes
join_terms no_words = "\"\""
join_terms (more t no_words) = quoted t
join_terms (more t rest) = quoted t ++ (" " ++ join_terms rest)

-- FTSQuery, with unicode.IsLetter or unicode.IsDigit as a parameter.
unfoldable pub fts_query : (Char → Bool) → String → String
unfolding words_of trimmed_terms join_terms
fts_query is_letter_or_digit input = join_terms (trimmed_terms (words_of is_letter_or_digit input))
